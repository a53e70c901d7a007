-- ===== src/Interleaving/Keeps.antt =====
-- A predicate that every statement keeps is kept by an action that has a program.
use vaulty.Prelude.{Text}
use mathlib.Core.Path.{subst}
use vaulty.Model.{TokenStatus}
use vaulty.World.{World}
use vaulty.Store.{Store, Action}
use vaulty.Store.Keeps.{Keeps}
use vaulty.Repository
use vaulty.Repository.Keeps.{Keeps-query}
use vaulty.Handler.Keeps.{Scope, KeptBy}
use vaulty.Interleaving.Code.{
  Code, Statement, done, step, run, insert_token, touch_token, deactivate_token, insert_entry,
  append_audit, insert_tenant, deactivate_tenant, look_up, redis_command, external,
}
use vaulty.Interleaving.Program.{Program}

module _ (w : World) (scope : Scope) (changes : Text → Text → Type 0)
    (P : Store w.redis.Cache → Type 0) (k : KeptBy w scope P)
    (deactivated : (a b : Text)
      → scope.tenant a
      → changes a b
      → Keeps P (Repository.Tokens.update_status w a b TokenStatus.inactive)) where
  pub statement-Keeps :
      {B : Type 0} {m : Action w.redis.Cache B} → Statement w scope changes B m → Keeps P m
  statement-Keeps (insert_token t own) = k.insert_token t own
  statement-Keeps (touch_token a b own) = k.touch_token a b own
  statement-Keeps (deactivate_token a b own may) = deactivated a b own may
  statement-Keeps (insert_entry e own) = k.insert_entry e own
  statement-Keeps (append_audit a b o t actor own) = k.append_audit a b o t actor own
  statement-Keeps (insert_tenant t admin) = k.insert_tenant t admin
  statement-Keeps (deactivate_tenant a admin) = k.set_tenant_status a admin
  statement-Keeps (look_up f) = Keeps-query w P k.external_call f
  statement-Keeps (redis_command f) = record {
    at = λ s p. k.external_call _ (k.cache_command s (f s.cache).1 p);
  }
  statement-Keeps (external f) = record { at = k.external_call }

  run-Keeps :
      {R : Type 0} (c : Code w scope changes R) (s : Store w.redis.Cache) → P s → P (run c s).1
  unfolding run
  run-Keeps (done r) s p = p
  run-Keeps (step m is c) s p = run-Keeps (c (m s).0) (m s).1 ((statement-Keeps is).at s p)

  pub Program-Keeps :
      {R : Type 0} {m : Action w.redis.Cache R} → Program w scope changes m → Keeps P m
  Program-Keeps pm = record { at = λ s p. subst (λ x. P x.1) (pm.runs s) (run-Keeps pm.code s p) }
