-- ===== src/Routes/Keeps.antt =====
-- A predicate that every statement keeps is kept by every call of the tokenizer service, and by any
-- sequence of calls.
use vaulty.Prelude.{List, [], ◌∷◌, Text}
use vaulty.Model.{TokenStatus}
use vaulty.World.{World}
use vaulty.Store.{Store}
use vaulty.Store.Keeps.{Keeps}
use vaulty.Repository
use vaulty.Auth.{Request}
use vaulty.Handler.Health.{Pings}
use vaulty.Handler.Tokenize.{TokenizeConfig}
use vaulty.Handler.Keeps.{Scope, KeptBy}
use vaulty.Interleaving.Calls.{May, MayChange, serve-Runs}
use vaulty.Interleaving.Keeps.{Program-Keeps}
use vaulty.Routes.{
  VaultCall, tokenize_call, status_call, deactivate_call, audit_call, detokenize_call, Call,
  health_call, admin, vault, serve,
}

module _ (w : World) (scope : Scope) (P : Store w.redis.Cache → Type 0) where
  -- A call that deactivates a token asks for the change of status.
  abbrev pub AllowsChange : VaultCall → Type 0
  AllowsChange (deactivate_call token_id) =
      (a : Text)
      → scope.tenant a
      → Keeps P (Repository.Tokens.update_status w a token_id TokenStatus.inactive)
  AllowsChange _ = Unit

  -- A tenant-scoped call asks that its tenant is in the scope, an administrative one that tenants are
  -- administered.
  abbrev pub Allows : Call → Request → Type 0
  Allows (vault c) r = scope.tenant r.x_tenant_id × AllowsChange c
  Allows (admin c) r = scope.admin
  Allows health_call r = Unit

  -- A call may change the status of a token if the change is kept.
  abbrev Changes : Text → Text → Type 0
  Changes a b = Keeps P (Repository.Tokens.update_status w a b TokenStatus.inactive)

  MayChange-kept : (c : VaultCall) → AllowsChange c → MayChange scope Changes c
  MayChange-kept (tokenize_call body) h = tt
  MayChange-kept (status_call token_id) h = tt
  MayChange-kept (deactivate_call token_id) h = h
  MayChange-kept (audit_call token_id limit offset) h = tt
  MayChange-kept (detokenize_call body) h = tt

  May-kept : (c : Call) (r : Request) → Allows c r → May scope Changes c r
  May-kept health_call r h = tt
  May-kept (admin c) r h = h
  May-kept (vault c) r (own, h) = (own, MayChange-kept c h)

  pub serve-Keeps :
      (cfg : TokenizeConfig) (pings : Pings)
      → KeptBy w scope P
      → (c : Call) (r : Request) → Allows c r
      → Keeps P (serve w cfg pings c r)
  serve-Keeps cfg pings k c r h =
      Program-Keeps w scope Changes P k (λ a b own kept. kept)
        (serve-Runs w cfg pings scope Changes c r (May-kept c r h))

-- The calls of a run, one after the other.
unfoldable pub serve_all :
    (w : World)
    → TokenizeConfig
    → Pings
    → List (Call × Request)
    → Store w.redis.Cache
    → Store w.redis.Cache
serve_all w cfg pings [] s = s
serve_all w cfg pings ((c, r) ∷ calls) s = serve_all w cfg pings calls (serve w cfg pings c r s).1

module _ (w : World) (scope : Scope) (P : Store w.redis.Cache → Type 0) where
  abbrev pub AllAllow : List (Call × Request) → Type 0
  AllAllow [] = Unit
  AllAllow ((c, r) ∷ calls) = Allows w scope P c r × AllAllow calls

  pub serve_all-Keeps :
      (cfg : TokenizeConfig) (pings : Pings)
      → KeptBy w scope P
      → (calls : List (Call × Request)) (s : Store w.redis.Cache) → AllAllow calls
      → P s
      → P (serve_all w cfg pings calls s)
  unfolding serve_all
  serve_all-Keeps cfg pings k [] s h p = p
  serve_all-Keeps cfg pings k ((c, r) ∷ calls) s (h, hs) p =
      serve_all-Keeps cfg pings k calls _ hs ((serve-Keeps w scope P cfg pings k c r h).at s p)

-- Every call.
abbrev pub Anyone : Scope
Anyone = record { tenant = λ tenant_id. Unit {0}; admin = Unit {0} }

-- Every call is allowed where every change to inactive keeps the predicate.
pub AllAllow-Anyone :
    (w : World) (P : Store w.redis.Cache → Type 0)
    → ((a b : Text) → Keeps P (Repository.Tokens.update_status w a b TokenStatus.inactive))
    → (calls : List (Call × Request)) → AllAllow w Anyone P calls
AllAllow-Anyone w P h [] = tt
AllAllow-Anyone w P h ((health_call, r) ∷ calls) = (tt, AllAllow-Anyone w P h calls)
AllAllow-Anyone w P h ((admin c, r) ∷ calls) = (tt, AllAllow-Anyone w P h calls)
AllAllow-Anyone w P h ((vault c, r) ∷ calls) = ((tt, change c), AllAllow-Anyone w P h calls)
  where
    change : (c : VaultCall) → AllowsChange w Anyone P c
    change (tokenize_call b) = tt
    change (status_call t) = tt
    change (deactivate_call b) = λ a own. h a b
    change (audit_call t l o) = tt
    change (detokenize_call b) = tt
