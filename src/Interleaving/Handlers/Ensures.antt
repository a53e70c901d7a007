-- ===== src/Interleaving/Handlers/Ensures.antt =====
-- What DetokenizeHandler answers while other calls make statements between its own.
use vaulty.Prelude.{Option, none, some, ◌≡◌, refl, Text, find, arith}
use vaulty.Model.{Token, TokenStatus, Tenant}
use vaulty.Server.{Response, Body, ok}
use vaulty.World.{World}
use vaulty.Store.{Store}
use vaulty.Repository
use vaulty.Repository.Tokens.{has_token_id}
use vaulty.Auth.{Context}
use vaulty.Handler.Keeps.{Scope}
use vaulty.Handler.Tokenize.{TokenizeConfig}
use vaulty.Interleaving.Program.Ensures.{
  Ensures-called, Ensures, OnGo, Ensures-bind, Ensures-or_reply, Ensures-pure, Ensures-present,
  Ensures-require,
}
use vaulty.Interleaving.Program.Known.Ensures.{Ensures-bind_present}
use vaulty.Interleaving.Actions.Ensures.{Faults, Ensures-query, decrypt_pan-Ensures}
use vaulty.Interleaving.Handlers.{OwnTenant, reveal-Runs, detokenize-Runs}
use vaulty.Vaulted.{IsVaulted}

-- The answer is the PAN.
abbrev pub IsPan : Text → Response → Type 0
IsPan pan resp = resp ≡ ok (Body.value pan)

module _ (w : World) (cfg : TokenizeConfig) (scope : Scope) (changes : Text → Text → Type 0)
    (P : Store w.redis.Cache → Type 0) (Fault : Type 0) (faults : Faults w Fault) (pan : Text) where
  abbrev IsActive : Option Token → Type 0
  IsActive none = ⊥
  IsActive (some t) = t.status ≡ TokenStatus.active

  reveal-Ensures :
      (ctx : Context) (tenant_id token_id : Text)
      → ((s : Store w.redis.Cache) → P s → IsVaulted w tenant_id token_id pan s)
      → (found : Option Token) (own : scope.tenant tenant_id) → IsActive found
      → Ensures w scope changes P Fault
          (OnGo Fault (IsPan pan))
          (reveal-Runs w cfg scope changes ctx tenant_id token_id found own).code
  unfolding reveal-Runs
  reveal-Ensures ctx tenant_id token_id vaulted none own active = elim active [ ]
  reveal-Ensures ctx tenant_id token_id vaulted (some t) own active =
      Ensures-bind w scope changes P Fault (λ u. Unit) (IsPan pan) _ _
        (Ensures-require w scope changes P Fault _ _ (λ h. omega (arith, h))
          λ off. ground (arith, active))
        λ u called.
          Ensures-bind w scope changes P Fault (λ x. x ≡ pan) (IsPan pan) _ _
            (Ensures-or_reply w scope changes P Fault (λ x. x ≡ pan) _ _ (λ h. omega (arith, h))
              (decrypt_pan-Ensures w cfg scope changes P Fault faults tenant_id token_id pan
                vaulted))
            λ x e.
              Ensures-bind w scope changes P Fault (λ u. Unit) (IsPan pan) _ _
                (Ensures-called w scope changes P Fault _)
                λ u v.
                  Ensures-bind w scope changes P Fault (λ u. Unit) (IsPan pan) _ _
                    (Ensures-called w scope changes P Fault _)
                    λ u v. Ensures-pure w scope changes P Fault (IsPan pan) _ (rw e refl)

  token-IsActive :
      (tenant_id token_id : Text) (s : Store w.redis.Cache)
      → IsVaulted w tenant_id token_id pan s
      → IsActive (find (has_token_id tenant_id token_id) s.tokens)
  token-IsActive tenant_id token_id s v = rw v.found v.active

  vaulted_at :
      (tenant_id token_id a b : Text)
      → a ≡ tenant_id
      → b ≡ token_id
      → ((s : Store w.redis.Cache) → P s → IsVaulted w tenant_id token_id pan s)
      → (s : Store w.redis.Cache) → P s
      → IsVaulted w a b pan s
  vaulted_at tenant_id token_id a b e e' vaulted s p = rw (e, e') (vaulted s p)

  -- In the tenant's name, detokenize for the token answers with the PAN, or not with 200 after a fault,
  -- whatever others do that keeps the token vaulted.
  pub detokenize-Ensures :
      (ctx : Context) (tenant_id token_id : Text) (owns : OwnTenant w cfg scope changes ctx)
      → ((s : Store w.redis.Cache) → P s → IsVaulted w tenant_id token_id pan s)
      → (ctx.tenant ≡ none → Fault)
      → ((t : Tenant) → ctx.tenant ≡ some t → t.tenant_id ≡ tenant_id)
      → Ensures w scope changes P Fault
          (OnGo Fault (IsPan pan))
          (detokenize-Runs w cfg scope changes ctx (some token_id) owns).code
  unfolding detokenize-Runs Repository.Tokens.find_by_token_id
  detokenize-Ensures ctx tenant_id token_id owns vaulted known same =
      Ensures-bind_present w scope changes P Fault (IsPan pan) _ _ _ _ (λ h. omega (arith, h)) known
        λ t has.
          Ensures-bind w scope changes P Fault (λ id. id ≡ token_id) (IsPan pan) _ _
            (Ensures-present w scope changes P Fault _ _ _ (λ h. omega (arith, h))
              (λ missing. absurd (cc)) λ id e. cc)
            λ id is.
              let here : (s : Store w.redis.Cache) → P s → IsVaulted w t.tenant_id id pan s =
                vaulted_at tenant_id token_id t.tenant_id id (same t has) is vaulted in
              Ensures-bind w scope changes P Fault IsActive (IsPan pan) _ _
                (Ensures-or_reply w scope changes P Fault IsActive _ _ (λ h. omega (arith, h))
                  (Ensures-query w cfg scope changes P Fault faults IsActive _
                    λ s p. token-IsActive t.tenant_id id s (here s p)))
                λ found active. reveal-Ensures ctx t.tenant_id id here found (owns t has) active
