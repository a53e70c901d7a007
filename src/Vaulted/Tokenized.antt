-- ===== src/Vaulted/Tokenized.antt =====
-- From a 201 answer of POST /vault/tokenize to the PAN that POST /internal/detokenize answers later.
use vaulty.Prelude.{
  ℕ, Bool, true, false, Option, none, some, [], ◌∷◌, ◌≡◌, refl, sym, ◌∙◌, ap, Text, text_eq,
  text_eq_ne, arith,
}
use vaulty.Json.{Json, str, Fields, lookup, put}
use vaulty.Json.Maps.{lookup-put, lookup-put_self}
use vaulty.Model.{Token, Tenant}
use vaulty.Server.{Response, Body}
use vaulty.World.{World, CryptoLaws}
use vaulty.Store.{Store, go, call, pure, ◌>>=◌}
use vaulty.Store.Invert.{bind-go, pure-go, present-go, call-go}
use vaulty.Auth.{Context}
use vaulty.Handler.Tokenize.{
  TokenizeConfig, pan_key, cvv_field, log_audit, reuse_or_create, token_of_pan, process_pan,
  process_cvv, tokenize,
}
use vaulty.Handler.Keeps.{log-Keeps}
use vaulty.Routes.Keeps.{Anyone}
use vaulty.Interleaving.Handlers.{process_cvv-Runs}
use vaulty.Interleaving.Keeps.{Program-Keeps}
use vaulty.Vaulted.{IsVaulted}
use vaulty.Vaulted.Durable.{IsVaulted-KeptBy}
use vaulty.Vaulted.Issue.{create_pan_token-IsVaulted}

head_of : Text → ℕ
head_of [] = 0
head_of (c ∷ cs) = c

fields_differ : text_eq cvv_field pan_key ≡ false
unfolding head_of
fields_differ = text_eq_ne cvv_field pan_key (λ h. omega (arith, ap head_of h))

module _ (w : World) (laws : CryptoLaws w) (cfg : TokenizeConfig) (ctx : Context)
    (tenant : Tenant) where
  reuse_or_create-IsVaulted :
      (pan index : Text) (found : Option Token) (s : Store w.redis.Cache) {r : Text × Bool}
      {t : Store w.redis.Cache}
      → reuse_or_create w cfg ctx tenant pan index found s ≡ (go r, t)
      → r.1 ≡ true
      → IsVaulted w tenant.tenant_id r.0 pan t
  unfolding reuse_or_create
  reuse_or_create-IsVaulted pan index (some u) s h new =
      let (same, _) = pure-go _ s h in absurd (ground arith)
  reuse_or_create-IsVaulted pan index none s h new = bind-go _ _ s h λ id s₁ made h₁.
      let (same, stays) = pure-go _ s₁ h₁ in
      rw (← same, ← stays) (create_pan_token-IsVaulted w laws cfg ctx tenant pan index s made)

  token_of_pan-IsVaulted :
      (pan : Text) (s : Store w.redis.Cache) {r : Text × Bool} {t : Store w.redis.Cache}
      → token_of_pan w cfg ctx tenant pan s ≡ (go r, t)
      → r.1 ≡ true
      → IsVaulted w tenant.tenant_id r.0 pan t
  unfolding token_of_pan
  token_of_pan-IsVaulted pan s h new =
      bind-go _ _ s h λ found s₁ _ h₁. reuse_or_create-IsVaulted pan _ found s₁ h₁ new

  -- Once the token is issued: the audit line, and the token in the body.
  issued-IsVaulted :
      (pan : Text) (body : Fields) (found : Text × Bool) (s : Store w.redis.Cache)
      {r : Text × Bool × Fields} {t : Store w.redis.Cache}
      → (call (log_audit w cfg ctx tenant.tenant_id found.0) >>= λ _.
            pure (found.0, found.1, put pan_key (str found.0) body))
          s
        ≡ (go r, t)
      → (found.1 ≡ true → IsVaulted w tenant.tenant_id found.0 pan s)
      → r.1 ≡ true
      → IsVaulted w tenant.tenant_id r.0 pan t × (lookup pan_key r.2 ≡ some (str r.0))
  issued-IsVaulted pan body found s {r} {t} h stored new = bind-go _ _ s h λ v s₁ logged h₁.
      let (same, stays) = pure-go _ s₁ h₁ in
      let q : found.1 ≡ true = ap (λ x. x.1) same ∙ new in
      let kept : IsVaulted w tenant.tenant_id found.0 pan s₁ =
        rw (← ap (λ x. x.1) (call-go _ s logged)) (
          (log-Keeps w cfg Anyone _ (IsVaulted-KeptBy w tenant.tenant_id found.0 pan) _ _ _ _ _
              tt).at
            s (stored q)) in
      rw (← same, ← stays) (kept, lookup-put_self pan_key (str found.0) body)

  process_pan-IsVaulted :
      (pan : Text) (body : Fields) (s : Store w.redis.Cache) {r : Text × Bool × Fields}
      {t : Store w.redis.Cache}
      → process_pan w cfg ctx tenant body (some (str pan)) s ≡ (go r, t)
      → r.1 ≡ true
      → IsVaulted w tenant.tenant_id r.0 pan t × (lookup pan_key r.2 ≡ some (str r.0))
  unfolding process_pan
  process_pan-IsVaulted pan body s h new = bind-go _ _ s h λ p s₁ taken h₁.
      let (same, stays) = present-go _ _ s taken in
      let e : p ≡ pan = cc in
      bind-go _ _ s₁ h₁ λ u s₂ valid h₂. bind-go _ _ s₂ h₂ λ found s₃ issued h₃.
        issued-IsVaulted pan body found s₃ h₃ (λ q. rw (← e) (token_of_pan-IsVaulted p s₂ issued q))
          new

  process_cvv-lookup :
      (pan_token_id : Text) (body : Fields) (v : Option Json) (s : Store w.redis.Cache) {r : Fields}
      {t : Store w.redis.Cache}
      → process_cvv w cfg ctx tenant pan_token_id body v s ≡ (go r, t)
      → lookup pan_key r ≡ lookup pan_key body
  unfolding process_cvv
  process_cvv-lookup id body none s h = rw (← (pure-go _ s h).0) refl
  process_cvv-lookup id body (some v) s h = bind-go _ _ s h λ cvv s₁ _ h₁.
      bind-go _ _ s₁ h₁ λ u s₂ _ h₂. bind-go _ _ s₂ h₂ λ token_id s₃ _ h₃.
        bind-go _ _ s₃ h₃ λ u s₄ _ h₄. bind-go _ _ s₄ h₄ λ u s₅ _ h₅. bind-go _ _ s₅ h₅ λ u s₆ _ h₆.
          rw (← (pure-go _ s₆ h₆).0)
            (ground (arith, lookup-put cvv_field pan_key (str token_id) body, fields_differ))

  process_cvv-IsVaulted :
      (pan pan_token_id : Text) (body : Fields) (v : Option Json) (s : Store w.redis.Cache)
      {r : Fields} {t : Store w.redis.Cache}
      → process_cvv w cfg ctx tenant pan_token_id body v s ≡ (go r, t)
      → IsVaulted w tenant.tenant_id pan_token_id pan s
      → IsVaulted w tenant.tenant_id pan_token_id pan t
  process_cvv-IsVaulted pan id body v s h stored = rw (← ap (λ x. x.1) h) (
      (Program-Keeps w Anyone (λ a b. ⊥) _ (IsVaulted-KeptBy w tenant.tenant_id id pan)
          (λ a b own never. absurd never)
          (process_cvv-Runs w cfg Anyone (λ a b. ⊥) ctx tenant id body v tt)).at
        s stored)

  -- A tokenize that answers 201 to a body with a PAN puts a token id in the PAN's place, and leaves
  -- the PAN vaulted under it.
  pub tokenize-IsVaulted :
      (pan : Text) (body : Fields) (s : Store w.redis.Cache) {r : Response}
      {t : Store w.redis.Cache}
      → ctx.tenant ≡ some tenant
      → lookup pan_key body ≡ some (str pan)
      → tokenize w cfg ctx (some body) s ≡ (go r, t)
      → r.status ≡ 201
      → (token_id : Text) × (echoed : Fields) × (r.body ≡ Body.echo echoed)
        × (lookup pan_key echoed ≡ some (str token_id))
        × IsVaulted w tenant.tenant_id token_id pan t
  unfolding tokenize
  tokenize-IsVaulted pan body s {r} {t} has given h created = bind-go _ _ s h λ b s₁ taken h₁.
      let e : b ≡ body = (let (same, _) = present-go _ _ s taken in cc) in
      bind-go _ _ s₁ h₁ λ u s₂ _ h₂. bind-go _ _ s₂ h₂ λ own s₃ found h₃.
        let e₂ : own ≡ tenant = (let (same, _) = present-go _ _ s₂ found in cc) in
        bind-go _ _ s₃ h₃ λ p s₄ issued h₄. bind-go _ _ s₄ h₄ λ b' s₅ done h₅.
          let issued' : process_pan w cfg ctx tenant body (some (str pan)) s₃ ≡ (go p, s₄) = cc in
          let done' : process_cvv w cfg ctx tenant p.0 p.2 (lookup cvv_field body) s₄
              ≡ (go b', s₅) =
            cc in
          let (same, stays) = pure-go _ s₅ h₅ in
          let new : p.1 ≡ true = ground (arith, created, ap (λ (x : Response). x.status) same) in
          let (stored, there) = process_pan-IsVaulted pan body s₃ issued' new in
          (
            p.0,
            b',
            ap (λ (x : Response). x.body) (sym same),
            process_cvv-lookup p.0 p.2 _ s₄ done' ∙ there,
            rw (← stays) (process_cvv-IsVaulted pan p.0 p.2 _ s₄ done' stored),
          )
