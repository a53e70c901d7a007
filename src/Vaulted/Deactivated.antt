-- ===== src/Vaulted/Deactivated.antt =====
-- A deactivated token stays deactivated through every call, and is not revealed.
use vaulty.Prelude.{
  true, some, List, ◌≡◌, ◌⊎◌, inl, inr, refl, ◌∙◌, ap, Text, text, find, find_sound, update,
  find-append_some, if◌then◌else◌, arith, Bool-cases,
}
use vaulty.Model.{Token, TokenStatus, Tenant}
use vaulty.Server.{Response, not_found, internal_error}
use vaulty.World.{World}
use vaulty.Store.{Store, tick, go, response_of, ◌>>=◌}
use vaulty.Store.Keeps.{Keeps}
use vaulty.Store.Invert.{bind-go, or_reply-go, pure-go, present-go, call-go}
use vaulty.Repository
use vaulty.Repository.Rows.{query}
use vaulty.Repository.Keeps.{Keeps-exec}
use vaulty.Repository.Invert.{exec-some, query-some}
use vaulty.Repository.Tokens.{has_token_id}
use vaulty.Auth.{Context, Request}
use vaulty.Handler.Health.{Pings}
use vaulty.Handler.Tokenize.{TokenizeConfig}
use vaulty.Handler.Detokenize.{detokenize, reveal, reveal_pan}
use vaulty.Handler
use vaulty.Handler.Keeps.{KeptBy, log-Keeps}
use vaulty.Routes.{Call}
use vaulty.Routes.Keeps.{serve_all, serve_all-Keeps, Anyone, AllAllow-Anyone}
use vaulty.Vaulted.Durable.{changed, find-update}

-- The tenant has a token of that id, and it is inactive.
abbrev pub IsDeactivated : {C : Type 0} → Text → Text → Store C → Type 0
IsDeactivated tenant_id token_id s =
    (t : Token) × (find (has_token_id tenant_id token_id) s.tokens ≡ some t)
    × (t.status ≡ TokenStatus.inactive)

-- A change that leaves ids and inactive tokens' statuses alone.
module _ (w : World) (tenant_id token_id : Text) where
  abbrev Inactive : Store w.redis.Cache → Type 0
  Inactive = IsDeactivated tenant_id token_id

  failed : (s : Store w.redis.Cache) → Inactive s → Inactive (tick s)
  failed s v = v

  changed-Inactive :
      (a b : Text) (f : Token → Token) (s : Store w.redis.Cache)
      → ((t : Token) → has_token_id tenant_id token_id (f t) ≡ has_token_id tenant_id token_id t)
      → ((t : Token) → t.status ≡ TokenStatus.inactive → (f t).status ≡ TokenStatus.inactive)
      → Inactive s
      → Inactive (record s { tokens = update (has_token_id a b) f s.tokens })
  changed-Inactive a b f s same stays (t, found, h) = (
    if has_token_id a b t then f t else t,
    find-update (has_token_id tenant_id token_id) (has_token_id a b) f s.tokens same
        ∙ ap (changed (has_token_id a b) f) found,
    elim (Bool-cases (has_token_id a b t)) [ inl it ↦ rw it (stays t h) | inr other ↦ rw other h ],
  )

  update_status-Keeps :
      (a b : Text) → Keeps Inactive (Repository.Tokens.update_status w a b TokenStatus.inactive)
  unfolding Repository.Tokens.update_status
  update_status-Keeps a b = Keeps-exec w _ failed _ _ λ s _ v.
      changed-Inactive a b
        (λ t. record t { status = TokenStatus.inactive; updated_at = w.now s.calls }) s (λ t. refl)
        (λ t h. refl) v

  Inactive-KeptBy : KeptBy w Anyone Inactive
  unfolding Repository.Tokens.create Repository.Tokens.update_last_used
      Repository.VaultEntries.create Repository.AuditLog.append Repository.Tenants.create
      Repository.Tenants.update_status
  Inactive-KeptBy = record {
    insert_token = λ t own.
        Keeps-exec w _ failed _ _
          λ s _ v. (v.0, find-append_some (has_token_id tenant_id token_id) s.tokens _ v.1, v.2);
    touch_token = λ a b own. Keeps-exec w _ failed _ _ λ s _ v.
        changed-Inactive a b
          (λ t. record t { last_used_at = some (w.now s.calls); updated_at = w.now s.calls }) s
          (λ t. refl) (λ t h. h) v;
    insert_entry = λ e own. Keeps-exec w _ failed _ _ (λ s _ v. v);
    append_audit = λ a b o t actor own. Keeps-exec w _ failed _ _ (λ s _ v. v);
    insert_tenant = λ t admin. Keeps-exec w _ failed _ _ (λ s _ v. v);
    set_tenant_status = λ a admin. Keeps-exec w _ failed _ _ (λ s _ v. v);
    cache_command = λ s c v. v;
    external_call = failed;
  }

  -- What detokenize makes of a deactivated token.
  detokenize-Inactive :
      (ctx : Context) (tenant : Tenant) (s : Store w.redis.Cache)
      → ctx.tenant ≡ some tenant
      → tenant.tenant_id ≡ tenant_id
      → Inactive s
      → let answer = response_of (detokenize w ctx (some token_id) s).0 in
        (answer ≡ not_found (text "TOKEN_INACTIVE") (text "Token is inactive") ctx.correlation_id)
        ⊎ (answer ≡ internal_error ctx.correlation_id) × (w.db_fails s.calls ≡ true)
  unfolding detokenize ◌>>=◌ Repository.Tokens.find_by_token_id query reveal reveal_pan
  detokenize-Inactive ctx tenant s has same (t, found, h) = elim (Bool-cases (w.db_fails s.calls)) [
    | inl down ↦ inr (ground arith, down)
    | inr up ↦ inl (ground (arith, found))
  ]

  -- Where the token was found and the change of status ran.
  updated-Inactive :
      (token : Token) (s : Store w.redis.Cache) {u : Unit {0}} {t : Store w.redis.Cache}
      → find (has_token_id tenant_id token_id) s.tokens ≡ some token
      → Repository.Tokens.update_status w tenant_id token_id TokenStatus.inactive s ≡ (some u, t)
      → Inactive t
  unfolding Repository.Tokens.update_status
  updated-Inactive token s found h =
      let (_, same) = exec-some w _ _ s h in
      let f : Token → Token =
        λ a. record a { status = TokenStatus.inactive; updated_at = w.now s.calls } in
      rw same (
        f token,
        find-update (has_token_id tenant_id token_id) (has_token_id tenant_id token_id) f s.tokens
              (λ a. refl)
            ∙ ap (changed (has_token_id tenant_id token_id) f) found
            ∙ rw (find_sound (has_token_id tenant_id token_id) s.tokens found) refl,
        refl,
      )

module _ (w : World) (cfg : TokenizeConfig) (ctx : Context) (tenant : Tenant)
    (token_id : Text) where
  deactivate-Inactive :
      (s : Store w.redis.Cache) {r : Response} {t : Store w.redis.Cache}
      → ctx.tenant ≡ some tenant
      → Handler.TokenManage.deactivate w ctx token_id s ≡ (go r, t)
      → IsDeactivated tenant.tenant_id token_id t
  unfolding Handler.TokenManage.deactivate Repository.Tokens.find_by_token_id
  deactivate-Inactive s {r} {t} has h = bind-go _ _ s h λ own s₁ given h₁.
      let e : own ≡ tenant = (let (same, _) = present-go _ _ s given in cc) in
      bind-go _ _ s₁ h₁ λ found s₂ looked h₂. bind-go _ _ s₂ h₂ λ token s₃ there h₃.
        bind-go _ _ s₃ h₃ λ u s₄ updated h₄. bind-go _ _ s₄ h₄ λ v s₅ logged h₅.
          let (row, ticked) = query-some w _ s₁ (or_reply-go _ _ s₁ looked) in
          let (is, stays) = present-go _ _ s₂ there in
          let q : find (has_token_id own.tenant_id token_id) s₃.tokens ≡ some token =
            rw (← stays, ticked) (row ∙ is) in
          let changed_now : IsDeactivated own.tenant_id token_id s₄ =
            updated-Inactive w own.tenant_id token_id token s₃ q (or_reply-go _ _ s₃ updated) in
          let kept : IsDeactivated own.tenant_id token_id s₅ =
            rw (← ap (λ x. x.1) (call-go _ s₄ logged)) (
              (log-Keeps w cfg Anyone _ (Inactive-KeptBy w own.tenant_id token_id) _ _ _ _ _ tt).at
                s₄ changed_now) in
          rw (← (pure-go _ s₅ h₅).1, ← e) kept

-- After a deactivation that ran to its end, and after any further calls to the service, detokenize
-- for that tenant answers 404 TOKEN_INACTIVE, or 500 if its search failed. No call makes the token
-- active again, the tokenization of the same PAN included.
pub deactivate_then_detokenize :
    (w : World) (cfg : TokenizeConfig) (pings : Pings) (ctx : Context) (tenant : Tenant)
    (token_id : Text) (s : Store w.redis.Cache) {r : Response} {t : Store w.redis.Cache}
    → ctx.tenant ≡ some tenant
    → Handler.TokenManage.deactivate w ctx token_id s ≡ (go r, t)
    → (calls : List (Call × Request)) (ctx' : Context) (tenant' : Tenant)
    → ctx'.tenant ≡ some tenant'
    → tenant'.tenant_id ≡ tenant.tenant_id
    → let later = serve_all w cfg pings calls t in
      let answer = response_of (detokenize w ctx' (some token_id) later).0 in
      (answer ≡ not_found (text "TOKEN_INACTIVE") (text "Token is inactive") ctx'.correlation_id)
      ⊎ (answer ≡ internal_error ctx'.correlation_id) × (w.db_fails later.calls ≡ true)
deactivate_then_detokenize w cfg pings ctx tenant token_id s {r} {t} has h calls ctx' tenant' has'
      same =
    detokenize-Inactive w tenant.tenant_id token_id ctx' tenant' (serve_all w cfg pings calls t)
      has' same
      (serve_all-Keeps w Anyone _ cfg pings (Inactive-KeptBy w tenant.tenant_id token_id) calls t
        (AllAllow-Anyone w _ (update_status-Keeps w tenant.tenant_id token_id) calls)
        (deactivate-Inactive w cfg ctx tenant token_id s has h))
