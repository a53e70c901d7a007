-- ===== src/Vaulted/SingleUse.antt =====
-- A CVV token is revealed at most once.
use vaulty.Prelude.{
  true, none, some, [], ◌∷◌, ◌≡◌, ◌≢◌, ◌⊎◌, inl, inr, refl, sym, ◌∙◌, ap, Text, text, find, arith,
  Bool-cases,
}
use vaulty.Model.{Tenant}
use vaulty.Server.{Response, not_found, internal_error}
use vaulty.World.{World, RedisLaws, Reply}
use vaulty.Store.{Store, tick, go, response_of, ◌>>=◌, respond}
use vaulty.Store.Invert.{bind-go, or_reply-go, pure-go, present-go, call-go}
use vaulty.Repository
use vaulty.Repository.Rows.{query}
use vaulty.Repository.Invert.{query-some}
use vaulty.Repository.Tokens.{has_token_id}
use vaulty.Auth.{Context}
use vaulty.Cvv.{cvv_token_key, retrieve_cvv_token, read_reply}
use vaulty.Vaulted.Logged.{log-Same}
use vaulty.Handler.Detokenize.{detokenize, reveal, reveal_cvv, answer_cvv, retrieve_cvv, open_cvv}

module _ (w : World) (laws : RedisLaws w.redis) (tenant_id token_id : Text) where
  -- The token is in no table, and its key is not live in Redis.
  abbrev IsGone : Store w.redis.Cache → Type 0
  IsGone s =
      (find (has_token_id tenant_id token_id) s.tokens ≡ none)
      × (laws.live s.cache (cvv_token_key tenant_id token_id) ≡ none)

  opened_gone :
      (key : Text) (c : w.redis.Cache) (r : Reply)
      → (w.redis.get_del key c).0 ≡ r
      → laws.live c key ≡ none
      → open_cvv w (read_reply r) ≡ []
  unfolding open_cvv
  opened_gone key c (Reply.value v) h gone =
      let (there, _) = laws.get_del_value key v c h in absurd (ground arith)
  opened_gone key c Reply.nil h gone = refl
  opened_gone key c Reply.fault h gone = refl

  retrieved_gone :
      (s : Store w.redis.Cache) → IsGone s → (retrieve_cvv w tenant_id token_id s).0 ≡ []
  unfolding retrieve_cvv retrieve_cvv_token
  retrieved_gone s (_, gone) = opened_gone _ s.cache _ refl gone

  reveal_cvv_gone :
      (ctx : Context) (s : Store w.redis.Cache)
      → IsGone s
      → response_of (reveal_cvv w ctx tenant_id token_id s).0
        ≡ not_found
            (text "TOKEN_NOT_FOUND")
            (text "Token not found, expired, or consumed")
            ctx.correlation_id
  unfolding reveal_cvv ◌>>=◌ answer_cvv
  reveal_cvv_gone ctx s gone = rw (retrieved_gone s gone) refl

  detokenize_gone :
      (ctx : Context) (tenant : Tenant) (s : Store w.redis.Cache)
      → ctx.tenant ≡ some tenant
      → tenant.tenant_id ≡ tenant_id
      → IsGone s
      → let answer = response_of (detokenize w ctx (some token_id) s).0 in
        (answer
          ≡ not_found
              (text "TOKEN_NOT_FOUND")
              (text "Token not found, expired, or consumed")
              ctx.correlation_id)
        ⊎ (answer ≡ internal_error ctx.correlation_id) × (w.db_fails s.calls ≡ true)
  unfolding detokenize ◌>>=◌ Repository.Tokens.find_by_token_id query reveal
  detokenize_gone ctx tenant s has same gone = elim (Bool-cases (w.db_fails s.calls)) [
    | inl down ↦ inr (ground arith, down)
    | inr up ↦ inl (ground (arith, gone.0, reveal_cvv_gone ctx (tick s) gone))
  ]

  -- A reply with a value has taken the key away.
  retrieved_then_gone :
      (s : Store w.redis.Cache) (r : Reply)
      → (w.redis.get_del (cvv_token_key tenant_id token_id) s.cache).0 ≡ r
      → open_cvv w (read_reply r) ≢ []
      → laws.live
          (w.redis.get_del (cvv_token_key tenant_id token_id) s.cache).1
          (cvv_token_key tenant_id token_id)
        ≡ none
  unfolding open_cvv
  retrieved_then_gone s (Reply.value v) h some_cvv = (laws.get_del_value _ v s.cache h).1
  retrieved_then_gone s Reply.nil h some_cvv = absurd (some_cvv refl)
  retrieved_then_gone s Reply.fault h some_cvv = absurd (some_cvv refl)

  answered_then_gone :
      (ctx : Context) (cvv : Text) (s : Store w.redis.Cache) {r : Response}
      {t : Store w.redis.Cache}
      → answer_cvv w ctx tenant_id token_id cvv s ≡ (go r, t)
      → (cvv ≢ []) × (t.tokens ≡ s.tokens) × (t.cache ≡ s.cache)
  unfolding answer_cvv respond
  answered_then_gone ctx [] s h = absurd (ground arith)
  answered_then_gone ctx (c ∷ cs) s h = bind-go _ _ s h λ u s₁ logged h₁.
      let stays = (pure-go _ s₁ h₁).1 in
      let l = call-go _ s logged in
      rw (← stays, ← ap (λ x. x.1) l) (λ e. ground arith, (log-Same w _ s).0, (log-Same w _ s).2)

  revealed_then-IsGone :
      (ctx : Context) (s : Store w.redis.Cache) {r : Response} {t : Store w.redis.Cache}
      → find (has_token_id tenant_id token_id) s.tokens ≡ none
      → reveal_cvv w ctx tenant_id token_id s ≡ (go r, t)
      → IsGone t
  unfolding reveal_cvv retrieve_cvv retrieve_cvv_token
  revealed_then-IsGone ctx s unknown h = bind-go _ _ s h λ cvv s₁ got h₁.
      let l = call-go _ s got in
      let (named, tokens, cache) = answered_then_gone ctx cvv s₁ h₁ in
      let e = ap (λ x. x.0) l in
      let e₁ = ap (λ x. x.1) l in
      rw (tokens, cache, ← e₁)
        (unknown, retrieved_then_gone s _ refl (λ empty. named (sym e ∙ empty)))

  detokenized_then-IsGone :
      (ctx : Context) (tenant : Tenant) (s : Store w.redis.Cache) {r : Response}
      {t : Store w.redis.Cache}
      → ctx.tenant ≡ some tenant
      → tenant.tenant_id ≡ tenant_id
      → find (has_token_id tenant_id token_id) s.tokens ≡ none
      → detokenize w ctx (some token_id) s ≡ (go r, t)
      → IsGone t
  unfolding detokenize Repository.Tokens.find_by_token_id reveal
  detokenized_then-IsGone ctx tenant s {r} {t} has same unknown h =
      bind-go _ _ s h λ own s₁ given h₁.
        let (e, stays) = present-go _ _ s given in
        let q : own.tenant_id ≡ tenant_id =
          (let p : own ≡ tenant = cc in ap (λ (x : Tenant). x.tenant_id) p ∙ same) in
        bind-go _ _ s₁ h₁ λ id s₂ decoded h₂.
          let (e₂, stays₂) = present-go _ _ s₁ decoded in
          let q₂ : id ≡ token_id = cc in
          bind-go _ _ s₂ h₂ λ found s₃ looked h₃.
            let (row, ticked) = query-some w _ s₂ (or_reply-go _ _ s₂ looked) in
            let none_found : find (has_token_id tenant_id token_id) s₂.tokens ≡ none =
              rw (← stays₂, ← stays) unknown in
            let f : found ≡ none = (sym row) ∙ rw (q, q₂) none_found in
            revealed_then-IsGone ctx s₃ (rw ticked none_found) (rw (f, q, q₂) at h₃)

-- If detokenize ran to its end, no error written, for a token that is no PAN token of the tenant, then
-- asked for that token again right after, for that tenant, it answers 404 TOKEN_NOT_FOUND, or 500 if
-- its search failed.
pub cvv_revealed_once :
    (w : World) (laws : RedisLaws w.redis) (ctx ctx' : Context) (tenant tenant' : Tenant)
    (token_id : Text) (s : Store w.redis.Cache) {r : Response} {t : Store w.redis.Cache}
    → ctx.tenant ≡ some tenant
    → ctx'.tenant ≡ some tenant'
    → tenant'.tenant_id ≡ tenant.tenant_id
    → find (has_token_id tenant.tenant_id token_id) s.tokens ≡ none
    → detokenize w ctx (some token_id) s ≡ (go r, t)
    → let answer = response_of (detokenize w ctx' (some token_id) t).0 in
      (answer
        ≡ not_found
            (text "TOKEN_NOT_FOUND")
            (text "Token not found, expired, or consumed")
            ctx'.correlation_id)
      ⊎ (answer ≡ internal_error ctx'.correlation_id) × (w.db_fails t.calls ≡ true)
cvv_revealed_once w laws ctx ctx' tenant tenant' token_id s {r} {t} has has' same unknown h =
    detokenize_gone w laws tenant.tenant_id token_id ctx' tenant' t has' same
      (detokenized_then-IsGone w laws tenant.tenant_id token_id ctx tenant s has refl unknown h)
