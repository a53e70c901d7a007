-- ===== src/Contract/Rejected.antt =====
-- Which answers of POST /vault/tokenize leave no trace.
use vaulty.Prelude.{
  ◌&&◌, [], Bool, true, false, Option, none, some, ◌≡◌, ◌≢◌, refl, sym, ◌∙◌, ap, Text, is_some,
  if◌then◌else◌, arith,
}
use vaulty.Json.{put, str, Json, Fields, lookup}
use vaulty.Server.{Response, Body}
use vaulty.World.{World}
use vaulty.Store.{Store, Outcome, go, reply, ◌>>=◌, pure, response_of}
use vaulty.Store.Invert.{bind-go}
use vaulty.Store.Traceless.{
  NoTrace, Late, Traceless, Late-or_reply, Late-call, Late-pure, IsLate-NoTrace, Late-bind,
  Traceless-bind, Traceless-present, Traceless-require,
}
use vaulty.Auth.{Context}
use vaulty.Model.{Tenant, Token}
use vaulty.Handler.Tokenize.{
  TokenizeConfig, tokenize, process_pan, process_cvv, token_of_pan, reuse_or_create,
  create_pan_token, pan_key, cvv_field,
}

module _ (w : World) (cfg : TokenizeConfig) (ctx : Context) (tenant : Tenant) where
  create_pan_token-IsLate : (pan index : Text) → Late (create_pan_token w cfg ctx tenant pan index)
  unfolding create_pan_token
  create_pan_token-IsLate pan index =
      Late-bind _ _ (Late-or_reply _ _ (λ e. omega (arith, e))) λ token_id.
        Late-bind _ _ (Late-or_reply _ _ (λ e. omega (arith, e))) λ sealed.
          Late-bind _ _ (Late-or_reply _ _ (λ e. omega (arith, e))) λ inserted.
            Late-bind _ _ (Late-or_reply _ _ (λ e. omega (arith, e))) λ stored. Late-pure token_id

  reuse_or_create-IsLate :
      (pan index : Text) (found : Option Token)
      → Late (reuse_or_create w cfg ctx tenant pan index found)
  unfolding reuse_or_create
  reuse_or_create-IsLate pan index (some t) = Late-pure (t.token_id, false)
  reuse_or_create-IsLate pan index none =
      Late-bind _ _ (create_pan_token-IsLate pan index) λ token_id. Late-pure (token_id, true)

  token_of_pan-IsLate : (pan : Text) → Late (token_of_pan w cfg ctx tenant pan)
  unfolding token_of_pan
  token_of_pan-IsLate pan =
      Late-bind _ _ (Late-or_reply _ _ (λ e. omega (arith, e)))
        λ existing. reuse_or_create-IsLate pan _ existing

  process_pan-Traceless :
      (body : Fields) (value : Option Json) → Traceless (process_pan w cfg ctx tenant body value)
  unfolding process_pan pure
  process_pan-Traceless body none s = tt
  process_pan-Traceless body (some value) s =
      Traceless-present _ _ _
        (λ pan given. Traceless-require _ _ _ λ s'. IsLate-NoTrace s' _ (
          Late-bind _ _ (token_of_pan-IsLate pan)
            (λ found. Late-bind _ _ (Late-call _) λ logged.
              Late-pure {A = Text × Bool × Fields}
                (found.0, found.1, put pan_key (str found.0) body))
            s'))
        s

  process_cvv-Traceless :
      (pan_token_id : Text) (body : Fields) (value : Option Json)
      → Traceless (process_cvv w cfg ctx tenant pan_token_id body value)
  unfolding process_cvv pure
  process_cvv-Traceless pan_token_id body none s = tt
  process_cvv-Traceless pan_token_id body (some value) s =
      Traceless-present _ _ _
        (λ cvv given. Traceless-require _ _ _ λ s'. IsLate-NoTrace s' _ (
          Late-bind _ _ (Late-or_reply _ _ (λ e. omega (arith, e)))
            (λ cvv_token_id. Late-bind _ _ (Late-or_reply _ _ (λ e. omega (arith, e))) λ stored.
              Late-bind _ _ (Late-call _) λ invalidated.
                Late-bind _ _ (Late-call _)
                  λ logged. Late-pure (put cvv_field (str cvv_token_id) body))
            s'))
        s

  without_cvv-IsLate :
      (pan_token_id : Text) (body : Fields)
      → Late (process_cvv w cfg ctx tenant pan_token_id body none)
  unfolding process_cvv pure
  without_cvv-IsLate pan_token_id body s = tt

-- Whether a request asks for both tokens at once.
abbrev pub has_both : Option Fields → Bool
has_both none = false
has_both (some body) = is_some (lookup pan_key body) && is_some (lookup cvv_field body)

module _ (w : World) (cfg : TokenizeConfig) (ctx : Context) where
  abbrev echoed : Text × Bool × Fields → Fields → Response
  echoed p body = record { status = if p.1 then 201 else 200; body = Body.echo body }

  parts-Traceless :
      (tenant : Tenant) (body : Fields) (pan cvv : Option Json)
      → is_some pan && is_some cvv ≡ false
      → Traceless (
          process_pan w cfg ctx tenant body pan >>= λ p.
          process_cvv w cfg ctx tenant p.0 p.2 cvv >>= λ b. pure (echoed p b))
  unfolding ◌>>=◌ process_pan
  parts-Traceless tenant body none cvv h s =
      Traceless-bind _ _ (process_cvv-Traceless w cfg ctx tenant [] body cvv)
        (λ b. Late-pure (echoed ([], false, body) b)) s
  parts-Traceless tenant body (some value) none h s =
      Traceless-bind _ _ (process_pan-Traceless w cfg ctx tenant body (some value))
        (λ p.
          Late-bind _ _ (without_cvv-IsLate w cfg ctx tenant p.0 p.2) λ b. Late-pure (echoed p b))
        s
  parts-Traceless tenant body (some value) (some v) h s = absurd (ground arith)

  tokenize-Traceless :
      (decoded : Option Fields) → has_both decoded ≡ false → Traceless (tokenize w cfg ctx decoded)
  unfolding tokenize
  tokenize-Traceless decoded h = Traceless-present _ _ _ λ body given. Traceless-require _ _ _ (
      Traceless-present _ _ _ λ tenant known.
        parts-Traceless tenant body (lookup pan_key body) (lookup cvv_field body)
          (sym (ap has_both given) ∙ h))

  -- An answer at the end of the handler is 200 or 201.
  tokenize-go :
      (decoded : Option Fields) (s : Store w.redis.Cache) {r : Response} {t : Store w.redis.Cache}
      → tokenize w cfg ctx decoded s ≡ (go r, t)
      → r.status ≢ 400
  unfolding tokenize pure
  tokenize-go decoded s h = bind-go _ _ _ h λ body _ _ h. bind-go _ _ _ h λ _ _ _ h.
      bind-go _ _ _ h
        λ tenant _ _ h. bind-go _ _ _ h λ pan _ _ h. bind-go _ _ _ h λ b _ _ h. λ bad. ground arith

  ended-NoTrace :
      (s : Store w.redis.Cache) (x : Outcome Response × Store w.redis.Cache)
      → ((r : Response) (t : Store w.redis.Cache) → x ≡ (go r, t) → r.status ≢ 400)
      → NoTrace s x
      → (response_of x.0).status ≡ 400
      → x.1 ≡ s
  ended-NoTrace s (go r, t) late h bad = absurd (late r t refl bad)
  ended-NoTrace s (reply r, t) late h bad = h bad

  -- A tokenize that does not ask for both tokens at once and is answered with 400 has left the whole
  -- store as it was and called nothing.
  pub tokenize-rejects :
      (decoded : Option Fields) (s : Store w.redis.Cache)
      → has_both decoded ≡ false
      → (response_of (tokenize w cfg ctx decoded s).0).status ≡ 400
      → (tokenize w cfg ctx decoded s).1 ≡ s
  tokenize-rejects decoded s h bad =
      ended-NoTrace s (tokenize w cfg ctx decoded s) (λ r t. tokenize-go decoded s)
        (tokenize-Traceless decoded h s) bad
