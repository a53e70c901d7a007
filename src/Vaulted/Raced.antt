-- ===== src/Vaulted/Raced.antt =====
-- Two first tokenizations of one PAN at once: the one that stores its token last.
use vaulty.Prelude.{
  ap, inl, inr, Option, some, ◌+◌, true, none, ◌≡◌, ◌⊎◌, refl, Text, text, List, [], ◌∷◌, any,
  arith,
}
use vaulty.Model.{Token, Tenant}
use vaulty.Server.{Response, internal_error, service_unavailable}
use vaulty.World.{World}
use vaulty.Store.{
  go, or_reply, Action, Handler, continue, unless_error, Store, Outcome, reply, ◌>>=◌, chain,
  succeed,
}
use vaulty.Repository
use vaulty.Repository.Rows.{exec}
use vaulty.Repository.Tokens.{has_blind_index, token_clashes, token_allowed}
use vaulty.Auth.{Context}
use vaulty.Crypto
use vaulty.Handler.Tokenize.{
  TokenizeConfig, new_token, generate_token_id, encrypt_pan, create_pan_token, reuse_or_create,
}

blind_index_clashes :
    (t : Token) (us : List Token)
    → any (has_blind_index t.tenant_id t.pan_blind_index) us ≡ true
    → any (token_clashes t) us ≡ true
blind_index_clashes t [] h = cc
blind_index_clashes t (u ∷ us) h = ground (arith, blind_index_clashes t us)

create_refused :
    (w : World) (t : Token) (s : Store w.redis.Cache)
    → any (has_blind_index t.tenant_id t.pan_blind_index) s.tokens ≡ true
    → Repository.Tokens.create w t s ≡ (none, record s { calls = s.calls + 1 })
unfolding Repository.Tokens.create exec
create_refused w t s h = ground (arith, blind_index_clashes t s.tokens h)

module _ (w : World) (cfg : TokenizeConfig) (ctx : Context) (tenant : Tenant) where
  abbrev Cache : Type 0
  Cache = w.redis.Cache

  -- An answer with 500, or with 503 for the encryption, and no new token or entry.
  abbrev HasFailed : {A : Type 0} → Store Cache → Outcome A × Store Cache → Type 0
  HasFailed {A} s (o, t) =
      ((o ≡ reply (internal_error ctx.correlation_id))
        ⊎ (o
            ≡ reply
                (service_unavailable (text "Encryption service unavailable") ctx.correlation_id)))
      × (t.tokens ≡ s.tokens)
      × (t.vault_entries ≡ s.vault_entries)

  -- External calls were made, and nothing else.
  abbrev Called : Store Cache → Store Cache → Type 0
  Called s t = (t.tokens ≡ s.tokens) × (t.vault_entries ≡ s.vault_entries)

  token_id-Called : (s : Store Cache) → Called s (generate_token_id w cfg s).1
  unfolding generate_token_id
  token_id-Called s = ground arith

  encrypt_pan-Called :
      (pan arn : Text) (s t : Store Cache) → Called s t → Called s (encrypt_pan w cfg pan arn t).1
  unfolding encrypt_pan chain succeed Crypto.generate_data_key_with_arn Crypto.encrypt_with_dek
  encrypt_pan-Called pan arn s t h = ground arith

  module _ {A B : Type 0} where
    or_reply-HasFailed :
        (m : Action Cache (Option A)) (r : Response) (f : A → Handler Cache B) (s t : Store Cache)
        → (r ≡ internal_error ctx.correlation_id)
          ⊎ (r ≡ service_unavailable (text "Encryption service unavailable") ctx.correlation_id)
        → Called s (m t).1
        → ((a : A) → Called s (m t).1 → HasFailed s (f a (m t).1))
        → HasFailed s ((or_reply m r >>= f) t)
    unfolding ◌>>=◌ or_reply
    or_reply-HasFailed m r f s t is kept rest = on (m t) kept rest
      where
        on :
            (x : Option A × Store Cache)
            → Called s x.1
            → ((a : A) → Called s x.1 → HasFailed s (f a x.1))
            → HasFailed s (continue f (unless_error r x))
        on (none, u) (same, same') k =
            (elim is [ inl e ↦ inl (ap reply e) | inr e ↦ inr (ap reply e) ], same, same')
        on (some a, u) same k = k a same

    bind-HasFailed :
        (m : Handler Cache A) (f : A → Handler Cache B) (s t : Store Cache)
        → HasFailed s (m t)
        → HasFailed s ((m >>= f) t)
    unfolding ◌>>=◌
    bind-HasFailed m f s t h = on (m t) h
      where
        on : (x : Outcome A × Store Cache) → HasFailed s x → HasFailed s (continue f x)
        on (go a, u) (inl e, same, same') = absurd (cc)
        on (go a, u) (inr e, same, same') = absurd (cc)
        on (reply r, u) (inl e, same, same') = (inl (cc), same, same')
        on (reply r, u) (inr e, same, same') = (inr (cc), same, same')

  create-HasFailed :
      {B : Type 0} (t : Token) (f : Unit {0} → Handler Cache B) (s u : Store Cache)
      → any (has_blind_index t.tenant_id t.pan_blind_index) s.tokens ≡ true
      → Called s u
      → HasFailed s
          ((or_reply (Repository.Tokens.create w t) (internal_error ctx.correlation_id) >>= f) u)
  unfolding ◌>>=◌ or_reply
  create-HasFailed t f s u stored (same, same') =
      rw (create_refused w t u (rw same stored)) ((inl refl), same, same')

  create_pan_token-HasFailed :
      (pan index : Text) (s : Store Cache)
      → any (has_blind_index tenant.tenant_id index) s.tokens ≡ true
      → HasFailed s (create_pan_token w cfg ctx tenant pan index s)
  unfolding create_pan_token
  create_pan_token-HasFailed pan index s stored =
      or_reply-HasFailed _ _ _ s s (inl refl) (token_id-Called s) λ id called.
        or_reply-HasFailed _ _ _ s _ (inr refl)
          (encrypt_pan-Called pan tenant.kms_key_arn s _ called)
          λ sealed done. create-HasFailed (new_token w cfg tenant index id) _ s _ stored done

  -- What follows a search of tokenize that found no token, in a store that has a token of the tenant
  -- with the PAN's blind index by then, answers 500, or 503 if the encryption fails, and stores no
  -- token and no entry.
  pub raced_tokenize_fails :
      (pan index : Text) (s : Store w.redis.Cache)
      → any (has_blind_index tenant.tenant_id index) s.tokens ≡ true
      → let (o, t) = reuse_or_create w cfg ctx tenant pan index none s in
        ((o ≡ reply (internal_error ctx.correlation_id))
          ⊎ (o
              ≡ reply
                  (service_unavailable (text "Encryption service unavailable") ctx.correlation_id)))
        × (t.tokens ≡ s.tokens)
        × (t.vault_entries ≡ s.vault_entries)
  unfolding reuse_or_create
  raced_tokenize_fails pan index s stored =
      bind-HasFailed (create_pan_token w cfg ctx tenant pan index) _ s s
        (create_pan_token-HasFailed pan index s stored)
