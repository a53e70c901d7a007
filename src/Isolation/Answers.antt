-- ===== src/Isolation/Answers.antt =====
-- The handlers of a tenant, in stores that it cannot tell apart.
use vaulty.Prelude.{ℕ, ◌+◌, some, none, Option, [], ◌∷◌, ◌≡◌, refl, ap, Text}
use vaulty.Model.{Token, VaultEntry, Tenant}
use vaulty.World.{World}
use vaulty.Store.{Store, tick}
use vaulty.Store.Agrees.{Agrees, agrees, Agrees-bind_present, Agrees-chain}
use vaulty.Crypto
use vaulty.Cvv
use vaulty.Auth.{Context}
use vaulty.Handler.Detokenize
use vaulty.Handler.TokenManage
use vaulty.Isolation.Reads.{
  Alike, ticked, find_token-Agrees, find_entry-Agrees, find_lines-Agrees, touch-Agrees,
  deactivate-Agrees, log-Agrees,
}

module _ (w : World) (a : Text) where
  unwrap-Agrees : (b : Text) → Agrees (Alike w a) (Crypto.unwrap_key w b)
  unfolding Crypto.unwrap_key
  unwrap-Agrees b = record { at = λ s u r. (ap (λ n. w.decrypt n b) r.calls, ticked w a s u r) }

  returned-Agrees : {A : Type 0} (x : A) → Agrees (Alike w a) (λ s. (x, s))
  returned-Agrees x = record { at = λ s u r. (refl, r) }

  decrypt_entry-Agrees : (e : Option VaultEntry) → Agrees (Alike w a) (Detokenize.decrypt_entry w e)
  unfolding Detokenize.decrypt_entry
  decrypt_entry-Agrees none = search agrees
  decrypt_entry-Agrees (some e) = Agrees-chain _ _ (unwrap-Agrees _) λ dek. returned-Agrees _

  decrypt_pan-Agrees : (id : Text) → Agrees (Alike w a) (Detokenize.decrypt_pan w a id)
  unfolding Detokenize.decrypt_pan
  decrypt_pan-Agrees id = Agrees-chain _ _ (find_entry-Agrees w a id) λ e. decrypt_entry-Agrees e

  with_cache :
      (f : w.redis.Cache → w.redis.Cache) (s u : Store w.redis.Cache)
      → Alike w a s u
      → Alike w a (tick (record s { cache = f s.cache })) (tick (record u { cache = f u.cache }))
  with_cache f s u r = record {
    tenants = r.tenants;
    rows = r.rows;
    cache = ap f r.cache;
    calls = ap (λ n. n + 1) r.calls;
  }

  retrieve_cvv-Agrees : (id : Text) → Agrees (Alike w a) (Detokenize.retrieve_cvv w a id)
  unfolding Detokenize.retrieve_cvv Cvv.retrieve_cvv_token
  retrieve_cvv-Agrees id = record {
    at = λ s u r. (
      ap
          (λ c.
            Detokenize.open_cvv w (Cvv.read_reply (w.redis.get_del (Cvv.cvv_token_key a id) c).0))
          r.cache,
      with_cache (λ c. (w.redis.get_del (Cvv.cvv_token_key a id) c).1) s u r,
    );
  }

  answer_cvv-Agrees :
      (ctx : Context) (id cvv : Text) → Agrees (Alike w a) (Detokenize.answer_cvv w ctx a id cvv)
  unfolding Detokenize.answer_cvv
  answer_cvv-Agrees ctx id [] = search agrees
  answer_cvv-Agrees ctx id (c ∷ cs) = search (agrees, log-Agrees w a)

  reveal-Agrees :
      (ctx : Context) (id : Text) (found : Option Token)
      → Agrees (Alike w a) (Detokenize.reveal w ctx a id found)
  unfolding Detokenize.reveal Detokenize.reveal_pan Detokenize.reveal_cvv
  reveal-Agrees ctx id (some t) =
      search (agrees, decrypt_pan-Agrees, touch-Agrees w a, log-Agrees w a) depth 12
  reveal-Agrees ctx id none = search (agrees, retrieve_cvv-Agrees, answer_cvv-Agrees) depth 12

  -- The tenant of the request, if there is one, is this one.
  abbrev pub IsOwn : Context → Type 0
  IsOwn ctx = (t : Tenant) → ctx.tenant ≡ some t → t.tenant_id ≡ a

  pub detokenize-Agrees :
      (ctx : Context) (token_id : Option Text)
      → IsOwn ctx
      → Agrees (Alike w a) (Detokenize.detokenize w ctx token_id)
  unfolding Detokenize.detokenize
  detokenize-Agrees ctx token_id own =
      Agrees-bind_present _ _ _
        λ t has. rw (own t has) (search (agrees, find_token-Agrees w a, reveal-Agrees) depth 12)

  exists-Agrees : (id : Text) → Agrees (Alike w a) (Cvv.exists_cvv_token w a id)
  unfolding Cvv.exists_cvv_token
  exists-Agrees id = record {
    at = λ s u r. (ap (w.redis.ttl (Cvv.cvv_token_key a id)) r.cache, ticked w a s u r);
  }

  cvv_status-Agrees :
      (ctx : Context) (id : Text) (ttl : Option ℕ)
      → Agrees (Alike w a) (TokenManage.cvv_status w ctx a id ttl)
  unfolding TokenManage.cvv_status
  cvv_status-Agrees ctx id none = search agrees
  cvv_status-Agrees ctx id (some ttl) = search (agrees, log-Agrees w a)

  pan_status-Agrees :
      (ctx : Context) (id : Text) (t : Option Token)
      → Agrees (Alike w a) (TokenManage.pan_status w ctx a id t)
  unfolding TokenManage.pan_status
  pan_status-Agrees ctx id (some t) = search (agrees, log-Agrees w a)
  pan_status-Agrees ctx id none = search (agrees, exists-Agrees, cvv_status-Agrees)

  pub get_status-Agrees :
      (ctx : Context) (token_id : Text)
      → IsOwn ctx
      → Agrees (Alike w a) (TokenManage.get_status w ctx token_id)
  unfolding TokenManage.get_status
  get_status-Agrees ctx token_id own =
      Agrees-bind_present _ _ _
        λ t has. rw (own t has) (search (agrees, find_token-Agrees w a, pan_status-Agrees) depth 12)

  pub get_audit_trail-Agrees :
      (ctx : Context) (t l o : Text)
      → IsOwn ctx
      → Agrees (Alike w a) (TokenManage.get_audit_trail w ctx t l o)
  unfolding TokenManage.get_audit_trail
  get_audit_trail-Agrees ctx t l o own =
      Agrees-bind_present _ _ _
        λ tenant has. rw (own tenant has) (search (agrees, find_lines-Agrees w a) depth 14)

  pub deactivate_token-Agrees :
      (ctx : Context) (token_id : Text)
      → IsOwn ctx
      → Agrees (Alike w a) (TokenManage.deactivate w ctx token_id)
  unfolding TokenManage.deactivate
  deactivate_token-Agrees ctx token_id own = Agrees-bind_present _ _ _ λ t has.
      rw (own t has)
        (search (agrees, find_token-Agrees w a, deactivate-Agrees w a, log-Agrees w a) depth 16)
