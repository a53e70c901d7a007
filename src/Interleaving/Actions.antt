-- ===== src/Interleaving/Actions.antt =====
-- The code of the actions that the handlers call: one step for each external call.
pub mod Ensures
use vaulty.Prelude.{
  ℤ, ℕ, Bool, true, false, Option, none, some, [], Text, text, text_eq, Bytes, ◌++◌, ◌≡◌, refl,
  Option-cases, Bool-cases, inl, inr, if◌then◌else◌, arith,
}
use vaulty.Model.{TokenStatus, AuditOperation, VaultEntry}
use vaulty.World.{World, Reply}
use vaulty.Store.{Store, Action, tick}
use vaulty.Repository
use vaulty.Repository.Rows.{query}
use vaulty.Crypto
use vaulty.Crypto.{hex}
use vaulty.Cvv
use vaulty.Handler.Common.{audit_entry, log}
use vaulty.Handler.Tokenize
use vaulty.Handler.Tokenize.{TokenizeConfig}
use vaulty.Handler.Detokenize
use vaulty.Handler.Keeps.{Scope}
use vaulty.Interleaving.Code.{
  Code, Statement, done, step, run, external, redis_command, look_up, append_audit,
}
use vaulty.Interleaving.Program.{
  Program, Program-step, Program-next, Program-chain, Program-succeed, Program-returned,
}

module _ (w : World) (cfg : TokenizeConfig) (scope : Scope) (changes : Text → Text → Type 0) where
  abbrev Runs : {R : Type 0} → Action w.redis.Cache R → Type 1
  Runs m = Program w scope changes m

  pub Program-query : {A : Type 0} (f : Store w.redis.Cache → A) → Runs (query w f)
  Program-query f = Program-step _ (look_up f)

  pub Program-log :
      (a b : Text) (o : AuditOperation) (t actor : Text)
      → scope.tenant a
      → Runs (log w (audit_entry a b o t actor))
  unfolding log
  Program-log a b o t actor own =
      Program-next _ _ (Program-step _ (append_audit a b o t actor own)) λ u. Program-returned tt

  pub Program-token_id : Runs (Tokenize.generate_token_id w cfg)
  unfolding Tokenize.generate_token_id run
  Program-token_id = record {
    code = step _ (external (λ n. made (w.rand_read n 20))) done;
    runs = λ s. elim (Option-cases (w.rand_read s.calls 20)) [
      | inl failed ↦ ground (arith, failed)
      | inr (b, e) ↦ ground (arith, e)
    ];
  }
    where
      made : Option Bytes → Option Text
      made none = none
      made (some b) = some (text "tok_" ++ hex b)

  sealed_with : Bytes → Bytes → Option Bytes → Option (Bytes × Bytes)
  sealed_with plaintext key none = none
  sealed_with plaintext key (some iv) = elim (w.gcm_seal key iv plaintext) [
    | none ↦ none
    | some ciphertext ↦ some (ciphertext, iv)
  ]

  pub Program-encrypt : (plain dek : Bytes) → Runs (Crypto.encrypt_with_dek w plain dek)
  unfolding Crypto.encrypt_with_dek run sealed_with
  Program-encrypt plain dek = record {
    code = step _ (external (λ n. sealed_with plain dek (w.rand_read n Crypto.nonce_size))) done;
    runs = λ s. ground arith;
  }

  pub Program-data_key : (arn : Text) → Runs (Crypto.generate_data_key_with_arn w arn)
  unfolding Crypto.generate_data_key_with_arn
  Program-data_key arn = Program-step _ (external (λ n. w.generate_data_key n arn))

  pub Program-dek : Runs (Crypto.generate_dek w)
  unfolding Crypto.generate_dek
  Program-dek = Program-step _ (external (λ n. w.rand_read n Crypto.dek_size))

  pub Program-create_key : (d : Text) → Runs (Crypto.create_kms_key w d)
  unfolding Crypto.create_kms_key
  Program-create_key d = Program-step _ (external (λ n. w.create_key n d))

  pub Program-unwrap : (b : Bytes) → Runs (Crypto.unwrap_key w b)
  unfolding Crypto.unwrap_key
  Program-unwrap b = Program-step _ (external (λ n. w.decrypt n b))

  pub Program-store_cvv_token :
      (a b : Text) (v : Bytes) (ttl : ℤ) → Runs (Cvv.store_cvv_token w a b v ttl)
  unfolding Cvv.store_cvv_token
  Program-store_cvv_token a b v ttl = Program-step _ (
      redis_command λ c.
        let (set, c') = w.redis.set (Cvv.cvv_token_key a b) v ttl c in
        (if set then some tt else none, c'))

  pub Program-take : (a b : Text) → Runs (Cvv.retrieve_cvv_token w a b)
  unfolding Cvv.retrieve_cvv_token
  Program-take a b = Program-step _ (
      redis_command
        λ c. let (r, c') = w.redis.get_del (Cvv.cvv_token_key a b) c in (Cvv.read_reply r, c'))

  pub Program-exists : (a b : Text) → Runs (Cvv.exists_cvv_token w a b)
  unfolding Cvv.exists_cvv_token
  Program-exists a b =
      Program-step _ (redis_command λ c. (w.redis.ttl (Cvv.cvv_token_key a b) c, c))

  -- A step that is left out if a test holds.
  Program-unless :
      (b : Bool) (m : Action w.redis.Cache (Unit {0}))
      → Runs m
      → Runs (λ s. (tt, if b then s else (m s).1))
  unfolding run
  Program-unless true m pm = record { code = done tt; runs = λ s. refl }
  Program-unless false m pm = pm

  Program-delete_previous : (a : Text) (r : Reply) → Runs (Cvv.delete_previous w a r)
  unfolding Cvv.delete_previous
  Program-delete_previous a (Reply.value prev) =
      Program-unless (text_eq prev []) _
        (Program-step _ (redis_command λ c. (tt, (w.redis.del (Cvv.cvv_token_key a prev) c).1)))
  Program-delete_previous a Reply.nil = Program-returned tt
  Program-delete_previous a Reply.fault = Program-returned tt

  Program-set_owner : (a b c : Text) (ttl : ℤ) → Runs (Cvv.set_cvv_token_owner w a b c ttl)
  unfolding Cvv.set_cvv_token_owner
  Program-set_owner a b c ttl = Program-step _ (
      redis_command λ k.
        let (set, k') = w.redis.set (Cvv.cvv_token_owner_key a b) c ttl k in
        (if set then some tt else none, k'))

  Program-invalidate_previous :
      (a b c : Text) (ttl : ℤ) → Runs (Cvv.invalidate_previous_cvv_token w a b c ttl)
  unfolding Cvv.invalidate_previous_cvv_token
  Program-invalidate_previous a b c ttl =
      Program-next _ (λ r s. Cvv.set_cvv_token_owner w a b c ttl (Cvv.delete_previous w a r s).1)
        (Program-step _ (redis_command λ k. (w.redis.get (Cvv.cvv_token_owner_key a b) k, k)))
        λ r.
          Program-next _ (λ u. Cvv.set_cvv_token_owner w a b c ttl) (Program-delete_previous a r)
            λ u. Program-set_owner a b c ttl

  pub Program-invalidate : (a b c : Text) → Runs (Tokenize.invalidate_if_associated w cfg a b c)
  unfolding Tokenize.invalidate_if_associated
  Program-invalidate a b c =
      Program-unless (text_eq b [])
        (λ s. (tt, (Cvv.invalidate_previous_cvv_token w a b c cfg.cvv_ttl s).1))
        (Program-next _ (λ o s. (tt, s)) (Program-invalidate_previous a b c cfg.cvv_ttl)
          λ o. Program-returned tt)

  pub Program-encrypt_pan : (pan arn : Text) → Runs (Tokenize.encrypt_pan w cfg pan arn)
  unfolding Tokenize.encrypt_pan
  Program-encrypt_pan pan arn =
      Program-chain _ _ (Program-data_key arn)
        λ key. Program-chain _ _ (Program-encrypt pan key.0) λ sealed. Program-succeed _

  pub Program-store_cvv : (a b cvv : Text) → Runs (Tokenize.store_cvv w cfg a b cvv)
  unfolding Tokenize.store_cvv
  Program-store_cvv a b cvv = Program-chain _ _ Program-dek λ dek.
      Program-chain _ _ (Program-encrypt cvv dek)
        λ sealed. Program-store_cvv_token a b _ cfg.cvv_ttl

  decrypt_entry-Runs : (e : Option VaultEntry) → Runs (Detokenize.decrypt_entry w e)
  unfolding Detokenize.decrypt_entry
  decrypt_entry-Runs none = Program-succeed []
  decrypt_entry-Runs (some e) = Program-chain _ _ (Program-unwrap _) λ dek. Program-returned _

  pub Program-decrypt_pan : (a b : Text) → Runs (Detokenize.decrypt_pan w a b)
  unfolding Detokenize.decrypt_pan Repository.VaultEntries.find_by_token_id
  Program-decrypt_pan a b = Program-chain _ _ (Program-query _) λ e. decrypt_entry-Runs e

  pub Program-retrieve_cvv : (a b : Text) → Runs (Detokenize.retrieve_cvv w a b)
  unfolding Detokenize.retrieve_cvv
  Program-retrieve_cvv a b =
      Program-next _ (λ combined s. (Detokenize.open_cvv w combined, s)) (Program-take a b)
        λ combined. Program-returned _
