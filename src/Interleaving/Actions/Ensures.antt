-- ===== src/Interleaving/Actions/Ensures.antt =====
-- What decryptPAN returns while other calls make statements between its own.
use vaulty.Prelude.{
  ℕ, Bool, true, false, Option, none, some, ◌≡◌, refl, Text, Bytes, ◌++◌, if◌then◌else◌, find,
}
use vaulty.Model.{VaultEntry}
use vaulty.World.{World}
use vaulty.Store.{Store}
use vaulty.Repository.Rows.{query}
use vaulty.Repository.VaultEntries.{is_entry_of}
use vaulty.Crypto
use vaulty.Handler.Tokenize.{TokenizeConfig}
use vaulty.Handler.Keeps.{Scope}
use vaulty.Interleaving.Program.Ensures.{
  Ensures, OnSome, Ensures-chain, Ensures-step, Ensures-returned,
}
use vaulty.Interleaving.Actions.{
  Program-query, decrypt_entry-Runs, Program-unwrap, Program-decrypt_pan,
}
use vaulty.Vaulted.{IsVaulted}

-- What follows where a statement to PostgreSQL fails, or KMS does not unwrap a key that it wrapped.
pub record Faults (w : World) (Fault : Type 0) : Type 0 where
  pub database : (n : ℕ) → w.db_fails n ≡ true → Fault
  pub kms :
      (n m : ℕ) (arn : Text) {dek blob : Bytes}
      → w.generate_data_key m arn ≡ some (dek, blob)
      → w.decrypt n blob ≡ none
      → Fault

module _ (w : World) (cfg : TokenizeConfig) (scope : Scope) (changes : Text → Text → Type 0)
    (P : Store w.redis.Cache → Type 0) (Fault : Type 0) (faults : Faults w Fault) where
  -- An answered search for rows has what the predicate says of them.
  pub Ensures-query :
      {A : Type 0} (Q : A → Type 0) (f : Store w.redis.Cache → A)
      → ((s : Store w.redis.Cache) → P s → Q (f s))
      → Ensures w scope changes P Fault (OnSome Fault Q) (Program-query w cfg scope changes f).code
  unfolding Program-query query
  Ensures-query Q f h = Ensures-step w scope changes P Fault (OnSome Fault Q) _ on
    where
      tried :
          (b : Bool) (s : Store w.redis.Cache)
          → P s
          → (b ≡ true → Fault)
          → OnSome Fault Q (if b then none else some (f s))
      tried true s p why = why refl
      tried false s p why = h s p

      on : (s : Store w.redis.Cache) → P s → OnSome Fault Q (query w f s).0
      on s p = tried (w.db_fails s.calls) s p (faults.database s.calls)

  module _ (tenant_id token_id pan : Text)
      (vaulted : (s : Store w.redis.Cache) → P s → IsVaulted w tenant_id token_id pan s) where
    -- The entry is there and opens to the PAN, whenever KMS unwraps its key.
    abbrev Opens : Option VaultEntry → Type 0
    Opens none = ⊥
    Opens (some e) =
        ((n : ℕ) (dek : Bytes)
          → w.decrypt n e.dek_encrypted ≡ some dek
          → w.gcm_open dek e.iv (e.pan_ciphertext ++ e.auth_tag) ≡ some pan)
        × ((n : ℕ) → w.decrypt n e.dek_encrypted ≡ none → Fault)

    entry-Opens :
        (s : Store w.redis.Cache)
        → P s
        → Opens (find (is_entry_of tenant_id token_id) s.vault_entries)
    entry-Opens s p =
        let v : IsVaulted w tenant_id token_id pan s = vaulted s p in
        rw v.entry_found
          (v.opens, λ n kept. let (m, arn, dek, made) = v.issued in faults.kms n m arn made kept)

    decrypt_entry-Ensures :
        (e : Option VaultEntry)
        → Opens e
        → Ensures w scope changes P Fault
            (OnSome Fault (λ x. x ≡ pan))
            (decrypt_entry-Runs w cfg scope changes e).code
    unfolding decrypt_entry-Runs Program-unwrap Crypto.unwrap_key Crypto.decrypt_with_dek
    decrypt_entry-Ensures none opens = elim opens [ ]
    decrypt_entry-Ensures (some e) (opens, kept) =
        Ensures-chain w scope changes P Fault
          (λ dek. w.gcm_open dek e.iv (e.pan_ciphertext ++ e.auth_tag) ≡ some pan) (λ x. x ≡ pan) _
          _
          (Ensures-step w scope changes P Fault _ _
            λ s p. unwrapped s.calls (w.decrypt s.calls e.dek_encrypted) refl)
          λ dek h.
            Ensures-returned w scope changes P Fault (OnSome Fault (λ x. x ≡ pan)) _ (rw h refl)
      where
        unwrapped :
            (n : ℕ) (o : Option Bytes)
            → w.decrypt n e.dek_encrypted ≡ o
            → OnSome Fault
                (λ dek. w.gcm_open dek e.iv (e.pan_ciphertext ++ e.auth_tag) ≡ some pan)
                o
        unwrapped n none got = kept n got
        unwrapped n (some dek) got = opens n dek got

    pub decrypt_pan-Ensures :
        Ensures w scope changes P Fault
          (OnSome Fault (λ x. x ≡ pan))
          (Program-decrypt_pan w cfg scope changes tenant_id token_id).code
    unfolding Program-decrypt_pan
    decrypt_pan-Ensures =
        Ensures-chain w scope changes P Fault Opens (λ x. x ≡ pan) _ _
          (Ensures-query Opens _ entry-Opens) decrypt_entry-Ensures
