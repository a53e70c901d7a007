-- ===== src/Vaulted.antt =====
-- What it means that a token stands for a PAN in the store, and that it goes on to do so.
pub mod Durable
pub mod CvvRoundTrip
pub mod Deactivated
pub mod Suspended
pub mod Issue
pub mod Replaced
pub mod Orphan
pub mod Reuse
pub mod Raced
pub mod Reveal
pub mod Logged
pub mod RoundTrip
pub mod SingleUse
pub mod Tokenized
use vaulty.Prelude.{ℕ, ◌≡◌, some, Text, Bytes, ◌++◌, find}
use vaulty.Model.{Token, TokenStatus, VaultEntry}
use vaulty.World.{World}
use vaulty.Store.{Store}
use vaulty.Repository.Tokens.{has_token_id}
use vaulty.Repository.VaultEntries.{is_entry_of}

-- The tenant has an active token of that id, and an entry whose wrapped key KMS made and, whenever KMS
-- unwraps it, opens the ciphertext to the PAN.
pub record IsVaulted (w : World) (tenant_id token_id pan : Text) (s : Store w.redis.Cache)
    : Type 0 where
  pub token : Token
  pub found : find (has_token_id tenant_id token_id) s.tokens ≡ some token
  pub active : token.status ≡ TokenStatus.active
  pub entry : VaultEntry
  pub entry_found : find (is_entry_of tenant_id token_id) s.vault_entries ≡ some entry
  pub opens :
      (n : ℕ) (dek : Bytes)
      → w.decrypt n entry.dek_encrypted ≡ some dek
      → w.gcm_open dek entry.iv (entry.pan_ciphertext ++ entry.auth_tag) ≡ some pan
  pub issued :
      (n : ℕ) × (arn : Text) × (dek : Bytes) × (w.generate_data_key n arn
        ≡ some (dek, entry.dek_encrypted))
