-- ===== src/Crypto.antt =====
-- internal/crypto and internal/kms: envelope encryption over the ciphers and KMS.
use vaulty.Prelude.{
  ℕ, ◌+◌, ◌-◌, ◌/◌, ◌%◌, Option, none, some, [], ◌∷◌, ◌++◌, Text, text, Bytes, ltb, if◌then◌else◌,
}
use vaulty.World.{World}
use vaulty.Store.{Action, tick}

abbrev pub dek_size : ℕ
dek_size = 32

-- gcm.NonceSize() of a cipher made by cipher.NewGCM
abbrev pub nonce_size : ℕ
nonce_size = 12

abbrev hex_digit : ℕ → ℕ
hex_digit d = if ltb d 10 then b'0' + d else b'a' + (d - 10)

-- hex.EncodeToString
unfoldable pub hex : Bytes → Text
hex [] = []
hex (b ∷ bs) = hex_digit (b / 16 % 16) ∷ hex_digit (b % 16) ∷ hex bs

module _ (w : World) where
  -- The ciphertext with its tag, and the nonce.
  unfoldable pub encrypt : Bytes → Bytes → Action w.redis.Cache (Option (Bytes × Bytes))
  encrypt plaintext key s = elim (w.rand_read s.calls nonce_size) [
    | none ↦ (none, tick s)
    | some iv ↦ elim (w.gcm_seal key iv plaintext) [
      | none ↦ (none, tick s)
      | some ciphertext ↦ (some (ciphertext, iv), tick s)
    ]
  ]

  unfoldable pub decrypt_bytes : Bytes → Bytes → Bytes → Option Bytes
  decrypt_bytes ciphertext iv key = w.gcm_open key iv ciphertext

  unfoldable pub generate_dek : Action w.redis.Cache (Option Bytes)
  generate_dek s = (w.rand_read s.calls dek_size, tick s)

  unfoldable pub encrypt_with_dek : Bytes → Bytes → Action w.redis.Cache (Option (Bytes × Bytes))
  unfolding encrypt
  encrypt_with_dek plaintext dek = encrypt plaintext dek

  unfoldable pub decrypt_with_dek : Bytes → Bytes → Bytes → Option Bytes
  unfolding decrypt_bytes
  decrypt_with_dek ciphertext iv dek = decrypt_bytes ciphertext iv dek

  unfoldable pub compute_blind_index : Text → Text → Bytes → Text
  unfolding hex
  compute_blind_index tenant_id pan hmac_key =
      hex (w.hmac_sha256 hmac_key (tenant_id ++ (text ":" ++ pan)))

  -- kms.Client: CreateKey, GenerateDataKeyWithARN and UnwrapKey
  unfoldable pub create_kms_key : Text → Action w.redis.Cache (Option Text)
  create_kms_key description s = (w.create_key s.calls description, tick s)

  unfoldable pub generate_data_key_with_arn : Text → Action w.redis.Cache (Option (Bytes × Bytes))
  generate_data_key_with_arn arn s = (w.generate_data_key s.calls arn, tick s)

  unfoldable pub unwrap_key : Bytes → Action w.redis.Cache (Option Bytes)
  unwrap_key encrypted s = (w.decrypt s.calls encrypted, tick s)
