-- ===== src/World.antt =====
-- What the program calls and does not implement: PostgreSQL's failures and defaults, Redis, AWS KMS,
-- the ciphers of the Go library, the random source, the clock and time's print format. The n-th call
-- of the run has an answer of its own, so a call may succeed once and fail the next time.
use vaulty.Prelude.{ℕ, ℤ, ◌+◌, Text, Bytes, Bool, true, Option, none, some, ◌≡◌, ◌≢◌, length}

-- A reply of GET or GETDEL: a value, redis.Nil, or any other error.
pub data Reply : Type 0 where
  value : Bytes → Reply
  nil : Reply
  fault : Reply

-- The commands of go-redis that cvv_store.go uses, over the server's state. A TTL reply is
-- `some d` for a duration of zero or more and `none` for an error or a negative duration, which
-- stands for a missing key or a key with no expiry.
pub record Redis : Type 1 where
  pub Cache : Type 0
  -- SET key value with a time to live in nanoseconds, none for a duration that is not positive, and
  -- whether it succeeded
  pub set : Text → Bytes → ℤ → Cache → Bool × Cache
  pub get : Text → Cache → Reply
  pub get_del : Text → Cache → Reply × Cache
  -- DEL key; its error is dropped by the only caller
  pub del : Text → Cache → Bool × Cache
  pub ttl : Text → Cache → Option ℕ

-- Redis's documented behaviour: `live c k` is the unexpired value at a key. Commands on one key leave
-- the others alone, and nothing is promised of the key itself when a command fails. Expiry is no part
-- of a command: it is a step of its own, `Expires` below.
pub record RedisLaws (r : Redis) : Type 1 where
  pub live : r.Cache → Text → Option Bytes
  pub set_self :
      (k : Text) (v : Bytes) (d : ℤ) (c : r.Cache)
      → (r.set k v d c).0 ≡ true
      → live (r.set k v d c).1 k ≡ some v
  pub set_other :
      (k j : Text) (v : Bytes) (d : ℤ) (c : r.Cache) → j ≢ k → live (r.set k v d c).1 j ≡ live c j
  pub get_value :
      (k : Text) (v : Bytes) (c : r.Cache) → r.get k c ≡ Reply.value v → live c k ≡ some v
  pub get_nil : (k : Text) (c : r.Cache) → r.get k c ≡ Reply.nil → live c k ≡ none
  pub get_del_value :
      (k : Text) (v : Bytes) (c : r.Cache)
      → (r.get_del k c).0 ≡ Reply.value v
      → (live c k ≡ some v) × (live (r.get_del k c).1 k ≡ none)
  pub get_del_nil :
      (k : Text) (c : r.Cache)
      → (r.get_del k c).0 ≡ Reply.nil
      → (live c k ≡ none) × (live (r.get_del k c).1 k ≡ none)
  pub get_del_other : (k j : Text) (c : r.Cache) → j ≢ k → live (r.get_del k c).1 j ≡ live c j
  pub del_self : (k : Text) (c : r.Cache) → (r.del k c).0 ≡ true → live (r.del k c).1 k ≡ none
  pub del_other : (k j : Text) (c : r.Cache) → j ≢ k → live (r.del k c).1 j ≡ live c j
  pub ttl_live : (k : Text) (d : ℕ) (c : r.Cache) → r.ttl k c ≡ some d → live c k ≢ none

pub record World : Type 1 where
  pub redis : Redis
  -- whether the n-th call, a statement to PostgreSQL, fails for a reason outside its meaning
  pub db_fails : ℕ → Bool
  -- whether reading the rows of the n-th call breaks off, after how many of them: pgx reports it by
  -- rows.Err() alone, once rows.Next() says that there is no further row
  pub rows_end : ℕ → Option ℕ
  -- gen_random_uuid() and NOW(), or time.Now(), in nanoseconds, at the n-th call
  pub uuid : ℕ → Text
  pub now : ℕ → ℕ
  -- crypto/rand: so many bytes
  pub rand_read : ℕ → ℕ → Option Bytes
  -- KMS CreateKey (a description), Encrypt and GenerateDataKey (a key's ARN) and Decrypt (a blob)
  pub create_key : ℕ → Text → Option Text
  pub encrypt : ℕ → Text → Bytes → Option Bytes
  pub generate_data_key : ℕ → Text → Option (Bytes × Bytes)
  pub decrypt : ℕ → Bytes → Option Bytes
  -- AES-GCM: key, nonce, text; `none` for a key or nonce that the cipher refuses
  pub gcm_seal : Bytes → Bytes → Bytes → Option Bytes
  pub gcm_open : Bytes → Bytes → Bytes → Option Bytes
  -- HMAC-SHA256 of a message under a key
  pub hmac_sha256 : Bytes → Bytes → Bytes
  -- time.Format
  pub format : ℕ → Text

-- The documented behaviour of the ciphers, the random source and KMS.
pub record CryptoLaws (w : World) : Type 0 where
  pub open-seal :
      (key iv plain : Bytes) {c : Bytes}
      → w.gcm_seal key iv plain ≡ some c
      → w.gcm_open key iv c ≡ some plain
  -- Seal appends a tag of 16 bytes.
  pub length-seal :
      (key iv plain : Bytes) {c : Bytes}
      → w.gcm_seal key iv plain ≡ some c
      → length c ≡ length plain + 16
  pub length-rand_read : (n size : ℕ) {b : Bytes} → w.rand_read n size ≡ some b → length b ≡ size
  -- Decrypt gives back the data key under whose blob it was generated, or fails.
  pub decrypt-generate :
      (n m : ℕ) (arn : Text) {dek blob out : Bytes}
      → w.generate_data_key n arn ≡ some (dek, blob)
      → w.decrypt m blob ≡ some out
      → out ≡ dek
