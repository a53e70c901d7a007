-- ===== src/Vaulted/CvvRoundTrip.antt =====
-- A stored CVV is the one that is read back.
use vaulty.Prelude.{
  ℕ, true, Option, some, List, ◌++◌, ◌≡◌, ◌⊎◌, inl, inr, refl, sym, ◌∙◌, ap, Text, Bytes, length,
  take, drop, take-append, drop-append, length-append, arith,
}
use vaulty.World.{World, CryptoLaws, RedisLaws, Reply}
use vaulty.Store.{Store}
use vaulty.Store.Invert.{chain-some}
use vaulty.Crypto
use vaulty.Cvv.{cvv_token_key, retrieve_cvv_token, store_cvv_token, read_reply}
use vaulty.Handler.Tokenize.{TokenizeConfig, store_cvv}
use vaulty.Handler.Detokenize.{retrieve_cvv, open_cvv}

module _ {A : Type 0} where
  take_front : (n : ℕ) (xs ys : List A) → length xs ≡ n → take n (xs ++ ys) ≡ xs
  take_front n xs ys h = rw (← h) (take-append xs ys)

  drop_front : (n : ℕ) (xs ys : List A) → length xs ≡ n → drop n (xs ++ ys) ≡ ys
  drop_front n xs ys h = rw (← h) (drop-append xs ys)

module _ (w : World) (laws : CryptoLaws w) (redis : RedisLaws w.redis) (cfg : TokenizeConfig) where
  -- A key of 32 bytes, a nonce of 12 and what was sealed under them open again.
  opened :
      (dek iv ct cvv : Bytes)
      → length dek ≡ 32
      → length iv ≡ 12
      → w.gcm_seal dek iv cvv ≡ some ct
      → open_cvv w (some (some (dek ++ (iv ++ ct)))) ≡ cvv
  unfolding open_cvv Crypto.decrypt_with_dek Crypto.decrypt_bytes
  opened dek iv ct cvv hd hi sealed = ground (
    arith,
    length-append dek (iv ++ ct),
    length-append iv ct,
    take_front 32 dek (iv ++ ct) hd,
    drop_front 32 dek (iv ++ ct) hd,
    take_front 12 iv ct hi,
    drop_front 12 iv ct hi,
    laws.open-seal dek iv cvv {c = ct} sealed,
  )

  dek_made :
      (s : Store w.redis.Cache) {dek : Bytes} {t : Store w.redis.Cache}
      → Crypto.generate_dek w s ≡ (some dek, t)
      → length dek ≡ 32
  unfolding Crypto.generate_dek
  dek_made s {dek} h = laws.length-rand_read s.calls 32 (ap (λ x. x.0) h)

  sealed :
      (plain dek : Bytes) (s : Store w.redis.Cache) {ct iv : Bytes} {t : Store w.redis.Cache}
      → Crypto.encrypt_with_dek w plain dek s ≡ (some (ct, iv), t)
      → (w.gcm_seal dek iv plain ≡ some ct) × (length iv ≡ 12)
  unfolding Crypto.encrypt_with_dek Crypto.encrypt
  sealed plain dek s {ct} {iv} h = (ground arith, laws.length-rand_read s.calls 12 (ground arith))

  set_made :
      (tenant_id token_id v : Text) (s : Store w.redis.Cache) {u : Unit {0}}
      {t : Store w.redis.Cache}
      → store_cvv_token w tenant_id token_id v cfg.cvv_ttl s ≡ (some u, t)
      → redis.live t.cache (cvv_token_key tenant_id token_id) ≡ some v
  unfolding store_cvv_token
  set_made tenant_id token_id v s {u} {t} h =
      let key = cvv_token_key tenant_id token_id in
      let cached = ap (λ (x : Option (Unit {0}) × Store w.redis.Cache). x.1.cache) h in
      let done : (w.redis.set key v cfg.cvv_ttl s.cache).0 ≡ true =
        (let e = ap (λ (x : Option (Unit {0}) × Store w.redis.Cache). x.0) h in ground arith) in
      ap (λ c. redis.live c key) (sym cached) ∙ redis.set_self key v cfg.cvv_ttl s.cache done

  stored :
      (tenant_id token_id cvv : Text) (s : Store w.redis.Cache) {u : Unit {0}}
      {t : Store w.redis.Cache}
      → store_cvv w cfg tenant_id token_id cvv s ≡ (some u, t)
      → (combined : Bytes) × (redis.live t.cache (cvv_token_key tenant_id token_id) ≡ some combined)
        × (open_cvv w (some (some combined)) ≡ cvv)
  unfolding store_cvv
  stored tenant_id token_id cvv s h = chain-some _ _ s h λ dek s₁ made h₁.
      chain-some _ _ s₁ h₁ λ enc s₂ closed h₂.
        let (same, nonce) = sealed cvv dek s₁ closed in
        (
          dek ++ (enc.1 ++ enc.0),
          set_made tenant_id token_id _ s₂ h₂,
          opened dek enc.1 enc.0 cvv (dek_made s made) nonce same,
        )

  read_back :
      (key combined : Bytes) (c : w.redis.Cache) (r : Reply)
      → (w.redis.get_del key c).0 ≡ r
      → redis.live c key ≡ some combined
      → (open_cvv w (read_reply r) ≡ open_cvv w (some (some combined))) ⊎ (r ≡ Reply.fault)
  read_back key combined c (Reply.value v) h there =
      let (here, _) = redis.get_del_value key v c h in
      inl (ap (λ x. open_cvv w (some x)) (sym here ∙ there))
  read_back key combined c Reply.nil h there =
      let (gone, _) = redis.get_del_nil key c h in absurd (ground arith)
  read_back key combined c Reply.fault h there = inr refl

-- A CVV that tokenize's storeCVVToken stored is what detokenize's retrieveCVVToken returns from any
-- later store in which that key's live value is still the same, unless the GETDEL itself fails.
pub store_then_retrieve_cvv :
    (w : World) (laws : CryptoLaws w) (redis : RedisLaws w.redis) (cfg : TokenizeConfig)
    (tenant_id token_id cvv : Text) (s : Store w.redis.Cache) {u : Unit {0}}
    {t : Store w.redis.Cache}
    → store_cvv w cfg tenant_id token_id cvv s ≡ (some u, t)
    → (later : Store w.redis.Cache)
    → redis.live later.cache (cvv_token_key tenant_id token_id)
      ≡ redis.live t.cache (cvv_token_key tenant_id token_id)
    → ((retrieve_cvv w tenant_id token_id later).0 ≡ cvv)
      ⊎ ((w.redis.get_del (cvv_token_key tenant_id token_id) later.cache).0 ≡ Reply.fault)
unfolding retrieve_cvv retrieve_cvv_token
store_then_retrieve_cvv w laws redis cfg tenant_id token_id cvv s h later still =
    let (combined, there, opens) = stored w laws redis cfg tenant_id token_id cvv s h in
    elim (read_back w laws redis cfg (cvv_token_key tenant_id token_id) combined later.cache _ refl
      (still ∙ there)) [ inl same ↦ inl (same ∙ opens) | inr down ↦ inr down ]
