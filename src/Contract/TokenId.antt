-- ===== src/Contract/TokenId.antt =====
-- The token ids of internal/handler/tokenize.go against the pattern of internal/proxy/revealer.go, the
-- columns of the tables and the checks of the tokenizer itself.
use vaulty.Prelude.{
  Option-cases, inl, inr, ◌*◌, true, false, some, [], ◌∷◌, ◌++◌, ◌≡◌, refl, Text, text, text_eq,
  Bytes, length, all, arith,
}
use vaulty.World.{World, CryptoLaws}
use vaulty.Store.{Store}
use vaulty.Crypto.{hex}
use vaulty.Pattern.{is_alphanumeric, token_pattern}
use vaulty.Card.{validate_pan, validate_cvv}
use vaulty.Repository.Rows.{fits, char_count}
use vaulty.Handler.Tokenize.{TokenizeConfig, generate_token_id}

hex_IsText :
    (bs : Bytes) → (all is_alphanumeric (hex bs) ≡ true) × (length (hex bs) ≡ 2 * length bs)
unfolding hex
hex_IsText [] = (refl, refl)
hex_IsText (b ∷ bs) = let (a, n) = hex_IsText bs in (ground arith, omega (arith, n))

char_count_ascii : (t : Text) → all is_alphanumeric t ≡ true → char_count t ≡ length t
char_count_ascii [] h = refl
char_count_ascii (b ∷ t) h = ground (arith, char_count_ascii t)

-- What the proxy, the tables and the checks make of a text.
abbrev pub IsTokenId : Text → Type 0
IsTokenId id =
    (token_pattern id ≡ true)
    × (fits 64 id ≡ true)
    × (validate_pan id ≡ false)
    × (validate_cvv id ≡ false)

tok-IsTokenId : (b : Bytes) → length b ≡ 20 → IsTokenId (text "tok_" ++ hex b)
unfolding token_pattern validate_pan validate_cvv text_eq
tok-IsTokenId b h =
    let (a, n) = hex_IsText b in
    let size : length (hex b) ≡ 40 = omega (arith, n, h) in
    (
      ground (arith, a, size),
      ground (arith, char_count_ascii (hex b) a, size),
      ground (arith, size),
      ground (arith, size),
    )

module _ (w : World) (laws : CryptoLaws w) (cfg : TokenizeConfig) where
  -- A generated token id matches the proxy's token pattern, fits a column of 64 characters, and is
  -- itself refused as a card number and as a CVV.
  pub generate_token_id-IsTokenId :
      (s : Store w.redis.Cache) {id : Text} {t : Store w.redis.Cache}
      → generate_token_id w cfg s ≡ (some id, t)
      → IsTokenId id
  unfolding generate_token_id
  generate_token_id-IsTokenId s {id} h = elim (Option-cases (w.rand_read s.calls 20)) [
    | inl failed ↦ absurd (ground arith)
    | inr (b, e) ↦
        let q : text "tok_" ++ hex b ≡ id = ground arith in
        rw (← q) (tok-IsTokenId b (laws.length-rand_read s.calls 20 e))
  ]
