-- ===== src/Cvv/Keys.antt =====
-- The keys of two tenants, of two tokens and of two kinds never meet in Redis.
use vaulty.Prelude.{ap, zero, suc, ℕ, true, [], ◌∷◌, ◌++◌, ◌≡◌, ◌≢◌, Text, text, all, arith}
use vaulty.Pattern.{is_tenant_byte, tenant_id_pattern}
use vaulty.Cvv.{cvv_key, cvv_token_key, cvv_token_owner_key}

append_injective_left : (p a b : Text) → p ++ a ≡ p ++ b → a ≡ b
append_injective_left [] a b h = h
append_injective_left (x ∷ p) a b h = append_injective_left p a b (cc)

-- Texts of tenant characters end at the first colon.
split_at_colon :
    (a b x y : Text)
    → all is_tenant_byte a ≡ true
    → all is_tenant_byte b ≡ true
    → a ++ b':' ∷ x ≡ b ++ b':' ∷ y
    → (a ≡ b) × (x ≡ y)
split_at_colon [] [] x y ha hb h = ground arith
split_at_colon (c ∷ a) [] x y ha hb h = ground arith
split_at_colon [] (d ∷ b) x y ha hb h = ground arith
split_at_colon (c ∷ a) (d ∷ b) x y ha hb h = ground (arith, split_at_colon a b x y)

pattern-all : (t : Text) → tenant_id_pattern t ≡ true → all is_tenant_byte t ≡ true
unfolding tenant_id_pattern
pattern-all t h = ground arith

module _ (a b x y : Text) (ha : tenant_id_pattern a ≡ true) (hb : tenant_id_pattern b ≡ true) where
  same_scope : (p : Text) → p ++ (a ++ b':' ∷ x) ≡ p ++ (b ++ b':' ∷ y) → (a ≡ b) × (x ≡ y)
  same_scope p h =
      split_at_colon a b x y (pattern-all a ha) (pattern-all b hb) (append_injective_left p _ _ h)

  -- For tenants whose ids match the pattern, each of the three kinds of keys is one key only for one
  -- tenant and one token.
  pub keys_injective :
      (cvv_key a x ≡ cvv_key b y → (a ≡ b) × (x ≡ y))
      × (cvv_token_key a x ≡ cvv_token_key b y → (a ≡ b) × (x ≡ y))
      × (cvv_token_owner_key a x ≡ cvv_token_owner_key b y → (a ≡ b) × (x ≡ y))
  unfolding cvv_key cvv_token_key cvv_token_owner_key
  keys_injective =
      (same_scope (text "cvv:"), same_scope (text "cvvtok:"), same_scope (text "cvvtok_owner:"))

abbrev byte_at : ℕ → Text → ℕ
byte_at n [] = 0
byte_at zero (b ∷ bs) = b
byte_at (suc n) (b ∷ bs) = byte_at n bs

-- Keys of two kinds differ, whatever the tenants and the tokens.
pub keys_apart :
    (a b x y : Text)
    → (cvv_key a x ≢ cvv_token_key b y)
      × (cvv_key a x ≢ cvv_token_owner_key b y)
      × (cvv_token_key a x ≢ cvv_token_owner_key b y)
unfolding cvv_key cvv_token_key cvv_token_owner_key
keys_apart a b x y = (
  λ h. absurd (omega (arith, ap (byte_at 3) h)),
  λ h. absurd (omega (arith, ap (byte_at 3) h)),
  λ h. absurd (omega (arith, ap (byte_at 6) h)),
)
