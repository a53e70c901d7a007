-- ===== src/Audit.antt =====
-- The masking of internal/audit/logger.go: MaskTokenID, MaskPAN and SafeDetail.
pub mod Mask
pub mod Detail
use vaulty.Prelude.{
  ℕ, ◌-◌, ◌+◌, Bool, true, false, not, ◌&&◌, ◌||◌, List, [], ◌∷◌, ◌++◌, Text, text, ltb, leb, ◌==◌,
  if◌then◌else◌, length, take, drop, replicate, text_eq,
}
use vaulty.Json.{Json, Fields, end, field}

abbrev pub star : ℕ
star = b'*'

unfoldable pub mask_token_id : Text → Text
mask_token_id token_id =
    if leb (length token_id) 12
    then token_id
    else take 12 token_id ++ replicate (length token_id - 12) star

unfoldable pub mask_pan : Text → Text
mask_pan pan =
    if ltb (length pan) 10
    then replicate (length pan) star
    else take 6 pan ++ (replicate (length pan - 10) star ++ drop (length pan - 4) pan)

abbrev pub lower_byte : ℕ → ℕ
lower_byte b = if leb b'A' b && leb b b'Z' then b + 32 else b

-- `strings.ToLower`, as far as a comparison with an ASCII word reads it: ASCII letters, and the
-- Kelvin sign (E2 84 AA), the only other character whose lower case is one of c, v, p, a, n, d, e, k.
unfoldable pub to_lower : Text → Text
to_lower (a ∷ b ∷ c ∷ s) =
    let kelvin = b'k' ∷ to_lower s in
    let plain = lower_byte a ∷ to_lower (b ∷ c ∷ s) in
    if a == 0xE2 && (b == 0x84 && c == 0xAA) then kelvin else plain
to_lower (a ∷ s) = lower_byte a ∷ to_lower s
to_lower [] = []

abbrev pub is_sensitive : Text → Bool
is_sensitive key =
    let lower = to_lower key in
    text_eq lower (text "cvv") || (text_eq lower (text "pan") || text_eq lower (text "dek"))

-- The pairs that are left to be marshalled.
unfoldable pub safe_detail : Fields → Fields
safe_detail end = end
safe_detail (field key v pairs) =
    let rest = safe_detail pairs in if is_sensitive key then rest else field key v rest
