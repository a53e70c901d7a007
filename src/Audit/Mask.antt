-- ===== src/Audit/Mask.antt =====
-- What a masked token id or PAN still tells.
use vaulty.Prelude.{
  ◌-◌, ◌<◌, ◌++◌, ◌≡◌, ◌↔◌, ◌⊎◌, inl, inr, sym, ap, ◌∙◌, Text, length, take, replicate, Bool-cases,
  leb, false, take-append, length-append, length-take, length-replicate, arith,
}
use vaulty.Audit.{star, mask_token_id}

-- The mask is as long as the token id.
pub length-mask_token_id : (t : Text) → length (mask_token_id t) ≡ length t
unfolding mask_token_id
length-mask_token_id t = ground (
  arith,
  length-append (take 12 t) (replicate (length t - 12) star),
  length-take 12 t,
  length-replicate (length t - 12) star,
)

length-take_long : (t : Text) → leb (length t) 12 ≡ false → length (take 12 t) ≡ 12
length-take_long t h = ground (arith, length-take 12 t)

-- The first twelve characters stay.
pub take-mask_token_id : (t : Text) → take 12 (mask_token_id t) ≡ take 12 t
unfolding mask_token_id
take-mask_token_id t = elim (Bool-cases (leb (length t) 12)) [
  | inl short ↦ rw short
  | inr long ↦ rw long (
      ap (λ n. take n (take 12 t ++ replicate (length t - 12) star)) (sym (length-take_long t long))
      ∙ take-append (take 12 t) (replicate (length t - 12) star))
]

-- Two token ids have one mask exactly when they are the same, or both are longer than twelve
-- characters, equally long and alike in the first twelve.
pub mask_token_id-eq_iff :
    (a b : Text)
    → (mask_token_id a ≡ mask_token_id b)
      ↔ ((a ≡ b) ⊎ (12 < length a) × (length a ≡ length b) × (take 12 a ≡ take 12 b))
unfolding mask_token_id
mask_token_id-eq_iff a b = (forth, back)
  where
    forth :
        mask_token_id a ≡ mask_token_id b
        → (a ≡ b) ⊎ (12 < length a) × (length a ≡ length b) × (take 12 a ≡ take 12 b)
    forth e = ground (
      arith,
      take-mask_token_id a,
      take-mask_token_id b,
      length-mask_token_id a,
      length-mask_token_id b,
      ap length e,
      ap (take 12) e,
      e,
    )

    back :
        (a ≡ b) ⊎ (12 < length a) × (length a ≡ length b) × (take 12 a ≡ take 12 b)
        → mask_token_id a ≡ mask_token_id b
    back h = ground arith
