-- ===== src/Proxy/Revealer/Refinement.antt =====
-- ScanAndReveal refines a plain description: collect the payload's tokens from left to right, reveal
-- them one after the other until one fails, and put the values in the tokens' places.
use vaulty.Prelude.{
  ap, ℕ, List, [], ◌∷◌, ◌++◌, ◌≡◌, refl, Text, if◌then◌else◌, length, arith, drop-append,
  take-append, drop, take,
}
use vaulty.Json.{Json, null, bool, num, str, arr, obj, Items, nil, cons, Fields, end, field}
use vaulty.Pattern.{token_pattern}
use vaulty.Proxy.Http.{Network}
use vaulty.Proxy.Revealer.{
  Revealer, Result, ok, err, map_result, detokenize, wrap_error, reveal_string, scan_and_reveal,
  scan_items, scan_fields,
}

-- The tokens of a payload, in the order in which the loops meet them.
unfoldable mutual
  pub tokens : Json → List Text
  tokens (str t) = if token_pattern t then t ∷ [] else []
  tokens (arr xs) = tokens_of_items xs
  tokens (obj fs) = tokens_of_fields fs
  tokens null = []
  tokens (bool b) = []
  tokens (num n) = []

  pub tokens_of_items : Items → List Text
  tokens_of_items nil = []
  tokens_of_items (cons x xs) = tokens x ++ tokens_of_items xs

  pub tokens_of_fields : Fields → List Text
  tokens_of_fields end = []
  tokens_of_fields (field k v fs) = tokens v ++ tokens_of_fields fs

abbrev first_or : Text → List Text → Text
first_or t [] = t
first_or t (v ∷ vs) = v

-- The payload with values in the places of its tokens; all else stays.
mutual
  pub fill : Json → List Text → Json
  fill (str t) vs = if token_pattern t then str (first_or t vs) else str t
  fill (arr xs) vs = arr (fill_items xs vs)
  fill (obj fs) vs = obj (fill_fields fs vs)
  fill null vs = null
  fill (bool b) vs = bool b
  fill (num n) vs = num n

  pub fill_items : Items → List Text → Items
  fill_items nil vs = nil
  fill_items (cons x xs) vs =
      cons (fill x (take (length (tokens x)) vs)) (fill_items xs (drop (length (tokens x)) vs))

  pub fill_fields : Fields → List Text → Fields
  fill_fields end vs = end
  fill_fields (field k v fs) vs =
      field k (fill v (take (length (tokens v)) vs)) (fill_fields fs (drop (length (tokens v)) vs))

abbrev Counts : ℕ → Result (List Text) → Type 0
Counts n (ok vs) = length vs ≡ n
Counts n (err e) = Unit

take-append_of : (n : ℕ) (vs us : List Text) → length vs ≡ n → take n (vs ++ us) ≡ vs
take-append_of n vs us h = rw (← h) (take-append vs us)

drop-append_of : (n : ℕ) (vs us : List Text) → length vs ≡ n → drop n (vs ++ us) ≡ us
drop-append_of n vs us h = rw (← h) (drop-append vs us)

module _ (net : Network) (rv : Revealer) (tenant_id : Text) where
  -- Reveals tokens in order, up to the first that fails.
  unfoldable pub reveal_all : List Text → net.State → Result (List Text) × net.State
  reveal_all [] s = (ok [], s)
  reveal_all (t ∷ ts) s =
      let (r, s₁) = detokenize net rv tenant_id t s in
      elim (wrap_error net rv t r) [
        | err e ↦ (err e, s₁)
        | ok v ↦ let (rest, s₂) = reveal_all ts s₁ in (map_result (λ vs. v ∷ vs) rest, s₂)
      ]

  -- Goes on with more tokens.
  and_then : List Text → Result (List Text) × net.State → Result (List Text) × net.State
  and_then ts (err e, s) = (err e, s)
  and_then ts (ok vs, s) =
      let (rest, s') = reveal_all ts s in (map_result (λ us. vs ++ us) rest, s')

  reveal_all-append :
      (ts us : List Text) (s : net.State) → reveal_all (ts ++ us) s ≡ and_then us (reveal_all ts s)
  unfolding reveal_all and_then
  reveal_all-append [] us s = ground arith
  reveal_all-append (t ∷ ts) us s =
      ground (arith, reveal_all-append ts us (detokenize net rv tenant_id t s).1)

  -- One value for each token.
  length-reveal_all : (ts : List Text) (s : net.State) → Counts (length ts) (reveal_all ts s).0
  unfolding reveal_all
  length-reveal_all [] s = refl
  length-reveal_all (t ∷ ts) s =
      ground (arith, length-reveal_all ts (detokenize net rv tenant_id t s).1)

  abbrev filled :
      {A : Type 0} → (List Text → A) → Result (List Text) × net.State → Result A × net.State
  filled f (r, s) = (map_result f r, s)

  -- The two ways to build a pair of parts: part by part, or all values first.
  module _ {A B D : Type 0} (f : List Text → A) (g : List Text → B) (c : A → B → D) where
    second_part :
        (n : ℕ) (vs : List Text) (rest : Result (List Text) × net.State)
        → length vs ≡ n
        → (let (r, s) = filled g rest in
            let whole : Result D × net.State = (map_result (c (f vs)) r, s) in whole)
          ≡ (let (r, s) = rest in
              filled (λ ws. c (f (take n ws)) (g (drop n ws))) (map_result (λ us. vs ++ us) r, s))
    second_part n vs (err e, s) h = refl
    second_part n vs (ok us, s) h = rw (take-append_of n vs us h, drop-append_of n vs us h)

    abbrev both_parts : List Text → Result A × net.State → Result D × net.State
    both_parts us (err e, s) = (err e, s)
    both_parts us (ok x, s) = let (r, s') = filled g (reveal_all us s) in (map_result (c x) r, s')

    first_part :
        (n : ℕ) (us : List Text) (found : Result (List Text) × net.State)
        → Counts n found.0
        → both_parts us (filled f found)
          ≡ filled (λ ws. c (f (take n ws)) (g (drop n ws))) (and_then us found)
    unfolding and_then
    first_part n us (err e, s) h = refl
    first_part n us (ok vs, s) h = second_part n vs (reveal_all us s) h

  mutual
    unfolding scan_and_reveal reveal_string tokens fill reveal_all

    scan-filled :
        (j : Json) (s : net.State)
        → scan_and_reveal net rv tenant_id j s ≡ filled (fill j) (reveal_all (tokens j) s)
    scan-filled null s = refl
    scan-filled (bool b) s = refl
    scan-filled (num n) s = refl
    scan-filled (str t) s = ground arith
    scan-filled (arr xs) s = ground (arith, scan_items-filled xs s)
    scan-filled (obj fs) s = ground (arith, scan_fields-filled fs s)

    scan_items-filled :
        (xs : Items) (s : net.State)
        → scan_items net rv tenant_id xs s
          ≡ filled (fill_items xs) (reveal_all (tokens_of_items xs) s)
    scan_items-filled nil s = refl
    scan_items-filled (cons x xs) s = ground (
      arith,
      scan-filled x s,
      scan_items-filled xs (reveal_all (tokens x) s).1,
      first_part (fill x) (fill_items xs) cons (length (tokens x)) (tokens_of_items xs)
          (reveal_all (tokens x) s) (length-reveal_all (tokens x) s),
      reveal_all-append (tokens x) (tokens_of_items xs) s,
    )

    scan_fields-filled :
        (fs : Fields) (s : net.State)
        → scan_fields net rv tenant_id fs s
          ≡ filled (fill_fields fs) (reveal_all (tokens_of_fields fs) s)
    scan_fields-filled end s = refl
    scan_fields-filled (field k v fs) s = ground (
      arith,
      scan-filled v s,
      scan_fields-filled fs (reveal_all (tokens v) s).1,
      first_part (fill v) (fill_fields fs) (field k) (length (tokens v)) (tokens_of_fields fs)
          (reveal_all (tokens v) s) (length-reveal_all (tokens v) s),
      reveal_all-append (tokens v) (tokens_of_fields fs) s,
    )

  -- ScanAndReveal reveals the payload's tokens one after the other, from left to right, stops at the
  -- first that fails with its error, and otherwise puts each value in its token's place and changes
  -- nothing else.
  pub scan_and_reveal-refines :
      (j : Json) (s : net.State)
      → scan_and_reveal net rv tenant_id j s
        ≡ (let (r, s') = reveal_all (tokens j) s in (map_result (fill j) r, s'))
  scan_and_reveal-refines j s = scan-filled j s

nil_of_append : (xs ys : List Text) → xs ++ ys ≡ [] → (xs ≡ []) × (ys ≡ [])
nil_of_append [] ys h = (refl, h)
nil_of_append (x ∷ xs) ys h = cc

mutual
  unfolding tokens fill

  fill-no_tokens : (j : Json) → tokens j ≡ [] → fill j [] ≡ j
  fill-no_tokens null h = refl
  fill-no_tokens (bool b) h = refl
  fill-no_tokens (num n) h = refl
  fill-no_tokens (str t) h = ground arith
  fill-no_tokens (arr xs) h = ap arr (fill_items-no_tokens xs h)
  fill-no_tokens (obj fs) h = ap obj (fill_fields-no_tokens fs h)

  fill_items-no_tokens : (xs : Items) → tokens_of_items xs ≡ [] → fill_items xs [] ≡ xs
  fill_items-no_tokens nil h = refl
  fill_items-no_tokens (cons x xs) h =
      let (a, b) = nil_of_append (tokens x) (tokens_of_items xs) h in
      rw (a, fill-no_tokens x a, fill_items-no_tokens xs b)

  fill_fields-no_tokens : (fs : Fields) → tokens_of_fields fs ≡ [] → fill_fields fs [] ≡ fs
  fill_fields-no_tokens end h = refl
  fill_fields-no_tokens (field k v fs) h =
      let (a, b) = nil_of_append (tokens v) (tokens_of_fields fs) h in
      rw (a, fill-no_tokens v a, fill_fields-no_tokens fs b)

-- A payload with no token in it is returned as it is, and nothing is sent.
pub scan_and_reveal-no_tokens :
    (net : Network) (rv : Revealer) (tenant_id : Text) (j : Json) (s : net.State)
    → tokens j ≡ []
    → scan_and_reveal net rv tenant_id j s ≡ (ok j, s)
unfolding reveal_all
scan_and_reveal-no_tokens net rv tenant_id j s h =
    rw (scan_and_reveal-refines net rv tenant_id j s, h, fill-no_tokens j h)
