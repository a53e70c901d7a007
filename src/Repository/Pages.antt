-- ===== src/Repository/Pages.antt =====
-- The pages that AuditRepo.FindByTokenID and TenantRepo.List return: ORDER BY, LIMIT and OFFSET.
use vaulty.Prelude.{
  min, select, Bool-cases, inl, inr, ℕ, zero, suc, ◌+◌, ◌-◌, Bool, true, ◌&&◌, List, [], ◌∷◌, ◌≡◌,
  refl, ◌∙◌, ap, leb, length, take, drop, all, arith, length-take, length-drop,
}
use vaulty.Repository.Rows.{newest_first, newest_first_from, insert_by_age, page}

module _ {A : Type 0} where
  length-select_all : (xs : List A) → length (select (λ a. true) xs) ≡ length xs
  length-select_all [] = refl
  length-select_all (x ∷ xs) = ap suc (length-select_all xs)

  pub all-take : (p : A → Bool) (n : ℕ) (xs : List A) → all p xs ≡ true → all p (take n xs) ≡ true
  all-take p zero xs h = refl
  all-take p (suc n) [] h = h
  all-take p (suc n) (x ∷ xs) h = ground (arith, all-take p n xs)

  all-drop : (p : A → Bool) (n : ℕ) (xs : List A) → all p xs ≡ true → all p (drop n xs) ≡ true
  all-drop p zero xs h = h
  all-drop p (suc n) [] h = h
  all-drop p (suc n) (x ∷ xs) h = all-drop p n xs (ground arith)

module _ {A : Type 0} (created_at : A → ℕ) where
  -- No row is younger than the one before it.
  abbrev pub newest_IsFirst : List A → Bool
  newest_IsFirst [] = true
  newest_IsFirst (a ∷ as') = all (λ b. leb (created_at b) (created_at a)) as' && newest_IsFirst as'

  count-insert_by_age :
      (p : A → Bool) (a : A) (bs : List A)
      → length (select p (insert_by_age created_at a bs)) ≡ length (select p (a ∷ bs))
  unfolding insert_by_age
  count-insert_by_age p a [] = refl
  count-insert_by_age p a (b ∷ bs) = ground (arith, count-insert_by_age p a bs)

  count-newest_first_from :
      (p : A → Bool) (sorted rows : List A)
      → length (select p (newest_first_from created_at sorted rows))
        ≡ length (select p sorted) + length (select p rows)
  unfolding newest_first_from
  count-newest_first_from p sorted [] = omega arith
  count-newest_first_from p sorted (a ∷ as') = ground (
    arith,
    count-newest_first_from p (insert_by_age created_at a sorted) as',
    count-insert_by_age p a sorted,
  )

  all-insert_by_age :
      (p : A → Bool) (a : A) (bs : List A)
      → all p (insert_by_age created_at a bs) ≡ (p a && all p bs)
  unfolding insert_by_age
  all-insert_by_age p a [] = refl
  all-insert_by_age p a (b ∷ bs) = ground (arith, all-insert_by_age p a bs)

  all-newest_first_from :
      (p : A → Bool) (sorted rows : List A)
      → all p (newest_first_from created_at sorted rows) ≡ (all p sorted && all p rows)
  unfolding newest_first_from
  all-newest_first_from p sorted [] = ground arith
  all-newest_first_from p sorted (a ∷ as') = ground (
    arith,
    all-newest_first_from p (insert_by_age created_at a sorted) as',
    all-insert_by_age p a sorted,
  )

  all-weaker :
      (p q : A → Bool) (bs : List A)
      → ((b : A) → p b ≡ true → q b ≡ true)
      → all p bs ≡ true
      → all q bs ≡ true
  all-weaker p q [] imp h = refl
  all-weaker p q (b ∷ bs) imp h = ground (arith, imp b, all-weaker p q bs imp)

  insert_by_age-newest :
      (a : A) (bs : List A)
      → newest_IsFirst bs ≡ true
      → newest_IsFirst (insert_by_age created_at a bs) ≡ true
  unfolding insert_by_age
  insert_by_age-newest a [] h = refl
  insert_by_age-newest a (b ∷ bs) h = elim (Bool-cases (leb (created_at b) (created_at a))) [
    | inl younger ↦
        let older =
          all-weaker (λ c. leb (created_at c) (created_at b))
            (λ c. leb (created_at c) (created_at a)) bs (λ c q. ground arith) (ground arith) in
        ground arith
    | inr older ↦ ground (
      arith,
      insert_by_age-newest a bs,
      all-insert_by_age (λ c. leb (created_at c) (created_at b)) a bs,
    )
  ]

  newest_first_from-newest :
      (sorted rows : List A)
      → newest_IsFirst sorted ≡ true
      → newest_IsFirst (newest_first_from created_at sorted rows) ≡ true
  unfolding newest_first_from
  newest_first_from-newest sorted [] h = h
  newest_first_from-newest sorted (a ∷ as') h =
      newest_first_from-newest (insert_by_age created_at a sorted) as'
        (insert_by_age-newest a sorted h)

  -- The rows in the order of the statement: as often each, and by their age.
  pub newest_first-orders :
      (rows : List A)
      → (newest_IsFirst (newest_first created_at rows) ≡ true)
        × ((p : A → Bool)
            → length (select p (newest_first created_at rows)) ≡ length (select p rows))
  unfolding newest_first
  newest_first-orders rows =
      (newest_first_from-newest [] rows refl, λ p. omega (arith, count-newest_first_from p [] rows))

  all-newest_first :
      (p : A → Bool) (rows : List A) → all p (newest_first created_at rows) ≡ all p rows
  unfolding newest_first
  all-newest_first p rows = all-newest_first_from p [] rows

  length-newest_first : (rows : List A) → length (newest_first created_at rows) ≡ length rows
  unfolding newest_first
  length-newest_first rows = omega (
    arith,
    length-select_all (newest_first_from created_at [] rows),
    count-newest_first_from (λ a. true) [] rows,
    length-select_all rows,
  )

  -- What a part of a list keeps of it.
  newest_IsFirst-drop :
      (n : ℕ) (rows : List A) → newest_IsFirst rows ≡ true → newest_IsFirst (drop n rows) ≡ true
  newest_IsFirst-drop zero rows h = h
  newest_IsFirst-drop (suc n) [] h = h
  newest_IsFirst-drop (suc n) (a ∷ as') h = newest_IsFirst-drop n as' (ground arith)

  pub newest_IsFirst-take :
      (n : ℕ) (rows : List A) → newest_IsFirst rows ≡ true → newest_IsFirst (take n rows) ≡ true
  newest_IsFirst-take zero rows h = refl
  newest_IsFirst-take (suc n) [] h = h
  newest_IsFirst-take (suc n) (a ∷ as') h =
      ground
        (arith, newest_IsFirst-take n as', all-take (λ b. leb (created_at b) (created_at a)) n as')

  pub page-newest :
      (limit offset : ℕ) (rows : List A) → newest_IsFirst (page created_at limit offset rows) ≡ true
  page-newest limit offset rows =
      newest_IsFirst-take limit (drop offset (newest_first created_at rows))
        (newest_IsFirst-drop offset (newest_first created_at rows) (newest_first-orders rows).0)

  pub all-page :
      (p : A → Bool) (limit offset : ℕ) (rows : List A)
      → all p rows ≡ true
      → all p (page created_at limit offset rows) ≡ true
  all-page p limit offset rows h =
      all-take p limit (drop offset (newest_first created_at rows))
        (all-drop p offset (newest_first created_at rows) (all-newest_first p rows ∙ h))

  pub length-page :
      (limit offset : ℕ) (rows : List A)
      → length (page created_at limit offset rows) ≡ min limit (length rows - offset)
  length-page limit offset rows =
      length-take limit (drop offset (newest_first created_at rows))
      ∙ ap (min limit) (
          length-drop offset (newest_first created_at rows)
          ∙ ap (λ n. n - offset) (length-newest_first rows))
