-- ===== src/Repository/Rows.antt =====
-- What the repositories share: running a statement, and the limit of a VARCHAR column.
use vaulty.Prelude.{
  ℕ, ◌+◌, Bool, true, false, not, ◌&&◌, ◌||◌, Option, none, some, List, [], ◌∷◌, Text, leb, ltb,
  take, drop, if◌then◌else◌,
}
use vaulty.World.{World}
use vaulty.Store.{Store, Action, tick}

-- The characters of a UTF-8 text: its bytes without the continuation bytes.
abbrev pub char_count : Text → ℕ
char_count [] = 0
char_count (b ∷ bs) = (if leb 0x80 b && ltb b 0xC0 then 0 else 1) + char_count bs

abbrev pub fits : ℕ → Text → Bool
fits limit t = leb (char_count t) limit

-- ORDER BY created_at DESC: a row goes before the rows that are not younger. SQL leaves the order
-- of equally old rows open; here the one inserted later comes first.
module _ {A : Type 0} (created_at : A → ℕ) where
  unfoldable pub insert_by_age : A → List A → List A
  insert_by_age a [] = a ∷ []
  insert_by_age a (b ∷ bs) =
      if leb (created_at b) (created_at a) then a ∷ b ∷ bs else b ∷ insert_by_age a bs

  unfoldable pub newest_first_from : List A → List A → List A
  newest_first_from sorted [] = sorted
  newest_first_from sorted (a ∷ as') = newest_first_from (insert_by_age a sorted) as'

  unfoldable pub newest_first : List A → List A
  unfolding newest_first_from insert_by_age
  newest_first rows = newest_first_from [] rows

  -- ORDER BY created_at DESC LIMIT $limit OFFSET $offset
  abbrev pub page : ℕ → ℕ → List A → List A
  page limit offset rows = take limit (drop offset (newest_first rows))

-- The rows up to where the reading broke off, if it did.
abbrev pub read_until : {A : Type 0} → Option ℕ → List A → List A
read_until none rows = rows
read_until (some n) rows = take n rows

abbrev pub executed : {C : Type 0} → Bool → Store C → Store C → Option (Unit {0}) × Store C
executed true before after = (none, tick before)
executed false before after = (some tt, tick after)

module _ (w : World) where
  -- A query of one row: what it found, or an error of the server's own.
  unfoldable pub query : {A : Type 0} → (Store w.redis.Cache → A) → Action w.redis.Cache (Option A)
  query f s = (if w.db_fails s.calls then none else some (f s), tick s)

  -- A query of several rows, read by `for rows.Next()`. No caller asks rows.Err() afterwards, so rows
  -- that are not read any more are missing from the result, which is no error.
  abbrev pub query_rows :
      {A : Type 0} → (Store w.redis.Cache → List A) → Action w.redis.Cache (Option (List A))
  query_rows rows = query (λ s. read_until (w.rows_end s.calls) (rows s))

  -- A statement that writes, if its constraints allow it.
  unfoldable pub exec :
      (Store w.redis.Cache → Bool)
      → (Store w.redis.Cache → Store w.redis.Cache)
      → Action w.redis.Cache (Option (Unit {0}))
  exec allowed change s = executed (w.db_fails s.calls || not (allowed s)) s (change s)
