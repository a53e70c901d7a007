-- ===== src/Store/Keeps.antt =====
-- A predicate on the store that a step keeps.
use vaulty.Store.{Store}

-- `m` keeps `P`, whatever it returns.
pub record Keeps {C A : Type 0} (P : Store C → Type 0) (m : Store C → A × Store C) : Type 0 where
  pub at : (s : Store C) → P s → P (m s).1
