-- ===== src/Repository/Keeps.antt =====
-- The rule for a statement that writes.
use vaulty.Prelude.{Bool, true, false, ◌||◌, not, ◌≡◌, refl, arith}
use vaulty.World.{World}
use vaulty.Store.{Store, tick}
use vaulty.Store.Keeps.{Keeps}
use vaulty.Repository.Rows.{query, exec, executed}

module _ (w : World) (P : Store w.redis.Cache → Type 0)
    (failed : (s : Store w.redis.Cache) → P s → P (tick s)) where
  pub Keeps-query : {A : Type 0} (f : Store w.redis.Cache → A) → Keeps P (query w f)
  unfolding query
  Keeps-query f = record { at = failed }

  ran :
      (b : Bool) (s t : Store w.redis.Cache)
      → P (tick s)
      → (b ≡ false → P (tick t))
      → P (executed b s t).1
  ran true s t p q = p
  ran false s t p q = q refl

  pub Keeps-exec :
      (allowed : Store w.redis.Cache → Bool) (change : Store w.redis.Cache → Store w.redis.Cache)
      → ((s : Store w.redis.Cache) → allowed s ≡ true → P s → P (tick (change s)))
      → Keeps P (exec w allowed change)
  unfolding exec
  Keeps-exec allowed change h = record {
    at = λ s p.
        ran (w.db_fails s.calls || not (allowed s)) s (change s) (failed s p)
          (λ e. h s (passed (w.db_fails s.calls) (allowed s) e) p);
  }
    where
      passed : (a b : Bool) → (a || not b) ≡ false → b ≡ true
      passed a b e = ground arith
