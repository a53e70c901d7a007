-- ===== src/Repository/Invert.antt =====
-- What a statement that succeeded says.
use vaulty.Prelude.{Bool, true, false, ◌||◌, not, ◌≡◌, refl, arith, some}
use vaulty.World.{World}
use vaulty.Store.{Store, tick}
use vaulty.Repository.Rows.{query, exec, executed}

executed-some :
    {C : Type 0} (fails allowed : Bool) (s t : Store C) {u : Unit {0}} {r : Store C}
    → executed (fails || not allowed) s t ≡ (some u, r)
    → (allowed ≡ true) × (r ≡ tick t)
executed-some true allowed s t h = cc
executed-some false true s t h = (refl, cc)
executed-some false false s t h = cc

module _ (w : World) where
  pub exec-some :
      (allowed : Store w.redis.Cache → Bool) (change : Store w.redis.Cache → Store w.redis.Cache)
      (s : Store w.redis.Cache) {u : Unit {0}} {r : Store w.redis.Cache}
      → exec w allowed change s ≡ (some u, r)
      → (allowed s ≡ true) × (r ≡ tick (change s))
  unfolding exec
  exec-some allowed change s h = executed-some (w.db_fails s.calls) (allowed s) s (change s) h

  pub query-some :
      {A : Type 0} (f : Store w.redis.Cache → A) (s : Store w.redis.Cache) {a : A}
      {r : Store w.redis.Cache}
      → query w f s ≡ (some a, r)
      → (f s ≡ a) × (r ≡ tick s)
  unfolding query
  query-some f s h = ground arith
