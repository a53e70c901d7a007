-- ===== src/Vaulted/Replaced.antt =====
-- A new CVV token of a PAN token takes the place of the one before.
use vaulty.Prelude.{
  ℤ, true, some, none, ◌≡◌, ◌≢◌, ◌⊎◌, refl, ◌∙◌, Text, text_eq_iff, arith, [], inl, inr, Bool-cases,
}
use vaulty.World.{World, RedisLaws, Reply}
use vaulty.Store.{Store, tick}
use vaulty.Cvv.{
  cvv_token_key, cvv_token_owner_key, invalidate_previous_cvv_token, delete_previous,
  set_cvv_token_owner,
}
use vaulty.Cvv.Keys.{keys_apart}

module _ (w : World) (laws : RedisLaws w.redis) (tenant_id : Text) where
  deleted_cache :
      (prev : Text) (r : Reply) (s : Store w.redis.Cache)
      → r ≡ Reply.value prev
      → prev ≢ []
      → (delete_previous w tenant_id r s).1.cache
        ≡ (w.redis.del (cvv_token_key tenant_id prev) s.cache).1
  unfolding delete_previous
  deleted_cache prev r s e named = ground (arith, e, text_eq_iff prev [])

-- Where a PAN token already owns a CVV token, and its removal does not fail, the new one replaces it:
-- the old token's key is gone, the owner's key, unless its SET failed, holds the new token, and every
-- other key of Redis has the value it had.
pub invalidate_previous-replaces :
    (w : World) (laws : RedisLaws w.redis) (tenant_id pan_token_id prev new : Text) (ttl : ℤ)
    (s : Store w.redis.Cache)
    → w.redis.get (cvv_token_owner_key tenant_id pan_token_id) s.cache ≡ Reply.value prev
    → prev ≢ []
    → (w.redis.del (cvv_token_key tenant_id prev) s.cache).0 ≡ true
    → let (done, t) = invalidate_previous_cvv_token w tenant_id pan_token_id new ttl s in
      (laws.live t.cache (cvv_token_key tenant_id prev) ≡ none)
      × ((done ≡ none)
          ⊎ (laws.live t.cache (cvv_token_owner_key tenant_id pan_token_id) ≡ some new))
      × ((k : Text)
          → k ≢ cvv_token_key tenant_id prev
          → k ≢ cvv_token_owner_key tenant_id pan_token_id
          → laws.live t.cache k ≡ laws.live s.cache k)
unfolding invalidate_previous_cvv_token set_cvv_token_owner
invalidate_previous-replaces w laws tenant_id pan_token_id prev new ttl s owned named done =
    let old = cvv_token_key tenant_id prev in
    let owner = cvv_token_owner_key tenant_id pan_token_id in
    let c = (w.redis.del old s.cache).1 in
    let e = deleted_cache w laws tenant_id prev _ (tick s) owned named in
    let apart : old ≢ owner = (keys_apart tenant_id tenant_id prev pan_token_id).2 in
    rw e (
      laws.set_other owner old new ttl c apart ∙ laws.del_self old s.cache done,
      elim (Bool-cases (w.redis.set owner new ttl c).0) [
        | inl stored ↦ inr (laws.set_self owner new ttl c stored)
        | inr failed ↦ inl (rw failed refl)
      ],
      λ k not_old not_owner.
          laws.set_other owner k new ttl c not_owner ∙ laws.del_other old k s.cache not_old,
    )
