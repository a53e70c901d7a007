-- ===== src/Cvv.antt =====
-- internal/redis/cvv_store.go: the CVV store over Redis. An error is `none`, as in the repositories.
pub mod Keys
use vaulty.Prelude.{
  ℤ, ℕ, Bool, true, false, not, ◌&&◌, Option, none, some, [], ◌++◌, Text, text, Bytes, text_eq,
  if◌then◌else◌,
}
use vaulty.World.{World, Reply}
use vaulty.Store.{Store, Action, tick}

unfoldable pub cvv_key : Text → Text → Text
cvv_key tenant_id token_id = text "cvv:" ++ (tenant_id ++ (text ":" ++ token_id))

unfoldable pub cvv_token_key : Text → Text → Text
cvv_token_key tenant_id token_id = text "cvvtok:" ++ (tenant_id ++ (text ":" ++ token_id))

unfoldable pub cvv_token_owner_key : Text → Text → Text
cvv_token_owner_key tenant_id token_id =
    text "cvvtok_owner:" ++ (tenant_id ++ (text ":" ++ token_id))

-- `err == redis.Nil` is no error: there is no value.
abbrev pub read_reply : Reply → Option (Option Bytes)
read_reply (Reply.value v) = some (some v)
read_reply Reply.nil = some none
read_reply Reply.fault = none

module _ (w : World) where
  abbrev set_key : Text → Bytes → ℤ → Action w.redis.Cache (Option (Unit {0}))
  set_key key v ttl s =
      let (done, c) = w.redis.set key v ttl s.cache in
      (if done then some tt else none, tick (record s { cache = c }))

  abbrev take_key : Text → Action w.redis.Cache (Option (Option Bytes))
  take_key key s =
      let (r, c) = w.redis.get_del key s.cache in (read_reply r, tick (record s { cache = c }))

  unfoldable pub store : Text → Text → Bytes → ℤ → Action w.redis.Cache (Option (Unit {0}))
  store tenant_id token_id encrypted ttl = set_key (cvv_key tenant_id token_id) encrypted ttl

  unfoldable pub retrieve : Text → Text → Action w.redis.Cache (Option (Option Bytes))
  retrieve tenant_id token_id = take_key (cvv_key tenant_id token_id)

  unfoldable pub store_cvv_token :
      Text → Text → Bytes → ℤ → Action w.redis.Cache (Option (Unit {0}))
  store_cvv_token tenant_id token_id encrypted ttl =
      set_key (cvv_token_key tenant_id token_id) encrypted ttl

  unfoldable pub retrieve_cvv_token : Text → Text → Action w.redis.Cache (Option (Option Bytes))
  retrieve_cvv_token tenant_id token_id = take_key (cvv_token_key tenant_id token_id)

  -- The time left, if the token exists.
  unfoldable pub exists_cvv_token : Text → Text → Action w.redis.Cache (Option ℕ)
  exists_cvv_token tenant_id token_id s =
      (w.redis.ttl (cvv_token_key tenant_id token_id) s.cache, tick s)

  unfoldable pub set_cvv_token_owner :
      Text → Text → Text → ℤ → Action w.redis.Cache (Option (Unit {0}))
  set_cvv_token_owner tenant_id pan_token_id cvv_token_id ttl =
      set_key (cvv_token_owner_key tenant_id pan_token_id) cvv_token_id ttl

  -- DEL of the previous token; its error is dropped.
  unfoldable pub delete_previous : Text → Reply → Action w.redis.Cache (Unit {0})
  delete_previous tenant_id (Reply.value prev) s =
      let deleted =
        tick (record s { cache = (w.redis.del (cvv_token_key tenant_id prev) s.cache).1 }) in
      (tt, if text_eq prev [] then s else deleted)
  delete_previous tenant_id Reply.nil s = (tt, s)
  delete_previous tenant_id Reply.fault s = (tt, s)

  unfoldable pub invalidate_previous_cvv_token :
      Text → Text → Text → ℤ → Action w.redis.Cache (Option (Unit {0}))
  unfolding delete_previous set_cvv_token_owner
  invalidate_previous_cvv_token tenant_id pan_token_id new_token_id ttl s =
      let previous = w.redis.get (cvv_token_owner_key tenant_id pan_token_id) s.cache in
      let (_, s') = delete_previous tenant_id previous (tick s) in
      set_cvv_token_owner tenant_id pan_token_id new_token_id ttl s'
