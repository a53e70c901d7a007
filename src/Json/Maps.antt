-- ===== src/Json/Maps.antt =====
-- Reading a map after a write.
use vaulty.Prelude.{Text, ◌≡◌, refl, some, if◌then◌else◌, text_eq, text_eq_iff, text_eq_refl, arith}
use vaulty.Json.{Json, Fields, end, field, lookup, put}

pub lookup-put :
    (key j : Text) (v : Json) (fs : Fields)
    → lookup j (put key v fs) ≡ (if text_eq key j then some v else lookup j fs)
unfolding lookup put
lookup-put key j v end = refl
lookup-put key j v (field k u fs) =
    ground (arith, text_eq_iff key j, text_eq_iff k key, text_eq_iff k j, lookup-put key j v fs)

pub lookup-put_self : (key : Text) (v : Json) (fs : Fields) → lookup key (put key v fs) ≡ some v
lookup-put_self key v fs = ground (arith, lookup-put key key v fs, text_eq_refl key)
