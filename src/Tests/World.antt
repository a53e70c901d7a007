-- ===== src/Tests/World.antt =====
-- A world where nothing fails: keys and nonces are repeated bytes, and the cipher appends sixteen zeros.
use vaulty.Prelude.{
  pos, ◌-◌, true, false, Option, none, some, [], ◌∷◌, ◌++◌, ◌≡◌, refl, Text, text, text_eq,
  text_eq_iff, text_eq_refl, Bytes, length, take, replicate, length-append, length-replicate,
  take-append, if◌then◌else◌, arith, ap,
}
use vaulty.Model.{Tenant, TenantStatus}
use vaulty.World.{Redis, Reply, RedisLaws, World, CryptoLaws}
use vaulty.Store.{Store}
use vaulty.Auth.{Context}
use vaulty.Handler.Health.{Pings}
use vaulty.Handler.Tokenize.{TokenizeConfig}

abbrev reply_of : Option Bytes → Reply
reply_of none = Reply.nil
reply_of (some v) = Reply.value v

-- Redis as a function from keys.
abbrev pub map_redis : Redis
map_redis = record {
  Cache = Text → Option Bytes;
  set = λ k v d c. (true, λ j. if text_eq k j then some v else c j);
  get = λ k c. reply_of (c k);
  get_del = λ k c. (reply_of (c k), λ j. if text_eq k j then none else c j);
  del = λ k c. (true, λ j. if text_eq k j then none else c j);
  ttl = λ k c. elim (c k) [ none ↦ none | some v ↦ some 60 ];
}

pub map_redis_laws : RedisLaws map_redis
map_redis_laws = record {
  live = λ c k. c k;
  set_self = λ k v d c h. ground (arith, text_eq_refl k);
  set_other = λ k j v d c ne. ground (arith, text_eq_iff k j);
  get_value = λ k v c h. ground arith;
  get_nil = λ k c h. ground arith;
  get_del_value = λ k v c h. ground (arith, text_eq_refl k);
  get_del_nil = λ k c h. ground (arith, text_eq_refl k);
  get_del_other = λ k j c ne. ground (arith, text_eq_iff k j);
  del_self = λ k c h. ground (arith, text_eq_refl k);
  del_other = λ k j c ne. ground (arith, text_eq_iff k j);
  ttl_live = λ k d c h. ground arith;
}

abbrev tag : Bytes
tag = replicate 16 0

abbrev unwrap : Bytes → Option Bytes
unwrap [] = none
unwrap (b ∷ bs) = some (replicate 32 b)

abbrev pub calm : World
calm = record {
  redis = map_redis;
  db_fails = λ n. false;
  rows_end = λ n. none;
  uuid = λ n. [];
  now = λ n. n;
  rand_read = λ n size. some (replicate size n);
  create_key = λ n description. some description;
  encrypt = λ n arn plain. some plain;
  generate_data_key = λ n arn. some (replicate 32 n, n ∷ []);
  decrypt = λ n blob. unwrap blob;
  gcm_seal = λ key iv plain. some (plain ++ tag);
  gcm_open = λ key iv c. some (take (length c - 16) c);
  hmac_sha256 = λ key message. message;
  format = λ n. [];
}

opened : (plain : Bytes) → take (length (plain ++ tag) - 16) (plain ++ tag) ≡ plain
opened plain =
    let e : length (plain ++ tag) - 16 ≡ length plain = omega (arith, length-append plain tag) in
    rw (e, take-append plain tag) refl

pub calm_laws : CryptoLaws calm
calm_laws = record {
  open-seal = λ key iv plain {c} h. rw (← (let e : plain ++ tag ≡ c = cc in e), opened plain) refl;
  length-seal = λ key iv plain {c} h.
      omega (arith, length-append plain tag, ap length (let e : plain ++ tag ≡ c = cc in e));
  length-rand_read = λ n size {b} h.
      omega (arith, length-replicate size n, ap length (let e : replicate size n ≡ b = cc in e));
  decrypt-generate = λ n m arn {dek} {blob} {out} made got. cc;
}

abbrev pub merchant : Tenant
merchant = record {
  id = [];
  tenant_id = text "merchant_1";
  name = text "Merchant";
  status = TenantStatus.active;
  kms_key_arn = text "arn";
  created_at = 0;
  updated_at = 0;
}

abbrev pub fresh : Store map_redis.Cache
fresh = record {
  tenants = merchant ∷ [];
  tokens = [];
  vault_entries = [];
  audit_log = [];
  cache = λ k. none;
  calls = 0;
}

abbrev pub cfg : TokenizeConfig
cfg = record { hmac_key = text "key"; cvv_ttl = pos 300 }

abbrev pub pings : Pings
pings = record { database = some (λ n. true); redis = some (λ n. true); kms = some (λ n. true) }

abbrev pub ctx : Context
ctx = record { correlation_id = text "c"; service_identity = text "proxy"; tenant = some merchant }

abbrev pub visa : Text
visa = text "4111111111111111"
