-- ===== src/Kms.antt =====
-- internal/kms/client.go: the client and the calls that name its own key. The calls for a tenant's key
-- are in Crypto.
use vaulty.Prelude.{
  ◌++◌, Option, none, some, [], Text, text, text_eq, Bytes, if◌then◌else◌, Result, ok, err,
}
use vaulty.World.{World}
use vaulty.Store.{Action, tick}
use vaulty.Crypto.{generate_data_key_with_arn}

-- The endpoint is AWS's own unless one is given.
pub record KmsClient : Type 0 where
  pub key_arn : Text
  pub region : Text
  pub endpoint : Option Text

-- `load_default_config region` is the error of the AWS library, if any.
unfoldable pub new_client :
    (load_default_config : Text → Option Text) → Text → Text → Text → Result KmsClient
new_client load_default_config key_arn region endpoint = elim (load_default_config region) [
  | some e ↦ err (text "kms load config: " ++ e)
  | none ↦ ok (record {
    key_arn = key_arn;
    region = region;
    endpoint = if text_eq endpoint [] then none else some endpoint;
  })
]

module _ (w : World) (client : KmsClient) where
  unfoldable pub generate_data_key : Action w.redis.Cache (Option (Bytes × Bytes))
  generate_data_key = generate_data_key_with_arn w client.key_arn

  unfoldable pub wrap_key : Bytes → Action w.redis.Cache (Option Bytes)
  wrap_key dek s = (w.encrypt s.calls client.key_arn dek, tick s)
