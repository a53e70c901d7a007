-- ===== src/Startup.antt =====
-- cmd/tokenizer/main.go and cmd/proxy/main.go up to the router, and cmd/migrate/main.go: what is read
-- from the environment, in which order, and what ends the program. The connections themselves are
-- opened by libraries.
pub mod Migrate
pub mod Defaults
use vaulty.World.{World}
use vaulty.Handler.Health.{Pings}
use vaulty.Prelude.{
  ℕ, ℤ, is_some, some, Bool, true, false, Option, none, some, [], ◌++◌, Text, text, text_eq, Bytes,
  if◌then◌else◌, Result, ok, err,
}
use vaulty.Prelude.Results.{◌>>=◌, wrapped}
use vaulty.Config.{Config, load}
use vaulty.Kms.{KmsClient, new_client}
use vaulty.Handler.Tokenize.{TokenizeConfig}
use vaulty.Proxy.Revealer.{Revealer, new_revealer}
use vaulty.Server.Run.{Ending, run}

-- `os.Getenv`, "" for a name that is not set, and the libraries' functions: each error is its text.
pub record Libraries : Type 0 where
  pub getenv : Text → Text
  pub parse_duration : Text → Option ℤ
  pub open_postgres : Text → Option Text
  pub parse_redis_url : Text → Option Text
  pub load_aws_config : Text → Option Text
  pub decode_base64 : Text → Result Bytes

-- What the handlers of the tokenizer are made from.
pub record Tokenizer : Type 0 where
  pub database_url : Text
  pub redis_url : Text
  pub kms : KmsClient
  pub tokenize_config : TokenizeConfig
  pub port : Text

-- The check of KMS that the tokenizer's /health makes: a data key for the service's own key. The
-- answers of the two servers to a ping are parameters.
unfoldable pub tokenizer_pings : World → KmsClient → (ℕ → Bool) → (ℕ → Bool) → Pings
tokenizer_pings w client database redis = record {
  database = some database;
  redis = some redis;
  kms = some (λ n. is_some (w.generate_data_key n client.key_arn));
}

pub record ProxyService : Type 0 where
  pub revealer : Revealer
  pub port : Text

abbrev checked : {A : Type 0} → Option Text → A → Result A
checked none a = ok a
checked (some e) a = err e

-- The text of a fatal error is what log.Fatalf prints; time.ParseDuration's own words are left out.
module _ (lib : Libraries) where
  abbrev load_config : Result Config
  load_config = elim (load lib.getenv lib.parse_duration) [
    | none ↦ err (text "load config: invalid duration")
    | some cfg ↦ ok cfg
  ]

  unfoldable pub tokenizer_main : Result Tokenizer
  unfolding load new_client
  tokenizer_main = do
    cfg ← load_config
    database ←
        wrapped (text "init postgres: ")
          (checked (lib.open_postgres cfg.database_url) cfg.database_url)
    redis ←
        wrapped (text "parse redis url: ")
          (checked (lib.parse_redis_url cfg.redis_url) cfg.redis_url)
    client ←
        wrapped (text "init kms: ")
          (new_client lib.load_aws_config cfg.kms_key_arn cfg.aws_region cfg.kms_endpoint)
    key ← wrapped (text "decode hmac key: ") (lib.decode_base64 cfg.hmac_key)
    ok (record {
      database_url = database;
      redis_url = redis;
      kms = client;
      tokenize_config = record { hmac_key = key; cvv_ttl = cfg.cvv_ttl };
      port = cfg.port_tokenizer;
    })

  abbrev pub tokenizer_base_url : Config → Text
  tokenizer_base_url cfg =
      if text_eq (lib.getenv (text "TOKENIZER_BASE_URL")) []
      then text "http://localhost:" ++ cfg.port_tokenizer
      else lib.getenv (text "TOKENIZER_BASE_URL")

  abbrev pub proxy_auth : Text
  proxy_auth =
      if text_eq (lib.getenv (text "PROXY_AUTH_HEADER")) []
      then text "Bearer proxy:secret"
      else lib.getenv (text "PROXY_AUTH_HEADER")

  unfoldable pub proxy_main : Result ProxyService
  unfolding load
  proxy_main = do
    cfg ← load_config
    ok (record {
      revealer = new_revealer (tokenizer_base_url cfg) proxy_auth;
      port = cfg.port_proxy;
    })

-- What log.Fatalf prints of server.Run's error, if any.
abbrev server_error : Option Text → Option Text
server_error none = none
server_error (some e) = some (text "server: " ++ e)

-- The fatal error that a service ends with, if any, where `ending` and `shutdown` are as for `run`.
module _ (lib : Libraries) (ending : Ending) (shutdown : Option Text) where
  unfoldable pub tokenizer_exit : Option Text
  tokenizer_exit = elim (tokenizer_main lib) [
    | err e ↦ some e
    | ok t ↦ server_error (run ending shutdown)
  ]

  unfoldable pub proxy_exit : Option Text
  proxy_exit = elim (proxy_main lib) [ err e ↦ some e | ok p ↦ server_error (run ending shutdown) ]
