-- ===== src/Auth.antt =====
-- internal/auth and the correlation ID of internal/server: the middleware. A middleware hands on the
-- request's context, changed, or writes a response; a context value that was not set is "" or `none`.
use vaulty.Prelude.{
  Bytes, replicate, Bool, true, false, not, ◌||◌, Option, none, some, List, [], ◌∷◌, Text, text,
  text_eq, ◌==◌, length, take, drop, any, if◌then◌else◌,
}
use vaulty.Model.{Tenant, TenantStatus, is_active_tenant}
use vaulty.Server.{bad_request, unauthorized, forbidden, not_found, internal_error}
use vaulty.World.{World}
use vaulty.Store.{Handler, Outcome, go, reply, ◌>>=◌, ◌>>◌, pure, or_reply, require, present, tick}
use vaulty.Pattern.{tenant_id_pattern}
use vaulty.Crypto.{hex}
use vaulty.Repository

-- The parts of a request that the middleware reads: three headers, "" if missing, and the common name
-- of the first client certificate, `none` without TLS or without a certificate.
pub record Request : Type 0 where
  pub authorization : Text
  pub x_tenant_id : Text
  pub x_correlation_id : Text
  pub peer_common_name : Option Text

pub record Context : Type 0 where
  pub correlation_id : Text
  pub service_identity : Text
  pub tenant : Option Tenant

abbrev pub background : Context
background = record { correlation_id = []; service_identity = []; tenant = none }

abbrev pub starts_with : Text → Text → Bool
starts_with prefix t = text_eq (take (length prefix) t) prefix

-- `strings.SplitN(token, ":", 2)[0]`
unfoldable pub before_colon : Text → Text
before_colon [] = []
before_colon (b ∷ bs) = if b == b':' then [] else b ∷ before_colon bs

pub data Role : Type 0 where
  tokenize forward manage detokenize admin : Role

abbrev role_eq : Role → Role → Bool
role_eq tokenize tokenize = true
role_eq forward forward = true
role_eq manage manage = true
role_eq detokenize detokenize = true
role_eq admin admin = true
role_eq _ _ = false

unfoldable pub service_roles : Text → Option (List Role)
service_roles identity =
    if text_eq identity (text "tokenizer")
    then some (tokenize ∷ manage ∷ detokenize ∷ [])
    else if text_eq identity (text "proxy")
    then some (forward ∷ detokenize ∷ [])
    else if text_eq identity (text "admin")
    then some (tokenize ∷ manage ∷ admin ∷ [])
    else if text_eq identity (text "client")
    then some (tokenize ∷ forward ∷ [])
    else none

-- The middleware that reads the request and the context only.
unfoldable pub bearer_auth : Request → Context → Outcome Context
unfolding before_colon
bearer_auth r ctx =
    if text_eq r.authorization [] || not (starts_with (text "Bearer ") r.authorization)
    then reply (unauthorized ctx.correlation_id)
    else go (record ctx { service_identity = before_colon (drop 7 r.authorization) })

unfoldable pub require_mtls_cert : Text → Request → Context → Outcome Context
require_mtls_cert expected r ctx = elim r.peer_common_name [
  | none ↦
      if text_eq ctx.service_identity expected then go ctx else reply (forbidden ctx.correlation_id)
  | some cn ↦ if text_eq cn expected then go ctx else reply (forbidden ctx.correlation_id)
]

unfoldable pub require_role : Role → Context → Outcome Context
unfolding service_roles
require_role role ctx =
    if text_eq ctx.service_identity []
    then reply (unauthorized ctx.correlation_id)
    else elim (service_roles ctx.service_identity) [
      | none ↦ reply (forbidden ctx.correlation_id)
      | some roles ↦
          if any (λ r. role_eq r role) roles then go ctx else reply (forbidden ctx.correlation_id)
    ]

-- The proxy's lightweight variant, which leaves the check to the tokenizer.
unfoldable pub extract_tenant_header : Request → Context → Outcome Context
extract_tenant_header r ctx =
    if text_eq r.x_tenant_id []
    then reply (
        bad_request (text "MISSING_TENANT") (text "X-Tenant-ID header is required")
          ctx.correlation_id)
    else go (record ctx {
      tenant = some (record {
        id = [];
        tenant_id = r.x_tenant_id;
        name = [];
        status = TenantStatus.unset;
        kms_key_arn = [];
        created_at = 0;
        updated_at = 0;
      });
    })

-- The buffer of 16 bytes after rand.Read, whose error is dropped: it stays zero then.
abbrev pub read_or_zero : Option Bytes → Bytes
read_or_zero none = replicate 16 0
read_or_zero (some b) = b

module _ (w : World) where
  -- The request's own correlation ID, or 16 random bytes in hexadecimal digits.
  unfoldable pub correlation_id_middleware : Request → Context → Handler w.redis.Cache Context
  correlation_id_middleware r ctx =
      if text_eq r.x_correlation_id []
      then (λ s.
          pure (record ctx { correlation_id = hex (read_or_zero (w.rand_read s.calls 16)) })
            (tick s))
      else pure (record ctx { correlation_id = r.x_correlation_id })

  unfoldable pub require_tenant : Request → Context → Handler w.redis.Cache Context
  require_tenant r ctx = do
    require (not (text_eq r.x_tenant_id [])) (
        bad_request (text "MISSING_TENANT") (text "X-Tenant-ID header is required")
          ctx.correlation_id)
    require (tenant_id_pattern r.x_tenant_id)
        (bad_request (text "INVALID_TENANT") (text "Invalid tenant ID format") ctx.correlation_id)
    found ←
        or_reply (Repository.Tenants.find_by_tenant_id w r.x_tenant_id)
          (internal_error ctx.correlation_id)
    tenant ←
        present found
          (not_found (text "TENANT_NOT_FOUND") (text "Tenant not found") ctx.correlation_id)
    require (is_active_tenant tenant.status) (forbidden ctx.correlation_id)
    pure (record ctx { tenant = some tenant })
