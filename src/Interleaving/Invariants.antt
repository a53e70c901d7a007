-- ===== src/Interleaving/Invariants.antt =====
-- What holds in every store that calls in progress reach, however their statements interleave.
use vaulty.Prelude.{List, Text, ◌≡◌, ◌≢◌, refl}
use vaulty.World.{World}
use vaulty.Store.{Store}
use vaulty.Handler.Health.{Pings}
use vaulty.Handler.Tokenize.{TokenizeConfig}
use vaulty.Handler.Keeps.{Scope}
use vaulty.Routes.Keeps.{Anyone}
use vaulty.Invariants.Integrity
use vaulty.Invariants.Integrity.{IsSound}
use vaulty.Invariants.History
use vaulty.Invariants.History.{Follows}
use vaulty.Isolation.{rows_of}
use vaulty.Isolation.Writes
use vaulty.Vaulted.{IsVaulted}
use vaulty.Vaulted.Durable.{IsVaulted-KeptBy, deactivate_other-Keeps}
use vaulty.Interleaving.Service.{Running, Reaches, Reaches-Keeps}

-- Any token may be deactivated.
abbrev pub AnyToken : Text → Text → Type 0
AnyToken tenant_id token_id = Unit {0}

-- Calls for other tenants.
abbrev pub Others : Text → Scope
Others tenant_id = record { tenant = λ a. a ≢ tenant_id; admin = Unit }

-- Any token but one may be deactivated.
abbrev pub Except : Text → Text → Text → Type 0
Except kept tenant_id token_id = token_id ≢ kept

module _ (w : World) (cfg : TokenizeConfig) (pings : Pings) where
  -- Calls of any tenants in progress at once, whatever the order of their statements, keep the tables
  -- sound: one row for a tenant id, a token id and a tenant's PAN, one entry for a token id, each token
  -- of a tenant that exists and each entry of a token that exists.
  pub Reaches-IsSound :
      {s t : Store w.redis.Cache} {ps : List (Running w cfg pings Anyone AnyToken)}
      → Reaches w cfg pings Anyone AnyToken s ps t
      → IsSound s
      → IsSound t
  Reaches-IsSound h sound =
      Reaches-Keeps w cfg pings Anyone AnyToken _ (Integrity.IsSound-KeptBy w)
        (λ a b own may. Integrity.update_status-Keeps w a b) h sound

  -- With calls in progress at once, whatever the order of their statements, the old tokens stay, in
  -- their order, and none that is inactive becomes active; the old entries and audit lines stay a
  -- prefix; and no new audit line shows more of a token id than its first twelve characters.
  pub Reaches-Follows :
      {s t : Store w.redis.Cache} {ps : List (Running w cfg pings Anyone AnyToken)}
      → Reaches w cfg pings Anyone AnyToken s ps t
      → Follows s t
  Reaches-Follows {s} h =
      Reaches-Keeps w cfg pings Anyone AnyToken _ (History.Follows-KeptBy w s)
        (λ a b own may. History.update_status-Keeps w s a b) h (History.Follows-refl w s)

  -- While no tenant-scoped call names a tenant, calls in progress at once leave that tenant's tokens,
  -- entries and audit lines as they were, whatever the order of their statements.
  pub rows_of-Reaches :
      (tenant_id : Text) {s t : Store w.redis.Cache}
      {ps : List (Running w cfg pings (Others tenant_id) AnyToken)}
      → Reaches w cfg pings (Others tenant_id) AnyToken s ps t
      → rows_of tenant_id t ≡ rows_of tenant_id s
  rows_of-Reaches tenant_id {s} h =
      Reaches-Keeps w cfg pings (Others tenant_id) AnyToken _
        (Writes.Untouched-KeptBy w tenant_id (rows_of tenant_id s))
        (λ a b own may. Writes.update_status-Keeps w tenant_id (rows_of tenant_id s) a b own) h refl

  pub Reaches-IsVaulted :
      (tenant_id token_id pan : Text) {s t : Store w.redis.Cache}
      {ps : List (Running w cfg pings Anyone (Except token_id))}
      → Reaches w cfg pings Anyone (Except token_id) s ps t
      → IsVaulted w tenant_id token_id pan s
      → IsVaulted w tenant_id token_id pan t
  Reaches-IsVaulted tenant_id token_id pan h v =
      Reaches-Keeps w cfg pings Anyone (Except token_id) _
        (IsVaulted-KeptBy w tenant_id token_id pan)
        (λ a b own may. deactivate_other-Keeps w tenant_id token_id pan b may a) h v
