-- ===== src/Handler/Health.antt =====
-- internal/handler/health.go: GET /health of either service.
use vaulty.Prelude.{ℕ, Bool, true, ◌&&◌, Option, none, some, [], Text, text, if◌then◌else◌}
use vaulty.Server.{Response, Body}
use vaulty.Store.{Action, tick}

-- The checks of a service, `none` where it has no such dependency: whether it answers if the check is
-- the n-th external call.
pub record Pings : Type 0 where
  pub database : Option (ℕ → Bool)
  pub redis : Option (ℕ → Bool)
  pub kms : Option (ℕ → Bool)

abbrev report : Option Bool → Text
report none = []
report (some up) = if up then text "up" else text "down"

abbrev is_fine : Option Bool → Bool
is_fine none = true
is_fine (some up) = up

abbrev all_up : Option Bool → Option Bool → Option Bool → Bool
all_up database redis kms = is_fine database && (is_fine redis && is_fine kms)

abbrev pub health_response : Option Bool → Option Bool → Option Bool → Response
health_response database redis kms =
    let up = all_up database redis kms in
    record {
      status = if up then 200 else 503;
      body =
          Body.health (if up then text "healthy" else text "unhealthy")
            (record { database = report database; redis = report redis; kms = report kms });
    }

module _ {C : Type 0} where
  unfoldable pub check : Option (ℕ → Bool) → Action C (Option Bool)
  check none s = (none, s)
  check (some answers) s = (some (answers s.calls), tick s)

  -- HealthHandler.ServeHTTP
  unfoldable pub health : Pings → Action C Response
  unfolding check
  health p s =
      let (database, s₁) = check p.database s in
      let (redis, s₂) = check p.redis s₁ in
      let (kms, s₃) = check p.kms s₂ in (health_response database redis kms, s₃)

-- NewProxyHealthHandler: neither database, nor Redis, nor KMS
abbrev pub proxy_pings : Pings
proxy_pings = record { database = none; redis = none; kms = none }
