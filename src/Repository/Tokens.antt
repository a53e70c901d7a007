-- ===== src/Repository/Tokens.antt =====
-- internal/repository/token_repo.go, over the table of migrations 001 and 005.
use vaulty.Prelude.{
  ℕ, Bool, true, not, ◌&&◌, ◌||◌, Option, none, some, [], ◌∷◌, ◌++◌, Text, text_eq, find, any,
  update,
}
use vaulty.Model.{Token, TokenStatus, Tenant}
use vaulty.World.{World}
use vaulty.Store.{Store, Action}
use vaulty.Repository.Rows.{fits, query, exec}

-- WHERE tenant_id = $1 AND token_id = $2
abbrev pub has_token_id : Text → Text → Token → Bool
has_token_id tenant_id token_id t = text_eq t.tenant_id tenant_id && text_eq t.token_id token_id

-- WHERE tenant_id = $1 AND pan_blind_index = $2
abbrev pub has_blind_index : Text → Text → Token → Bool
has_blind_index tenant_id index t = text_eq t.tenant_id tenant_id && text_eq t.pan_blind_index index

abbrev pub is_tenant : Text → Tenant → Bool
is_tenant tenant_id t = text_eq t.tenant_id tenant_id

-- The unique indexes on token_id and on (tenant_id, pan_blind_index), the foreign key to tenants
-- and the columns' widths. Two tokens with one token id clash whatever their tenants.
abbrev pub token_clashes : Token → Token → Bool
token_clashes t u = text_eq u.token_id t.token_id || has_blind_index t.tenant_id t.pan_blind_index u

abbrev pub token_allowed : {C : Type 0} → Token → Store C → Bool
token_allowed t s =
    not (any (token_clashes t) s.tokens)
    && (any (is_tenant t.tenant_id) s.tenants
        && (fits 64 t.token_id && (fits 64 t.pan_blind_index && fits 64 t.tenant_id)))

module _ (w : World) where
  -- The row as the INSERT makes it, with the defaults of the columns that it leaves out.
  abbrev pub token_row : Token → Store w.redis.Cache → Token
  token_row t s = record t {
    id = w.uuid s.calls;
    created_at = w.now s.calls;
    updated_at = w.now s.calls;
    last_used_at = none;
  }

  unfoldable pub create : Token → Action w.redis.Cache (Option (Unit {0}))
  create t = exec w (token_allowed t) (λ s. record s { tokens = s.tokens ++ token_row t s ∷ [] })

  unfoldable pub find_by_blind_index : Text → Text → Action w.redis.Cache (Option (Option Token))
  find_by_blind_index tenant_id index =
      query w (λ s. find (has_blind_index tenant_id index) s.tokens)

  unfoldable pub find_by_token_id : Text → Text → Action w.redis.Cache (Option (Option Token))
  find_by_token_id tenant_id token_id =
      query w (λ s. find (has_token_id tenant_id token_id) s.tokens)

  unfoldable pub update_status :
      Text → Text → TokenStatus → Action w.redis.Cache (Option (Unit {0}))
  update_status tenant_id token_id status =
      exec w (λ s. true)
        (λ s. record s {
          tokens =
              update (has_token_id tenant_id token_id)
                (λ t. record t { status = status; updated_at = w.now s.calls }) s.tokens;
        })

  unfoldable pub update_expiry : Text → Text → ℕ → ℕ → Action w.redis.Cache (Option (Unit {0}))
  update_expiry tenant_id token_id month year =
      exec w (λ s. true)
        (λ s. record s {
          tokens =
              update (has_token_id tenant_id token_id)
                (λ t. record t {
                  expiry_month = month;
                  expiry_year = year;
                  updated_at = w.now s.calls;
                })
                s.tokens;
        })

  unfoldable pub update_last_used : Text → Text → Action w.redis.Cache (Option (Unit {0}))
  update_last_used tenant_id token_id =
      exec w (λ s. true)
        (λ s. record s {
          tokens =
              update (has_token_id tenant_id token_id)
                (λ t. record t { last_used_at = some (w.now s.calls); updated_at = w.now s.calls })
                s.tokens;
        })
