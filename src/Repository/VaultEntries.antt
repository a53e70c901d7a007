-- ===== src/Repository/VaultEntries.antt =====
-- internal/repository/vault_repo.go, over the table of migrations 002 and 006.
use vaulty.Prelude.{Bool, not, ◌&&◌, Option, [], ◌∷◌, ◌++◌, Text, text_eq, find, any}
use vaulty.Model.{VaultEntry, Token}
use vaulty.World.{World}
use vaulty.Store.{Store, Action}
use vaulty.Repository.Rows.{fits, query, exec}

-- WHERE tenant_id = $1 AND token_id = $2
abbrev pub is_entry_of : Text → Text → VaultEntry → Bool
is_entry_of tenant_id token_id e = text_eq e.tenant_id tenant_id && text_eq e.token_id token_id

abbrev pub entry_clashes : VaultEntry → VaultEntry → Bool
entry_clashes e f = text_eq f.token_id e.token_id

abbrev pub is_referred : VaultEntry → Token → Bool
is_referred e t = text_eq t.token_id e.token_id

-- One entry for a token id, the foreign key to tokens and the columns' widths.
abbrev pub entry_allowed : {C : Type 0} → VaultEntry → Store C → Bool
entry_allowed e s =
    not (any (entry_clashes e) s.vault_entries)
    && (any (is_referred e) s.tokens
        && (fits 64 e.token_id && (fits 256 e.kms_key_id && fits 64 e.tenant_id)))

module _ (w : World) where
  abbrev pub entry_row : VaultEntry → Store w.redis.Cache → VaultEntry
  entry_row e s = record e { id = w.uuid s.calls; created_at = w.now s.calls }

  unfoldable pub create : VaultEntry → Action w.redis.Cache (Option (Unit {0}))
  create e =
      exec w (entry_allowed e)
        (λ s. record s { vault_entries = s.vault_entries ++ entry_row e s ∷ [] })

  -- The entry read is given the tenant asked for, which is the row's own.
  unfoldable pub find_by_token_id : Text → Text → Action w.redis.Cache (Option (Option VaultEntry))
  find_by_token_id tenant_id token_id =
      query w (λ s. find (is_entry_of tenant_id token_id) s.vault_entries)
