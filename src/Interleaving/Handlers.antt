-- ===== src/Interleaving/Handlers.antt =====
-- The code of the handlers, put together like their do blocks.
pub mod Tenants
pub mod Ensures
use vaulty.Prelude.{ℕ, Option, none, some, [], ◌∷◌, Text, text, ◌≡◌}
use vaulty.Json.{Fields, Json, put, str}
use vaulty.Model.{Token, TokenStatus, Tenant as TenantRow}
use vaulty.World.{World}
use vaulty.Store.{Store}
use vaulty.Repository
use vaulty.Repository.Rows.{query}
use vaulty.Auth.{Context}
use vaulty.Handler.Keeps.{Scope}
use vaulty.Handler.Tokenize
use vaulty.Handler.Tokenize.{TokenizeConfig}
use vaulty.Handler.Detokenize
use vaulty.Handler.TokenManage
use vaulty.Handler.Tenant
use vaulty.Handler.Tenant.{CreateTenantRequest}
use vaulty.Interleaving.Code.{
  Statement, insert_token, touch_token, deactivate_token, insert_entry, insert_tenant,
  deactivate_tenant,
}
use vaulty.Interleaving.Program.{
  programs, Program, Program-step, Program-pure, Program-respond, Program-succeed, Program-call,
  Program-or_reply, Program-present, Program-require, Program-bind, Program-chain,
}
use vaulty.Interleaving.Program.Known.{Program-bind_present}
use vaulty.Interleaving.Actions.{
  Program-query, Program-log, Program-token_id, Program-encrypt_pan, Program-store_cvv,
  Program-invalidate, Program-decrypt_pan, Program-retrieve_cvv, Program-exists, Program-create_key,
}

module _ (w : World) (cfg : TokenizeConfig) (scope : Scope) (changes : Text → Text → Type 0) where
  abbrev Runs : {R : Type 0} → (Store w.redis.Cache → R × Store w.redis.Cache) → Type 1
  Runs m = Program w scope changes m

  -- The tenant of the request, if there is one, is one of those.
  abbrev pub OwnTenant : Context → Type 0
  OwnTenant ctx = (t : TenantRow) → ctx.tenant ≡ some t → scope.tenant t.tenant_id

  create_pan_token-Runs :
      (ctx : Context) (t : TenantRow) (pan index : Text)
      → scope.tenant t.tenant_id
      → Runs (Tokenize.create_pan_token w cfg ctx t pan index)
  unfolding Tokenize.create_pan_token
  create_pan_token-Runs ctx t pan index own =
      Program-bind _ _ (Program-or_reply _ _ (Program-token_id w cfg scope changes)) λ id.
        Program-bind _ _ (Program-or_reply _ _ (Program-encrypt_pan w cfg scope changes _ _))
          λ sealed.
            Program-bind _ _ (Program-or_reply _ _ (Program-step _ (insert_token _ own))) λ u.
              Program-bind _ _ (Program-or_reply _ _ (Program-step _ (insert_entry _ own)))
                λ v. Program-pure id

  reuse_or_create-Runs :
      (ctx : Context) (t : TenantRow) (pan index : Text) (found : Option Token)
      → scope.tenant t.tenant_id
      → Runs (Tokenize.reuse_or_create w cfg ctx t pan index found)
  unfolding Tokenize.reuse_or_create
  reuse_or_create-Runs ctx t pan index (some u) own = Program-pure _
  reuse_or_create-Runs ctx t pan index none own = search (programs, create_pan_token-Runs)

  token_of_pan-Runs :
      (ctx : Context) (t : TenantRow) (pan : Text)
      → scope.tenant t.tenant_id
      → Runs (Tokenize.token_of_pan w cfg ctx t pan)
  unfolding Tokenize.token_of_pan Repository.Tokens.find_by_blind_index
  token_of_pan-Runs ctx t pan own =
      search (programs, Program-query w cfg scope changes, reuse_or_create-Runs)

  process_pan-Runs :
      (ctx : Context) (t : TenantRow) (body : Fields) (v : Option Json)
      → scope.tenant t.tenant_id
      → Runs (Tokenize.process_pan w cfg ctx t body v)
  unfolding Tokenize.process_pan
  process_pan-Runs ctx t body none own = Program-pure _
  process_pan-Runs ctx t body (some v) own =
      search (programs, token_of_pan-Runs, Program-log w cfg scope changes) depth 16

  pub process_cvv-Runs :
      (ctx : Context) (t : TenantRow) (id : Text) (body : Fields) (v : Option Json)
      → scope.tenant t.tenant_id
      → Runs (Tokenize.process_cvv w cfg ctx t id body v)
  unfolding Tokenize.process_cvv
  process_cvv-Runs ctx t id body none own = Program-pure _
  process_cvv-Runs ctx t id body (some v) own = Program-bind _ _ (Program-present _ _) λ cvv.
      Program-bind _ _ (Program-require _ _) λ valid.
        Program-bind _ _ (Program-or_reply _ _ (Program-token_id w cfg scope changes)) λ token_id.
          Program-bind _ _
            (Program-or_reply _ _ (Program-store_cvv w cfg scope changes _ token_id cvv))
            λ stored.
              Program-bind _ _
                (Program-call _ (Program-invalidate w cfg scope changes _ id token_id))
                λ invalidated.
                  Program-bind _ _ (Program-call _ (Program-log w cfg scope changes _ _ _ _ _ own))
                    λ logged. Program-pure _

  pub tokenize-Runs :
      (ctx : Context) (body : Option Fields)
      → OwnTenant ctx
      → Runs (Tokenize.tokenize w cfg ctx body)
  unfolding Tokenize.tokenize
  tokenize-Runs ctx body owns = Program-bind _ _ (Program-present _ _) λ b.
      Program-bind _ _ (Program-require _ _) λ u. Program-bind_present _ _ _ λ t has.
        Program-bind _ _ (process_pan-Runs ctx t b _ (owns t has)) λ pan.
          Program-bind _ _ (process_cvv-Runs ctx t pan.0 pan.2 _ (owns t has)) λ b'. Program-pure _

  answer_cvv-Runs :
      (ctx : Context) (a b cvv : Text) → scope.tenant a → Runs (Detokenize.answer_cvv w ctx a b cvv)
  unfolding Detokenize.answer_cvv
  answer_cvv-Runs ctx a b [] own = Program-respond _
  answer_cvv-Runs ctx a b (c ∷ cs) own =
      Program-bind _ _ (Program-call _ (Program-log w cfg scope changes _ _ _ _ _ own))
        λ logged. Program-pure _

  reveal-Runs :
      (ctx : Context) (a b : Text) (found : Option Token)
      → scope.tenant a
      → Runs (Detokenize.reveal w ctx a b found)
  unfolding Detokenize.reveal Detokenize.reveal_pan Detokenize.reveal_cvv
  reveal-Runs ctx a b (some t) own = Program-bind _ _ (Program-require _ _) λ active.
      Program-bind _ _ (Program-or_reply _ _ (Program-decrypt_pan w cfg scope changes a b)) λ pan.
        Program-bind _ _ (Program-call _ (Program-step _ (touch_token a b own))) λ touched.
          Program-bind _ _ (Program-call _ (Program-log w cfg scope changes _ _ _ _ _ own))
            λ logged. Program-pure _
  reveal-Runs ctx a b none own =
      Program-bind _ _ (Program-call _ (Program-retrieve_cvv w cfg scope changes a b))
        λ cvv. answer_cvv-Runs ctx a b cvv own

  pub detokenize-Runs :
      (ctx : Context) (token_id : Option Text)
      → OwnTenant ctx
      → Runs (Detokenize.detokenize w ctx token_id)
  unfolding Detokenize.detokenize Repository.Tokens.find_by_token_id
  detokenize-Runs ctx token_id owns = Program-bind_present _ _ _ λ t has.
      Program-bind _ _ (Program-present _ _) λ id.
        Program-bind _ _ (Program-or_reply _ _ (Program-query w cfg scope changes _))
          λ found. reveal-Runs ctx t.tenant_id id found (owns t has)

  cvv_status-Runs :
      (ctx : Context) (a b : Text) (ttl : Option ℕ)
      → scope.tenant a
      → Runs (TokenManage.cvv_status w ctx a b ttl)
  unfolding TokenManage.cvv_status
  cvv_status-Runs ctx a b none own = Program-respond _
  cvv_status-Runs ctx a b (some ttl) own = search (programs, Program-log w cfg scope changes)

  pan_status-Runs :
      (ctx : Context) (a b : Text) (t : Option Token)
      → scope.tenant a
      → Runs (TokenManage.pan_status w ctx a b t)
  unfolding TokenManage.pan_status
  pan_status-Runs ctx a b (some t) own = search (programs, Program-log w cfg scope changes)
  pan_status-Runs ctx a b none own =
      search (programs, Program-exists w cfg scope changes, cvv_status-Runs)

  pub get_status-Runs :
      (ctx : Context) (token_id : Text)
      → OwnTenant ctx
      → Runs (TokenManage.get_status w ctx token_id)
  unfolding TokenManage.get_status Repository.Tokens.find_by_token_id
  get_status-Runs ctx token_id owns = Program-bind_present _ _ _ λ t has.
      let own : scope.tenant t.tenant_id = owns t has in
      search (programs, Program-query w cfg scope changes, pan_status-Runs) depth 12

  -- Two queries: the count and the page.
  pub get_audit_trail-Runs :
      (ctx : Context) (t l o : Text) → Runs (TokenManage.get_audit_trail w ctx t l o)
  unfolding TokenManage.get_audit_trail Repository.AuditLog.find_by_token_id
  get_audit_trail-Runs ctx t l o = search (programs, Program-query w cfg scope changes) depth 14

  pub deactivate-Runs :
      (ctx : Context) (token_id : Text)
      → OwnTenant ctx
      → ((a : Text) → scope.tenant a → changes a token_id)
      → Runs (TokenManage.deactivate w ctx token_id)
  unfolding TokenManage.deactivate Repository.Tokens.find_by_token_id
  deactivate-Runs ctx token_id owns may = Program-bind_present _ _ _ λ t has.
      let own : scope.tenant t.tenant_id = owns t has in
      search
        (
          programs,
          Program-query w cfg scope changes,
          Program-step,
          deactivate_token,
          may,
          Program-log w cfg scope changes,
        )
        depth 18
