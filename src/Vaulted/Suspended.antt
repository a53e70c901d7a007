-- ===== src/Vaulted/Suspended.antt =====
-- A deactivated tenant stays deactivated, and its calls are refused.
use vaulty.Prelude.{
  ℕ, some, List, ◌≡◌, ◌≢◌, inl, inr, refl, sym, ◌∙◌, ap, Text, find, find_sound, update,
  find-append_some, if◌then◌else◌, arith, Bool-cases,
}
use vaulty.Model.{Tenant, TenantStatus}
use vaulty.Server.{Response}
use vaulty.World.{World}
use vaulty.Store.{Store, tick, go}
use vaulty.Store.Keeps.{Keeps}
use vaulty.Store.Invert.{bind-go, or_reply-go, pure-go, present-go}
use vaulty.Repository
use vaulty.Repository.Keeps.{Keeps-exec}
use vaulty.Repository.Invert.{exec-some, query-some}
use vaulty.Repository.Tenants.{is_named}
use vaulty.Auth.{Context, Request}
use vaulty.Handler.Health.{Pings}
use vaulty.Handler.Tokenize.{TokenizeConfig}
use vaulty.Handler
use vaulty.Handler.Keeps.{KeptBy}
use vaulty.Routes.{Call, VaultCall, vault, answer}
use vaulty.Routes.Guards.{vault_call_allowed}
use vaulty.Routes.Keeps.{serve_all, serve_all-Keeps, Anyone, AllAllow-Anyone}
use vaulty.Vaulted.Durable.{changed, find-update}
use vaulty.Model.{TokenStatus}

module _ (w : World) (tenant_id : Text) where
  -- The table has the tenant, inactive.
  abbrev Suspended : Store w.redis.Cache → Type 0
  Suspended s =
      (t : Tenant) × (find (is_named tenant_id) s.tenants ≡ some t)
      × (t.status ≡ TenantStatus.inactive)

  failed : (s : Store w.redis.Cache) → Suspended s → Suspended (tick s)
  failed s v = v

  token_status-Keeps :
      (a b : Text) → Keeps Suspended (Repository.Tokens.update_status w a b TokenStatus.inactive)
  unfolding Repository.Tokens.update_status
  token_status-Keeps a b = Keeps-exec w _ failed _ _ (λ s _ v. v)

  suspended_row : ℕ → Tenant → Tenant
  suspended_row n t = record t { status = TenantStatus.inactive; updated_at = w.now n }

  updated-Suspended :
      (a : Text) (s : Store w.redis.Cache)
      → Suspended s
      → Suspended (record s { tenants = update (is_named a) (suspended_row s.calls) s.tenants })
  unfolding suspended_row
  updated-Suspended a s (t, found, h) = (
    if is_named a t then suspended_row s.calls t else t,
    find-update (is_named tenant_id) (is_named a) (suspended_row s.calls) s.tenants (λ t. refl)
        ∙ ap (changed (is_named a) (suspended_row s.calls)) found,
    elim (Bool-cases (is_named a t)) [ inl it ↦ rw it refl | inr other ↦ rw other h ],
  )

  Suspended-KeptBy : KeptBy w Anyone Suspended
  unfolding Repository.Tokens.create Repository.Tokens.update_last_used
      Repository.VaultEntries.create Repository.AuditLog.append Repository.Tenants.create
      Repository.Tenants.update_status suspended_row
  Suspended-KeptBy = record {
    insert_token = λ t own. Keeps-exec w _ failed _ _ (λ s _ v. v);
    touch_token = λ a b own. Keeps-exec w _ failed _ _ (λ s _ v. v);
    insert_entry = λ e own. Keeps-exec w _ failed _ _ (λ s _ v. v);
    append_audit = λ a b o t actor own. Keeps-exec w _ failed _ _ (λ s _ v. v);
    insert_tenant = λ t admin.
        Keeps-exec w _ failed _ _
          λ s _ v. (v.0, find-append_some (is_named tenant_id) s.tenants _ v.1, v.2);
    set_tenant_status = λ a admin. Keeps-exec w _ failed _ _ (λ s _ v. updated-Suspended a s v);
    cache_command = λ s c v. v;
    external_call = failed;
  }

  -- Where the tenant was found and the change of status ran.
  deactivate-Suspended :
      (ctx : Context) (s : Store w.redis.Cache) {r : Response} {t : Store w.redis.Cache}
      → Handler.Tenant.deactivate w ctx tenant_id s ≡ (go r, t)
      → Suspended t
  unfolding Handler.Tenant.deactivate Repository.Tenants.find_by_tenant_id
      Repository.Tenants.update_status suspended_row
  deactivate-Suspended ctx s {r} {t} h = bind-go _ _ s h λ found s₁ looked h₁.
      bind-go _ _ s₁ h₁ λ tenant s₂ there h₂. bind-go _ _ s₂ h₂ λ u s₃ updated h₃.
        let (row, ticked) = query-some w _ s (or_reply-go _ _ s looked) in
        let (is, stays) = present-go _ _ s₁ there in
        let q : find (is_named tenant_id) s₂.tenants ≡ some tenant =
          rw (← stays, ticked) (row ∙ is) in
        let (_, same) = exec-some w _ _ s₂ (or_reply-go _ _ s₂ updated) in
        rw (← (pure-go _ s₃ h₃).1, same)
          (
            suspended_row s₂.calls tenant,
            find-update (is_named tenant_id) (is_named tenant_id) (suspended_row s₂.calls)
                  s₂.tenants (λ a. refl)
                ∙ ap (changed (is_named tenant_id) (suspended_row s₂.calls)) q
                ∙ rw (find_sound (is_named tenant_id) s₂.tenants q) refl,
            refl,
          )

-- After a deactivation of a tenant that ran to its end, and after any further calls to the service, no
-- tenant-scoped call in the tenant's name runs to its end: it is ended by an error response. No call,
-- the creation of tenants included, makes the tenant active again.
pub deactivated_tenant_refused :
    (w : World) (cfg : TokenizeConfig) (pings : Pings) (ctx : Context) (tenant_id : Text)
    (s : Store w.redis.Cache) {r : Response} {t : Store w.redis.Cache}
    → Handler.Tenant.deactivate w ctx tenant_id s ≡ (go r, t)
    → (calls : List (Call × Request)) (c : VaultCall) (by : Request) → by.x_tenant_id ≡ tenant_id
    → (answered : Response) (u : Store w.redis.Cache)
    → answer w cfg pings (vault c) by (serve_all w cfg pings calls t) ≢ (go answered, u)
deactivated_tenant_refused w cfg pings ctx tenant_id s {r} {t} h calls c by named answered u done =
    let later = serve_all w cfg pings calls t in
    let (suspended, found, inactive) =
      serve_all-Keeps w Anyone _ cfg pings (Suspended-KeptBy w tenant_id) calls t
        (AllAllow-Anyone w _ (token_status-Keeps w tenant_id) calls)
        (deactivate-Suspended w tenant_id ctx s h) in
    let (_, _, (tenant, found', active)) = vault_call_allowed w cfg pings c by later done in
    let e : find (is_named tenant_id) later.tenants ≡ some tenant =
      ap (λ a. find (is_named a) later.tenants) (sym named) ∙ found' in
    let same : suspended ≡ tenant = cc in
    ground (arith, ap (λ (x : Tenant). x.status) same, inactive, active)
