-- ===== src/Isolation/Calls.antt =====
-- A tenant's calls on the service, in stores that it cannot tell apart.
use vaulty.Prelude.{
  Bool, true, false, [], ◌≡◌, refl, sym, ◌∙◌, ap, Text, text, text_eq, find, Bool-cases, inl, inr,
}
use vaulty.World.{World}
use vaulty.Store.{Store, go, lift, pure, response_of}
use vaulty.Store.Agrees.{Agrees, agrees, Agrees-bind, Agrees-bind_go, Agrees-pure, Agrees-lift}
use vaulty.Repository
use vaulty.Repository.Tenants.{is_named}
use vaulty.Crypto.{hex}
use vaulty.Auth.{
  Context, Request, background, require_tenant, correlation_id_middleware, require_mtls_cert,
  read_or_zero,
}
use vaulty.Handler.Health.{Pings}
use vaulty.Handler.Tokenize.{TokenizeConfig}
use vaulty.Routes.{
  VaultCall, tokenize_call, status_call, deactivate_call, audit_call, detokenize_call, vault,
  serve_vault, serve_call, answer, serve,
}
use vaulty.Routes.Guards.{require_tenant-own, mtls-tenant}
use vaulty.Isolation.Reads.{IsAlike, Alike, ticked, query-Agrees}
use vaulty.Isolation.Answers.{
  IsOwn, detokenize-Agrees, get_status-Agrees, get_audit_trail-Agrees, deactivate_token-Agrees,
}

abbrev pub is_tokenize : VaultCall → Bool
is_tokenize (tokenize_call body) = true
is_tokenize _ = false

module _ (w : World) (cfg : TokenizeConfig) (pings : Pings) (a : Text) where
  correlation-Agrees :
      (r : Request) (ctx : Context) → Agrees (Alike w a) (correlation_id_middleware w r ctx)
  unfolding correlation_id_middleware pure
  correlation-Agrees r ctx = elim (Bool-cases (text_eq r.x_correlation_id [])) [
    | inl missing ↦ rw missing (record {
      at = λ s u q. (
        ap (λ n. go (record ctx { correlation_id = hex (read_or_zero (w.rand_read n 16)) }))
            q.calls,
        ticked w a s u q,
      );
    })
    | inr given ↦ rw given (Agrees-pure _)
  ]

  find_tenant-Agrees : (id : Text) → Agrees (Alike w a) (Repository.Tenants.find_by_tenant_id w id)
  unfolding Repository.Tenants.find_by_tenant_id
  find_tenant-Agrees id = query-Agrees w a _ λ s u q. ap (find (is_named id)) q.tenants

  require_tenant-Agrees :
      (r : Request) (ctx : Context) → Agrees (Alike w a) (require_tenant w r ctx)
  unfolding require_tenant
  require_tenant-Agrees r ctx = search (agrees, find_tenant-Agrees) depth 16

  mtls-IsOwn :
      (r : Request) (ctx ctx' : Context)
      → require_mtls_cert (text "proxy") r ctx ≡ go ctx'
      → IsOwn w a ctx
      → IsOwn w a ctx'
  mtls-IsOwn r ctx ctx' h own tenant has = own tenant (sym (mtls-tenant r ctx ctx' h) ∙ has)

  serve_vault-Agrees :
      (c : VaultCall) (r : Request) (ctx : Context)
      → is_tokenize c ≡ false
      → IsOwn w a ctx
      → Agrees (Alike w a) (serve_vault w cfg pings c r ctx)
  unfolding serve_vault lift
  serve_vault-Agrees (tokenize_call body) r ctx other own = absurd (cc)
  serve_vault-Agrees (status_call t) r ctx other own = get_status-Agrees w a ctx t own
  serve_vault-Agrees (deactivate_call t) r ctx other own = deactivate_token-Agrees w a ctx t own
  serve_vault-Agrees (audit_call t l o) r ctx other own = get_audit_trail-Agrees w a ctx t l o own
  serve_vault-Agrees (detokenize_call body) r ctx other own =
      Agrees-bind_go _ _ (Agrees-lift _)
        λ ctx' s t e. detokenize-Agrees w a ctx' body (mtls-IsOwn r ctx ctx' (cc) own)

  answer-Agrees :
      (c : VaultCall) (r : Request)
      → is_tokenize c ≡ false
      → r.x_tenant_id ≡ a
      → Agrees (Alike w a) (answer w cfg pings (vault c) r)
  unfolding answer serve_call
  answer-Agrees c r other named = Agrees-bind _ _ (correlation-Agrees r background) λ ctx.
      Agrees-bind _ _ (Agrees-lift _) λ known.
        Agrees-bind_go _ _ (require_tenant-Agrees r known) λ scoped s t e.
          serve_vault-Agrees c r scoped other
            λ tenant has. require_tenant-own w r known s e tenant has ∙ named

-- Of two stores with the same tenants, the same Redis and the same number of calls so far, in which a
-- tenant has the same rows, whatever the rows of the others, each call of the tenant other than a
-- tokenize gets the same answer, and the stores afterwards are related in the same way.
pub serve-IsAlike :
    (w : World) (cfg : TokenizeConfig) (pings : Pings) (c : VaultCall) (r : Request)
    (s u : Store w.redis.Cache)
    → is_tokenize c ≡ false
    → IsAlike r.x_tenant_id s u
    → let (answered, s') = serve w cfg pings (vault c) r s in
      let (answered', u') = serve w cfg pings (vault c) r u in
      (answered ≡ answered') × IsAlike r.x_tenant_id s' u'
unfolding serve
serve-IsAlike w cfg pings c r s u other alike =
    let (same, after) = (answer-Agrees w cfg pings r.x_tenant_id c r other refl).at s u alike in
    (ap response_of same, after)
