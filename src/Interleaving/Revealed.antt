-- ===== src/Interleaving/Revealed.antt =====
-- What detokenize answers for a vaulted token while other calls are in progress.
use vaulty.Prelude.{
  refl, List, none, some, Option, Text, text, ◌≡◌, inl, inr, find, find_sound, arith,
}
use vaulty.Server.{Response}
use vaulty.Model.{Tenant}
use vaulty.World.{World}
use vaulty.Store.{Store}
use vaulty.Repository.Tenants.{is_named}
use vaulty.Auth.{Request, Context, require_mtls_cert}
use vaulty.Handler.Health.{Pings}
use vaulty.Handler.Tokenize.{TokenizeConfig}
use vaulty.Routes.Keeps.{Anyone}
use vaulty.Vaulted.{IsVaulted}
use vaulty.Vaulted.Durable.{IsVaulted-KeptBy, deactivate_other-Keeps}
use vaulty.Interleaving.Calls.Ensures.{IsFit}
use vaulty.Interleaving.Handlers.Ensures.{IsPan}
use vaulty.Interleaving.Program.Ensures.{OnGo}
use vaulty.Interleaving.Asked.{AllGot, AllGot-imp, Reaches-AllGot}
use vaulty.Interleaving.Service.{Running, Reaches}
use vaulty.Interleaving.Invariants.{Except, Reaches-IsVaulted}

mtls-late :
    (r : Request) (ctx : Context) → OnGo Unit (λ c. Unit) (require_mtls_cert (text "proxy") r ctx)
unfolding require_mtls_cert
mtls-late r ctx = ground arith

found-IsFit :
    (tenant_id : Text) (ts : List Tenant) (o : Option Tenant)
    → find (is_named tenant_id) ts ≡ o
    → IsFit Unit tenant_id o
found-IsFit tenant_id ts none e = tt
found-IsFit tenant_id ts (some t) e = (find_sound (is_named tenant_id) ts e, (λ off. tt))

module _ (w : World) (cfg : TokenizeConfig) (pings : Pings) (tenant_id token_id pan : Text) where
  -- An answer with 200 is the PAN.
  abbrev pub Reveals : Response → Type 0
  Reveals resp = resp.status ≡ 200 → IsPan pan resp

  -- Those of the calls that ask for the token in the tenant's name and have their response got the
  -- PAN, or no 200.
  abbrev pub AllReveal : List (Running w cfg pings Anyone (Except token_id)) → Type 1
  AllReveal ps =
      AllGot w cfg pings Anyone (Except token_id) token_id (λ r. r.x_tenant_id ≡ tenant_id) Reveals
        ps

  -- While calls of any tenants are in progress at once and none deactivates a token of that id, a
  -- vaulted token stays vaulted, and each detokenize call for it in its tenant's name that is answered
  -- with 200 got the PAN, whatever the order of the statements.
  pub Reaches-Reveal :
      {s t : Store w.redis.Cache} {ps : List (Running w cfg pings Anyone (Except token_id))}
      → Reaches w cfg pings Anyone (Except token_id) s ps t
      → IsVaulted w tenant_id token_id pan s
      → IsVaulted w tenant_id token_id pan t × AllReveal ps
  Reaches-Reveal {ps} h v = (
    Reaches-IsVaulted w cfg pings tenant_id token_id pan h v,
    AllGot-imp w cfg pings Anyone (Except token_id) token_id _ _ Reveals ps
        (λ resp got ok. elim got [ inl is ↦ is | inr (late, u) ↦ absurd (late ok) ])
        (Reaches-AllGot w cfg pings Anyone (Except token_id) token_id _
          (IsVaulted w tenant_id token_id pan) (IsVaulted-KeptBy w tenant_id token_id pan)
          (λ a b own may. deactivate_other-Keeps w tenant_id token_id pan b may a) Unit
          (record { database = λ n down. tt; kms = λ n m arn made kept. tt }) pan
          (λ r own. record {
            bearer = λ bad. tt;
            proxy = λ ctx e. mtls-late r ctx;
            named = λ bad. tt;
            pattern = λ bad. tt;
            tenant = λ u p. found-IsFit r.x_tenant_id u.tenants _ refl;
          })
          (λ r own u p. rw own p) h v),
  )
