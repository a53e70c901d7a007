-- ===== src/Interleaving/Asked.antt =====
-- The detokenize calls for one token among the calls in progress.
use vaulty.Prelude.{List, [], ◌∷◌, some, Text, ◌≡◌, sym, ◌≢◌, ◌⊎◌}
use mathlib.Core.Path.{subst}
use vaulty.Server.{Response}
use vaulty.Model.{TokenStatus}
use vaulty.World.{World}
use vaulty.Store.{Store}
use vaulty.Store.Keeps.{Keeps}
use vaulty.Repository
use vaulty.Auth.{Request}
use vaulty.Handler.Health.{Pings}
use vaulty.Handler.Tokenize.{TokenizeConfig}
use vaulty.Handler.Keeps.{Scope, KeptBy}
use vaulty.Routes.{Call, vault, detokenize_call}
use vaulty.Vaulted.{IsVaulted}
use vaulty.Interleaving.Code.{done}
use vaulty.Interleaving.Calls.{May, serve-Runs}
use vaulty.Interleaving.Calls.Ensures.{Refusals, serve-Ensures}
use vaulty.Interleaving.Handlers.Ensures.{IsPan}
use vaulty.Interleaving.Program.Ensures.{Ensures}
use vaulty.Interleaving.Actions.Ensures.{Faults}
use vaulty.Interleaving.Service.{
  Running, Advance, here, there, Reaches, start, arrive, advance, expire, arrived, Reaches-Keeps,
}

module _ (w : World) (cfg : TokenizeConfig) (pings : Pings) (scope : Scope)
    (changes : Text → Text → Type 0) (token_id : Text) (asks : Request → Type 0) where
  -- A detokenize call for the token whose request is one of those.
  abbrev pub Asks : Running w cfg pings scope changes → Type 0
  Asks p = (p.call ≡ vault (detokenize_call (some token_id))) × asks p.by

  -- Those of the calls that ask and have their response have one of those.
  abbrev pub AllGot : (Response → Type 0) → List (Running w cfg pings scope changes) → Type 1
  AllGot Q [] = Unit
  AllGot Q (p ∷ ps) = (Asks p → (resp : Response) → p.rest ≡ done resp → Q resp) × AllGot Q ps

  pub AllGot-imp :
      (Q Q' : Response → Type 0) (ps : List (Running w cfg pings scope changes))
      → ((resp : Response) → Q resp → Q' resp)
      → AllGot Q ps
      → AllGot Q' ps
  AllGot-imp Q Q' [] imp h = tt
  AllGot-imp Q Q' (p ∷ ps) imp (h, hs) =
      ((λ asked resp e. imp resp (h asked resp e)), AllGot-imp Q Q' ps imp hs)

  module _ (P : Store w.redis.Cache → Type 0) (k : KeptBy w scope P)
      (deactivated : (a b : Text)
        → scope.tenant a
        → changes a b
        → Keeps P (Repository.Tokens.update_status w a b TokenStatus.inactive))
      (Fault : Type 0) (faults : Faults w Fault) (pan : Text)
      (refusals : (r : Request) → asks r → Refusals w r P Fault)
      (vaulted : (r : Request)
        → asks r
        → (s : Store w.redis.Cache) → P s
        → IsVaulted w r.x_tenant_id token_id pan s) where
    -- The PAN, or an answer other than 200 after a fault.
    abbrev pub Answers : Response → Type 0
    Answers resp = IsPan pan resp ⊎ (resp.status ≢ 200) × Fault

    abbrev WillAnswer : List (Running w cfg pings scope changes) → Type 0
    WillAnswer [] = Unit
    WillAnswer (p ∷ ps) = (Asks p → Ensures w scope changes P Fault Answers p.rest) × WillAnswer ps

    arrived-Answers :
        (c : Call) (r : Request) (may : May scope changes c r)
        → Asks (arrived w cfg pings scope changes c r may)
        → Ensures w scope changes P Fault Answers
            (serve-Runs w cfg pings scope changes c r may).code
    arrived-Answers c r may (e, asked) =
        subst
          (λ d.
            (m : May scope changes d r)
            → Ensures w scope changes P Fault Answers
                (serve-Runs w cfg pings scope changes d r m).code)
          (sym e)
          (λ m.
            serve-Ensures w cfg pings scope changes P Fault faults r (refusals r asked) token_id pan
              (vaulted r asked) m)
          may

    Advance-WillAnswer :
        {ps qs : List (Running w cfg pings scope changes)} {s t : Store w.redis.Cache}
        → Advance w cfg pings scope changes ps s qs t
        → P s
        → WillAnswer ps
        → WillAnswer qs
    Advance-WillAnswer (here c r m is k' others s) v (h, hs) = ((λ asked. h asked s v), hs)
    Advance-WillAnswer (there c a) v (h, hs) = (h, Advance-WillAnswer a v hs)

    Reaches-WillAnswer :
        {s t : Store w.redis.Cache} {ps : List (Running w cfg pings scope changes)}
        → Reaches w cfg pings scope changes s ps t
        → P s
        → WillAnswer ps
    Reaches-WillAnswer start v = tt
    Reaches-WillAnswer (arrive c r may h) v = (arrived-Answers c r may, Reaches-WillAnswer h v)
    Reaches-WillAnswer (advance h a) v =
        Advance-WillAnswer a (Reaches-Keeps w cfg pings scope changes P k deactivated h v)
          (Reaches-WillAnswer h v)
    Reaches-WillAnswer (expire c h) v = Reaches-WillAnswer h v

    all-Got : (ps : List (Running w cfg pings scope changes)) → WillAnswer ps → AllGot Answers ps
    all-Got [] h = tt
    all-Got (p ∷ ps) (h, hs) = (
      (λ asked resp e. subst (Ensures w scope changes P Fault Answers) e (h asked)),
      all-Got ps hs,
    )

    pub Reaches-AllGot :
        {s t : Store w.redis.Cache} {ps : List (Running w cfg pings scope changes)}
        → Reaches w cfg pings scope changes s ps t
        → P s
        → AllGot Answers ps
    Reaches-AllGot {ps} h v = all-Got ps (Reaches-WillAnswer h v)
