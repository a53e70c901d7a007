-- ===== src/Interleaving/Alone.antt =====
-- All statements of a call in a row, which is what Routes.serve says of the call.
use vaulty.Prelude.{List, ◌∷◌, ◌≡◌, ◌∙◌, Text}
use mathlib.Core.Path.{subst}
use vaulty.Server.{Response}
use vaulty.World.{World}
use vaulty.Store.{Store}
use vaulty.Auth.{Request}
use vaulty.Handler.Health.{Pings}
use vaulty.Handler.Tokenize.{TokenizeConfig}
use vaulty.Handler.Keeps.{Scope}
use vaulty.Routes.{Call, serve}
use vaulty.Interleaving.Code.{done, step, run}
use vaulty.Interleaving.Calls.{May, serve-Runs}
use vaulty.Interleaving.Service.{
  Running, Rest, here, Advances, stay, next, Reaches, arrived, advance,
}

module _ (w : World) (cfg : TokenizeConfig) (pings : Pings) (scope : Scope)
    (changes : Text → Text → Type 0) where
  abbrev Pool : Type 1
  Pool = List (Running w cfg pings scope changes)

  abbrev Cache : Type 0
  Cache = w.redis.Cache

  -- A call that has its response.
  abbrev pub answered : Call → Request → Response → Running w cfg pings scope changes
  answered c r resp = record { call = c; by = r; rest = done resp }

  pub Advances-run :
      (c : Call) (r : Request) (rest : Rest w cfg pings scope changes) (others : Pool)
      (s : Store Cache)
      → Advances w cfg pings scope changes
          (record { call = c; by = r; rest = rest } ∷ others)
          s
          (answered c r (run rest s).0 ∷ others)
          (run rest s).1
  unfolding run
  Advances-run c r (done x) others s = stay
  Advances-run c r (step m is k) others s =
      next (here c r m is k others s) (Advances-run c r (k (m s).0) others (m s).1)

  run-arrived :
      (c : Call) (r : Request) (may : May scope changes c r) (s : Store Cache)
      → run (arrived w cfg pings scope changes c r may).rest s ≡ serve w cfg pings c r s
  run-arrived c r may s = (serve-Runs w cfg pings scope changes c r may).runs s

  -- All statements of a call in a row, with other calls waiting.
  pub Advances-serve :
      (c : Call) (r : Request) (may : May scope changes c r) (others : Pool) (s : Store Cache)
      {x : Response × Store Cache}
      → serve w cfg pings c r s ≡ x
      → Advances w cfg pings scope changes
          (arrived w cfg pings scope changes c r may ∷ others)
          s
          (answered c r x.0 ∷ others)
          x.1
  Advances-serve c r may others s e =
      let rest : Rest w cfg pings scope changes =
        (arrived w cfg pings scope changes c r may).rest in
      subst
        (λ x.
          Advances w cfg pings scope changes (arrived w cfg pings scope changes c r may ∷ others) s
            (answered c r x.0 ∷ others) x.1)
        (run-arrived c r may s ∙ e) (Advances-run c r rest others s)

  pub Reaches-Advances :
      {s t u : Store Cache} {ps qs : Pool}
      → Advances w cfg pings scope changes ps t qs u
      → Reaches w cfg pings scope changes s ps t
      → Reaches w cfg pings scope changes s qs u
  Reaches-Advances stay h = h
  Reaches-Advances (next a rest) h = Reaches-Advances rest (advance h a)
