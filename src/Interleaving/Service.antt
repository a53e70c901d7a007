-- ===== src/Interleaving/Service.antt =====
-- The tokenizer service with calls in progress. Calls arrive at any time, each makes its statements one
-- after the other, and between two of them anything else may happen.
use vaulty.Interleaving.Keeps.{statement-Keeps}
use vaulty.Prelude.{List, [], ◌∷◌, Text}
use vaulty.Server.{Response}
use vaulty.Model.{TokenStatus}
use vaulty.World.{World}
use vaulty.Store.{Store, Action}
use vaulty.Store.Keeps.{Keeps}
use vaulty.Repository
use vaulty.Auth.{Request}
use vaulty.Handler.Health.{Pings}
use vaulty.Handler.Tokenize.{TokenizeConfig}
use vaulty.Handler.Keeps.{Scope, KeptBy}
use vaulty.Routes.{Call}
use vaulty.Interleaving.Code.{Code, Statement, step}
use vaulty.Interleaving.Calls.{May, serve-Runs}

module _ (w : World) (cfg : TokenizeConfig) (pings : Pings) (scope : Scope)
    (changes : Text → Text → Type 0) where
  abbrev pub Rest : Type 1
  Rest = Code w scope changes Response

  -- A call in progress: what was asked, and what is left to do.
  pub record Running : Type 1 where
    pub call : Call
    pub by : Request
    pub rest : Rest

  -- A call that has just arrived.
  abbrev pub arrived : (c : Call) (r : Request) → May scope changes c r → Running
  arrived c r may = record {
    call = c;
    by = r;
    rest = (serve-Runs w cfg pings scope changes c r may).code;
  }

  -- One call makes its next statement.
  pub data Advance
      : List Running → Store w.redis.Cache → List Running → Store w.redis.Cache → Type 1 where
    here :
        {B : Type 0} (c : Call) (r : Request) (m : Action w.redis.Cache B)
        (is : Statement w scope changes B m) (k : B → Rest) (others : List Running)
        (s : Store w.redis.Cache)
        → Advance
            (record { call = c; by = r; rest = step m is k } ∷ others)
            s
            (record { call = c; by = r; rest = k (m s).0 } ∷ others)
            (m s).1
    there :
        (c : Running) {others others' : List Running} {s t : Store w.redis.Cache}
        → Advance others s others' t
        → Advance (c ∷ others) s (c ∷ others') t

  -- What happens, in any order: a call arrives, a call makes a statement, or keys of Redis change
  -- without a command, as when they expire.
  pub data Reaches (s : Store w.redis.Cache) : List Running → Store w.redis.Cache → Type 1 where
    start : Reaches s [] s
    arrive :
        {ps : List Running} {t : Store w.redis.Cache} (c : Call) (r : Request)
        (may : May scope changes c r)
        → Reaches s ps t
        → Reaches s (arrived c r may ∷ ps) t
    advance :
        {ps qs : List Running} {t u : Store w.redis.Cache}
        → Reaches s ps t
        → Advance ps t qs u
        → Reaches s qs u
    expire :
        {ps : List Running} {t : Store w.redis.Cache} (c : w.redis.Cache)
        → Reaches s ps t
        → Reaches s ps (record t { cache = c })

  -- Any number of statements, with nothing else that happens.
  pub data Advances
      : List Running → Store w.redis.Cache → List Running → Store w.redis.Cache → Type 1 where
    stay : {ps : List Running} {s : Store w.redis.Cache} → Advances ps s ps s
    next :
        {ps qs rs : List Running} {s t u : Store w.redis.Cache}
        → Advance ps s qs t
        → Advances qs t rs u
        → Advances ps s rs u

  module _ (P : Store w.redis.Cache → Type 0) (k : KeptBy w scope P)
      (deactivated : (a b : Text)
        → scope.tenant a
        → changes a b
        → Keeps P (Repository.Tokens.update_status w a b TokenStatus.inactive)) where
    Advance-Keeps :
        {ps qs : List Running} {s t : Store w.redis.Cache} → Advance ps s qs t → P s → P t
    Advance-Keeps (here c r m is k' others s) p =
        (statement-Keeps w scope changes P k deactivated is).at s p
    Advance-Keeps (there c a) p = Advance-Keeps a p

    -- What every statement keeps holds in every store that is reached.
    pub Reaches-Keeps : {s t : Store w.redis.Cache} {ps : List Running} → Reaches s ps t → P s → P t
    Reaches-Keeps start p = p
    Reaches-Keeps (arrive c r may h) p = Reaches-Keeps h p
    Reaches-Keeps (advance h a) p = Advance-Keeps a (Reaches-Keeps h p)
    Reaches-Keeps (expire c h) p = k.cache_command _ c (Reaches-Keeps h p)
