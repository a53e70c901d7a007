-- ===== src/Startup/Migrate.antt =====
-- cmd/migrate/main.go over the migration library, which is a parameter.
use vaulty.Prelude.{
  ℤ, text_eq_iff, ◌⊎◌, inl, inr, Option-cases, Bool-cases, ◌≢◌, ◌≡◌, refl, arith, ℕ, Bool, true,
  false, Option, none, some, List, [], ◌∷◌, ◌++◌, Text, text, text_eq, if◌then◌else◌, Result, ok,
  err,
}
use vaulty.Config.{Config, load}

-- The library's error for Up and Down, where `migrate.ErrNoChange` is told apart.
pub data Applied : Type 0 where
  applied no_change : Applied
  failed : Text → Applied

pub record Migrator : Type 1 where
  pub State : Type 0
  -- migrate.New for a database URL, and its error; it may make the table of versions
  pub init : Text → State → Option Text × State
  pub up : State → Applied × State
  pub down : State → Applied × State
  -- the version and whether it is dirty, as `%d` and `%v` print them
  pub version : State → Result (Text × Text)

-- How the program ends: the exit status and the last line, of the output or of the errors.
pub record Exit : Type 0 where
  pub status : ℕ
  pub line : Text

abbrev fatal : Text → Exit
fatal line = record { status = 1; line = line }

abbrev done : Text → Exit
done line = record { status = 0; line = line }

abbrev after : Applied → Text → Text → Exit
after (failed e) prefix success = fatal (prefix ++ e)
after applied prefix success = done success
after no_change prefix success = done success

abbrev usage : Text
usage = text "Usage: migrate <up|down|version>"

module _ (getenv : Text → Text) (parse_duration : Text → Option ℤ) (m : Migrator) where
  -- The switch on the command.
  unfoldable pub run_command : Text → m.State → Exit × m.State
  run_command command s =
      if text_eq command (text "up")
      then (
        after (m.up s).0 (text "migrate up: ") (text "Migrations applied successfully"),
        (m.up s).1,
      )
      else if text_eq command (text "down")
      then (
        after (m.down s).0 (text "migrate down: ") (text "Migrations reverted successfully"),
        (m.down s).1,
      )
      else if text_eq command (text "version")
      then (
        elim (m.version s) [
          | err e ↦ fatal (text "migrate version: " ++ e)
          | ok v ↦ done (text "Version: " ++ (v.0 ++ (text ", Dirty: " ++ v.1)))
        ],
        s,
      )
      else (fatal (text "Unknown command: " ++ (command ++ (10 ∷ usage))), s)

  abbrev with_config : Text → Option Config → m.State → Exit × m.State
  with_config command none s = (fatal (text "load config: invalid duration"), s)
  with_config command (some cfg) s =
      let (refused, s') = m.init cfg.database_url s in
      elim refused [
        | some e ↦ (fatal (text "init migrate: " ++ e), s')
        | none ↦ run_command command s'
      ]

  -- main, given the arguments after the program's name.
  unfoldable pub migrate_main : List Text → m.State → Exit × m.State
  unfolding load
  migrate_main [] s = (fatal usage, s)
  migrate_main (command ∷ rest) s = with_config command (load getenv parse_duration) s

  abbrev pub is_failed : Applied → Bool
  is_failed (failed e) = true
  is_failed applied = false
  is_failed no_change = false

  -- The state that migrate.New leaves, and the exit status of a migration.
  abbrev pub opened : Config → m.State → m.State
  opened cfg s = (m.init cfg.database_url s).1

  abbrev pub status_of : Applied → ℕ
  status_of result = if is_failed result then 1 else 0

  after-status :
      (a : Applied) (prefix success : Text) → (after a prefix success).status ≡ status_of a
  after-status (failed e) prefix success = refl
  after-status applied prefix success = refl
  after-status no_change prefix success = refl

  -- The state after a migration that is run once on the opened database, and the exit status.
  abbrev pub Ran : (m.State → Applied × m.State) → Config → Exit × m.State → m.State → Type 0
  Ran run cfg (exit, t) s =
      (exit.status ≡ status_of (run (opened cfg s)).0) × (t ≡ (run (opened cfg s)).1)

  -- What the program does of its exit status and of the database.
  abbrev pub Migrates : Config → Text → List Text → m.State → Type 0
  Migrates cfg command rest s =
      let result = migrate_main (command ∷ rest) s in
      ((e : Text) × ((m.init cfg.database_url s).0 ≡ some e)
        × (result.0.status ≡ 1)
        × (result.1 ≡ opened cfg s))
      ⊎ ((m.init cfg.database_url s).0 ≡ none)
        × ((command ≡ text "up") × Ran m.up cfg result s
            ⊎ (command ≡ text "down") × Ran m.down cfg result s
            ⊎ (command ≢ text "up") × (command ≢ text "down") × (result.1 ≡ opened cfg s))

  loaded_changes :
      (cfg : Config) (command : Text) (rest : List Text) (s : m.State)
      → load getenv parse_duration ≡ some cfg
      → Migrates cfg command rest s
  unfolding migrate_main run_command
  loaded_changes cfg command rest s loaded = elim (Option-cases (m.init cfg.database_url s).0) [
    | inr (e, refused) ↦
        inl (e, refused, ground (arith, loaded, refused), ground (arith, loaded, refused))
    | inl accepted ↦ elim (Bool-cases (text_eq command (text "up"))) [
      | inl up ↦
          let st =
            after-status (m.up (opened cfg s)).0 (text "migrate up: ")
              (text "Migrations applied successfully") in
          inr (
            accepted,
            inl (
              (text_eq_iff command (text "up")).0 up,
              (ground (arith, loaded, accepted, up, st), ground (arith, loaded, accepted, up)),
            ),
          )
      | inr not_up ↦ elim (Bool-cases (text_eq command (text "down"))) [
        | inl down ↦
            let st =
              after-status (m.down (opened cfg s)).0 (text "migrate down: ")
                (text "Migrations reverted successfully") in
            inr (
              accepted,
              inr (
                  inl (
                    (text_eq_iff command (text "down")).0 down,
                    (
                      ground (arith, loaded, accepted, not_up, down, st),
                      ground (arith, loaded, accepted, not_up, down),
                    ),
                  )),
            )
        | inr not_down ↦ inr (
          accepted,
          inr (
              inr (
                (λ e. ground (arith, text_eq_iff command (text "up"), not_up, e)),
                (λ e. ground (arith, text_eq_iff command (text "down"), not_down, e)),
                ground (arith, loaded, accepted, not_up, not_down),
              )),
        )
      ]
    ]
  ]

  -- What the program does for its arguments.
  abbrev pub Outcome : List Text → m.State → Type 0
  Outcome [] s = ((migrate_main [] s).0.status ≡ 1) × ((migrate_main [] s).1 ≡ s)
  Outcome (command ∷ rest) s =
      (load getenv parse_duration ≡ none)
        × ((migrate_main (command ∷ rest) s).0.status ≡ 1)
        × ((migrate_main (command ∷ rest) s).1 ≡ s)
      ⊎ ((cfg : Config) × (load getenv parse_duration ≡ some cfg) × Migrates cfg command rest s)

  -- Without arguments, or if the settings do not load, the status is 1 and the database is left alone.
  -- Else the program opens the database once: if the library refuses it, the status is 1 and nothing
  -- more is done; else up applies the migrations once and down reverts them once, with status 1 exactly
  -- if that failed, and any other command leaves the database as opening it did.
  pub migrate_main_changes : (args : List Text) (s : m.State) → Outcome args s
  unfolding migrate_main
  migrate_main_changes [] s = (refl, refl)
  migrate_main_changes (command ∷ rest) s = elim (Option-cases (load getenv parse_duration)) [
    | inl invalid ↦ inl (invalid, ground (arith, invalid), ground (arith, invalid))
    | inr (cfg, loaded) ↦ inr (cfg, loaded, loaded_changes cfg command rest s loaded)
  ]
