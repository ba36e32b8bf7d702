-- ===== src/Server/Panics.antt =====
-- When `main` of pingoo/main.rs panics.
use pingoo.Prelude.{
  String, List, [], ◌∷◌, Option, none, some, Bool, true, Bool-cases, Result-cases, ◌≡◌, ◌↔◌, ◌⊎◌,
  subst, if◌then◌else◌, inl, inr, refl, sym, ap, ◌∙◌, arith, Result, ok, All, ok-injective,
}
use pingoo.Disk.{Disk}
use pingoo.Config.{ChildProcess, ConfigError}
use pingoo.Config.File.{ConfigFile, ListenerConfigFile, Parsers}
use pingoo.Config.Load.{Config, RuleDir, load_and_validate}
use pingoo.Server.Run.{Parts, failed, panicked, serving, run, Ran}
use pingoo.Server.Defaults.{run-eq-panicked_iff}
use pingoo.Server.Prepared.{StartPanics}
use pingoo.Server.Main.{
  Child, started, not_started, start_child, spawn_command, Ended, main_panicked, after_run,
  after_child, after_config, main,
}

module _ {Expr Registry Geoip Captcha Lists Tls Socket E : Type 0}
    (parts : Parts Expr Registry Geoip Captcha Lists Tls Socket E) (parsers : Parsers Expr)
    (spawn : String → List String → Bool) where
  -- `after_config` with the arguments of the section
  abbrev go : Disk → Result (Config Expr) ConfigError → Ended (Ran parts)
  go disk loaded = after_config parts parsers true true spawn disk loaded

  after_run-eq-panicked_iff :
      (outcome : Ran parts)
      → (after_run parts parsers true true spawn outcome ≡ main_panicked) ↔ (outcome ≡ panicked)
  after_run-eq-panicked_iff (failed e) = ground arith
  after_run-eq-panicked_iff panicked = (λ _. refl, λ _. refl)
  after_run-eq-panicked_iff (serving shared listeners) = ground arith

  -- The configuration has a child process without a command.
  abbrev pub HasEmptyCommand : Config Expr → Type 0
  HasEmptyCommand config =
      (child : ChildProcess) × ((config.child_process ≡ some child) × (child.command ≡ []))

  -- There is no child process, or it starts.
  abbrev pub ChildStarts : Option ChildProcess → Type 0
  ChildStarts child =
      (child ≡ none)
      ⊎ ((c : ChildProcess) × ((program : String) × ((arguments : List String) × ((child ≡ some c)
                × (c.command ≡ program ∷ arguments)
                × (spawn program arguments ≡ true)))))

  abbrev command_of : Option ChildProcess → List String
  command_of none = []
  command_of (some c) = c.command

  -- the end of `main` from the start of the child
  abbrev end_of : Disk → Config Expr → Child → Ended (Ran parts)
  end_of disk config child = after_child parts parsers true true spawn disk config child

  spawn_command_iff :
      (disk : Disk) (config : Config Expr) (command : List String)
      → (end_of disk config (spawn_command spawn command) ≡ main_panicked) ↔ (
          (command ≡ [])
          ⊎ ((program : String) × ((arguments : List String) × ((command ≡ program ∷ arguments)
                  × (spawn program arguments ≡ true)
                  × (run parts disk config ≡ panicked)))))
  spawn_command_iff disk config [] = (λ _. inl refl, λ _. refl)
  spawn_command_iff disk config (program ∷ arguments) =
      let child = spawn program arguments in
      let (to, from) = after_run-eq-panicked_iff (run parts disk config) in
      let after : Bool → Ended (Ran parts) =
        λ b. end_of disk config (if b then started else not_started (program ∷ arguments)) in
      elim (Bool-cases child) [
        | inl e ↦ (
          λ h. inr (program, (arguments, (refl, e, to (ap after (sym e) ∙ h)))),
          λ c. elim c [
            | inl f ↦ absurd (ground (arith, f))
            | inr (p, (as', (f, g, panics))) ↦ ap after e ∙ from panics
          ],
        )
        | inr e ↦ (
          λ h. absurd (ground (arith, ap after (sym e) ∙ h)),
          λ c. elim c [
            | inl f ↦ absurd (ground (arith, f))
            | inr (p, (as', (f, g, panics))) ↦ absurd (ground (arith, e, f, g))
          ],
        )
      ]

  -- Its command is empty, or it starts, if it is there, and the server panics.
  abbrev ChildPanics : Disk → Config Expr → Option ChildProcess → Type 0
  ChildPanics disk config child =
      ((c : ChildProcess) × ((child ≡ some c) × (c.command ≡ [])))
      ⊎ (ChildStarts child × (run parts disk config ≡ panicked))

  after_child_iff :
      (disk : Disk) (config : Config Expr) (child : Option ChildProcess)
      → (end_of disk config (start_child spawn child) ≡ main_panicked)
        ↔ ChildPanics disk config child
  unfolding start_child
  after_child_iff disk config none =
      let (to, from) = after_run-eq-panicked_iff (run parts disk config) in
      (
        λ h. inr (inl refl, to h),
        λ p. elim p [
          | inl (c, (e, f)) ↦ absurd (ground (arith, e))
          | inr (starts, panics) ↦ from panics
        ],
      )
  after_child_iff disk config (some child) =
      let (to, from) = spawn_command_iff disk config child.command in
      (
        λ h. elim (to h) [
          | inl e ↦ inl (child, (refl, e))
          | inr (program, (arguments, (e, f, panics))) ↦
              inr (inr (child, (program, (arguments, (refl, e, f)))), panics)
        ],
        λ p. elim p [
          | inl (c, (e, f)) ↦ from (inl (ap (λ (o : Option ChildProcess). command_of o) e ∙ f))
          | inr (inl e, panics) ↦ absurd (ground (arith, e))
          | inr (inr (c, (program, (arguments, (e, f, g)))), panics) ↦ from (
              inr (
                program,
                (arguments, (ap (λ (o : Option ChildProcess). command_of o) e ∙ f, g, panics)),
              ))
        ],
      )

  pub main-eq-panicked_iff :
      (file : ConfigFile) (dir : RuleDir) (disk : Disk)
      → All (λ (l : String × ListenerConfigFile). l.1.services ≡ none) file.listeners
      → (main parts parsers true true spawn (ok file) dir disk ≡ main_panicked) ↔ (
          (config : Config Expr) × ((load_and_validate parsers (ok file) dir ≡ ok config)
            × (HasEmptyCommand config
                ⊎ (ChildStarts config.child_process × StartPanics parts disk config))))
  unfolding main
  main-eq-panicked_iff file dir disk default =
      elim (Result-cases (load_and_validate parsers (ok file) dir)) [
        | inr (e, f) ↦ (
          λ h. absurd (ground (arith, ap (go disk) (sym f) ∙ h)),
          λ (config, (loaded, p)). absurd (ground (arith, loaded, f)),
        )
        | inl (config, f) ↦
            let (run_to, run_from) =
              run-eq-panicked_iff parts parsers file dir config disk default f in
            let (to, from) = after_child_iff disk config config.child_process in
            (
              λ h. (
                config,
                (
                  f,
                  elim (to (ap (go disk) (sym f) ∙ h)) [
                    | inl empty ↦ inl empty
                    | inr (starts, panics) ↦ inr (starts, run_to panics)
                  ],
                ),
              ),
              λ (config', (loaded, p)).
                  let same = ok-injective ConfigError (sym f ∙ loaded) in
                  ap (go disk) f
                  ∙ from (elim p [
                    | inl empty ↦ inl (subst HasEmptyCommand (sym same) empty)
                    | inr (starts, panics) ↦ inr (
                      subst (λ (c : Config Expr). ChildStarts c.child_process) (sym same) starts,
                      run_from (subst (StartPanics parts disk) (sym same) panics),
                    )
                  ]),
            )
      ]
