-- ===== src/Server/Main.antt =====
-- `main` of pingoo/main.rs: logging, the configuration, the child process and the server. Whether logging
-- and the provider of rustls can be set up and the child's start are parameters.
use pingoo.Prelude.{String, List, [], ◌∷◌, Option, none, some, Bool, Result, ok, err, if◌then◌else◌}
use pingoo.Disk.{Disk}
use pingoo.Config.{ConfigError, ChildProcess}
use pingoo.Config.File.{ConfigFile, Parsers}
use pingoo.Config.Load.{Config, RuleDir, load_and_validate}
use pingoo.Server.Run.{Parts, failed, panicked, serving, run, Ran}

-- the start of the child, whose result is not waited for
pub data Child : Type 0 where
  no_child : Child
  started : Child
  not_started : List String → Child
  command_is_empty : Child

-- `spawn` is given the program and its arguments
abbrev pub spawn_command : (String → List String → Bool) → List String → Child
spawn_command spawn [] = command_is_empty
spawn_command spawn (program ∷ arguments) =
    if spawn program arguments then started else not_started (program ∷ arguments)

unfoldable pub start_child : (String → List String → Bool) → Option ChildProcess → Child
start_child spawn none = no_child
start_child spawn (some config) = spawn_command spawn config.command

pub data Ended (R : Type 0) : Type 0 where
  no_provider : Ended R
  config_failed : ConfigError → Ended R
  child_failed : List String → Ended R
  main_panicked : Ended R
  ran : R → Ended R

module _ {Expr Registry Geoip Captcha Lists Tls Socket E : Type 0}
    (parts : Parts Expr Registry Geoip Captcha Lists Tls Socket E) (parsers : Parsers Expr)
    (try_init install_default : Bool) (spawn : String → List String → Bool) where
  abbrev pub after_run : Ran parts → Ended (Ran parts)
  after_run (failed e) = ran (failed e)
  after_run panicked = main_panicked
  after_run (serving shared listeners) = ran (serving shared listeners)

  abbrev pub run_server : Disk → Config Expr → Ended (Ran parts)
  run_server disk config = after_run (run parts disk config)

  abbrev pub after_child : Disk → Config Expr → Child → Ended (Ran parts)
  after_child disk config no_child = run_server disk config
  after_child disk config started = run_server disk config
  after_child disk config (not_started command) = child_failed command
  after_child disk config command_is_empty = main_panicked

  abbrev pub after_config : Disk → Result (Config Expr) ConfigError → Ended (Ran parts)
  after_config disk (err e) = config_failed e
  after_config disk (ok config) = after_child disk config (start_child spawn config.child_process)

  unfoldable pub main : Result ConfigFile ConfigError → RuleDir → Disk → Ended (Ran parts)
  main config_file dir disk =
      if try_init
      then if install_default
        then after_config disk (load_and_validate parsers config_file dir)
        else no_provider
      else main_panicked
