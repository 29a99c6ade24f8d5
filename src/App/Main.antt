-- ===== src/App/Main.antt =====
-- cmd/server/main.go: the program from its flags to its end.
use wirechat_server.Common.{String, Bool, Option, List}
use wirechat_server.Config.{Config}
use wirechat_server.Config.Loader.{Machine, load}
use wirechat_server.Engine.{Engine}
use wirechat_server.Calls.{Error}
use wirechat_server.App.Start.{
  ServerFlags, with_flags, Start, started, failed, NewError, Effect, Ending, new_app, run_app,
}

-- How the program ends: `logger.Fatal` where New fails, and else what Run did and returned; an error
-- makes the exit code 1.
pub data Exit (E : Type 0) : Type 0 where
  fatal : NewError → Exit E
  exited : List Effect → Option E → Exit E

after_new : {E : Type 0} → Ending E → Start → Exit E
unfolding run_app
after_new ending (failed e) = fatal e
after_new ending (started a) = let (effects, e) = run_app ending in exited effects e

module _ (m : Machine) (new_engine : String → String → String → Engine)
    (wrapped : Error → String) where
  open m use {Disk}

  -- The configuration that `run` makes: an error of Load is only logged.
  abbrev pub configured : ServerFlags → Disk → Config
  configured f d = with_flags f (load m f.config_path d).config

  unfoldable pub run : {E : Type 0} → Bool → ServerFlags → Ending E → Disk → Exit E
  unfolding after_new
  run store_opens f ending d =
      after_new ending (new_app new_engine wrapped store_opens (configured f d))
