-- ===== src/App/Start.antt =====
-- internal/app/app.go, cmd/server/main.go and internal/log/logger.go: the start and the end of the program.
use wirechat_server.Common.{
  String, Bool, true, ◌||◌, Option, none, some, List, [], ◌∷◌, str_eq, if◌then◌else◌,
}
use wirechat_server.Auth.{JwtConfig}
use wirechat_server.Config.{Config, ℤ, jwt_config}
use wirechat_server.Engine.{Engine}
use wirechat_server.Calls.{Error}
use wirechat_server.Store.World.{World}
use wirechat_server.Hub.Types.{Ptr, Client}
use wirechat_server.Hub.{Hub}
use wirechat_server.Hub.CallCommands.{CallService}
use wirechat_server.App.{call_service}

-- The levels of zerolog that the program uses.
pub data Level : Type 0 where
  debug_level info_level warn_level error_level : Level

-- `strings.ToLower` is a parameter.
unfoldable pub parse_level : (String → String) → String → Level
parse_level lower level =
    let l : String = lower level in
    if str_eq l "debug"
    then debug_level
    else if str_eq l "info"
    then info_level
    else if str_eq l "warn" || str_eq l "warning"
    then warn_level
    else if str_eq l "error"
    then error_level
    else info_level

-- A flag of the command line: its value, and if it was given.
pub record Flag {ℓ} (A : Type ℓ) : Type ℓ where
  pub value : A
  pub changed : Bool

pub record ServerFlags : Type 0 where
  pub addr : Flag String
  pub read_header_timeout : Flag ℤ
  pub shutdown_timeout : Flag ℤ
  pub log_level : String
  pub config_path : String

abbrev pub flag_or {ℓ} : {A : Type ℓ} → Flag A → A → A
flag_or f a = if f.changed then f.value else a

-- What `run` makes of the configuration that it has loaded.
unfoldable pub with_flags : ServerFlags → Config → Config
with_flags f c = record c {
  addr = flag_or f.addr c.addr;
  read_header_timeout = flag_or f.read_header_timeout c.read_header_timeout;
  shutdown_timeout = flag_or f.shutdown_timeout c.shutdown_timeout;
}

-- NewHub: nobody is connected. The clients of the heap are those that will be.
unfoldable pub new_hub : (Ptr → Client) → World → Hub
new_hub heap w = record {
  heap = heap;
  clients = [];
  rooms = [];
  user_clients = [];
  has_store = true;
  world = w;
}

pub record App : Type 0 where
  pub jwt : JwtConfig
  pub engine : Option Engine
  pub service : CallService
  pub shutdown_timeout : ℤ

pub data NewError : Type 0 where
  init_store livekit_unset : NewError

pub data Start : Type 0 where
  started : App → Start
  failed : NewError → Start

-- `livekit.New` and the errors' texts are parameters, and so is whether the database can be opened.
module _ (new_engine : String → String → String → Engine) (wrapped : Error → String) where
  abbrev pub app_with : Config → Option Engine → App
  app_with cfg engine = record {
    jwt = jwt_config cfg;
    engine = engine;
    service = call_service wrapped engine;
    shutdown_timeout = cfg.shutdown_timeout;
  }

  unfoldable pub new_app : Bool → Config → Start
  new_app store_opens cfg =
      if store_opens
      then (if cfg.livekit.enabled
          then (if str_eq cfg.livekit.api_key "" || str_eq cfg.livekit.api_secret ""
              then failed livekit_unset
              else started (
                  app_with cfg (
                    some
                      (new_engine cfg.livekit.api_key cfg.livekit.api_secret cfg.livekit.ws_url))))
          else started (app_with cfg none))
      else failed init_store

-- What the goroutine of Run does, in order. It starts the goroutines of the hub and of the server and
-- does not wait for that of the hub, which may run on while the store is closed.
pub data Effect : Type 0 where
  starts_hub starts_server shuts_server closes_store : Effect

-- What Run's `select` receives: the server has ended by itself, or the context is done; then what
-- Shutdown returns, and what the server sends at last. `E` is Go's type error, `none` is nil.
pub data Ending (E : Type 0) : Type 0 where
  server_ended : Option E → Ending E
  context_done : Option E → Option E → Ending E

unfoldable pub run_app : {E : Type 0} → Ending E → List Effect × Option E
run_app (server_ended e) = (starts_hub ∷ starts_server ∷ closes_store ∷ [], e)
run_app (context_done (some e) last) =
    (starts_hub ∷ starts_server ∷ shuts_server ∷ closes_store ∷ [], some e)
run_app (context_done none last) =
    (starts_hub ∷ starts_server ∷ shuts_server ∷ closes_store ∷ [], last)
