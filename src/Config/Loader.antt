-- ===== src/Config/Loader.antt =====
-- internal/config/loader.go: the configuration from a file, which is written if there is none.
use wirechat_server.Common.{
  ◌≡◌, ◌≢◌, ◌⊎◌, ◌∙◌, sym, refl, Bool-cases, Option-cases, inl, inr, String, Bool, true, false, not,
  Option, none, some, str_eq, eq_iff, if◌then◌else◌, arith,
}
use wirechat_server.Config.{Config, default_config}

-- What the reading of a configuration file comes to: its settings, no file, or another error.
pub data ReadResult (Settings : Type 0) : Type 0 where
  settings : Settings → ReadResult Settings
  missing : ReadResult Settings
  broken : ReadResult Settings

-- The operating system, the YAML library and viper. A call that may fail says whether it worked.
-- `decode` is `v.Unmarshal(&cfg)`: the configuration as it is afterwards, from the settings of the
-- file if one was read, the environment, and the defaults.
pub record Machine : Type 1 where
  pub Disk : Type 0
  pub Settings : Type 0
  pub getenv : String → String
  pub getwd : Option String
  pub join : String → String → String
  pub dir : String → String
  pub mkdir_all : String → Disk → Bool × Disk
  pub write_file : String → String → Disk → Bool × Disk
  pub marshal : Config → Option String
  pub read_in : String → Disk → ReadResult Settings
  pub decode : Option Settings → Config → Config × Bool

pub data LoadError : Type 0 where
  read_config unmarshal_config : LoadError

pub record Loaded (Disk : Type 0) : Type 0 where
  pub config : Config
  pub path : String
  pub error : Option LoadError
  pub disk : Disk

abbrev pub default_config_name : String
default_config_name = "config.yaml"

module _ (m : Machine) where
  open m use {Disk, Settings}

  working_path : String
  working_path = elim m.getwd [
    | none ↦ default_config_name
    | some cwd ↦ m.join cwd default_config_name
  ]

  unfoldable pub resolve_config_path : String → Disk → String × Disk
  unfolding working_path
  resolve_config_path explicit d =
      if not (str_eq explicit "")
      then (explicit, d)
      else (let base : String = m.getenv "WIRECHAT_CONFIG_DEFAULT_PATH" in
          if str_eq base ""
          then (working_path, d)
          else (let (made, d') = m.mkdir_all base d in
              if made then (m.join base default_config_name, d') else (working_path, d')))

  write_marshalled : String → Option String → Disk → Bool × Disk
  write_marshalled path none d = (false, d)
  write_marshalled path (some text) d = m.write_file path text d

  unfoldable pub write_default_config : String → Config → Disk → Bool × Disk
  unfolding write_marshalled
  write_default_config path cfg d =
      let (made, d') = m.mkdir_all (m.dir path) d in
      if made then write_marshalled path (m.marshal cfg) d' else (false, d')

  -- The end of Load, with the settings that were read.
  pub decoded : String → Option Settings → Disk → Loaded Disk
  decoded path s d =
      let (cfg, worked) = m.decode s default_config in
      record {
        config = cfg;
        path = path;
        error = if worked then none else some unmarshal_config;
        disk = d;
      }

  -- The second read, after the default was written; its error is only logged.
  read_again : ReadResult Settings → Option Settings
  read_again (settings s) = some s
  read_again missing = none
  read_again broken = none

  after_read : String → ReadResult Settings → Disk → Loaded Disk
  unfolding decoded read_again
  after_read path (settings s) d = decoded path (some s) d
  after_read path broken d = record {
    config = default_config;
    path = path;
    error = some read_config;
    disk = d;
  }
  after_read path missing d =
      let (_, d') = write_default_config path default_config d in
      decoded path (read_again (m.read_in path d')) d'

  unfoldable pub load : String → Disk → Loaded Disk
  unfolding after_read
  load explicit d =
      let (path, d') = resolve_config_path explicit d in after_read path (m.read_in path d') d'

  -- What the program relies on: what is read of a file that was written depends on its path and its
  -- text alone, which may well be no valid configuration, and the file is not missing.
  pub record DiskLaws : Type 0 where
    pub parse : String → String → ReadResult Settings
    pub parse-there : (path text : String) → parse path text ≢ missing
    pub read-write :
        (path text : String) (d : Disk)
        → (m.write_file path text d).0 ≡ true
        → m.read_in path (m.write_file path text d).1 ≡ parse path text

  write_default-read :
      (laws : DiskLaws) (path : String) (d : Disk)
      → (write_default_config path default_config d).0 ≡ true
      → m.read_in path (write_default_config path default_config d).1 ≢ missing
  unfolding write_default_config write_marshalled
  write_default-read laws path d w = elim (Bool-cases (m.mkdir_all (m.dir path) d).0) [
    | inr no_dir ↦ absurd (ground (arith, no_dir))
    | inl made ↦ elim (Option-cases (m.marshal default_config)) [
      | inl none_made ↦ absurd (ground (arith, made, none_made))
      | inr (text, q) ↦
          let there : Disk = (m.mkdir_all (m.dir path) d).1 in
          let read = laws.read-write path text there (rw (made, q) at w) in
          rw (made, q) (λ e. laws.parse-there path text (sym read ∙ e))
    ]
  ]

  ReadResult-cases :
      (r : ReadResult Settings) → r ≢ missing → ((s : Settings) × (r ≡ settings s)) ⊎ (r ≡ broken)
  ReadResult-cases (settings s) n = inl (s, refl)
  ReadResult-cases missing n = absurd (n refl)
  ReadResult-cases broken n = inr refl

  load-settings :
      (path : String) (s : Settings) (d : Disk)
      → str_eq path "" ≡ false
      → m.read_in path d ≡ settings s
      → load path d ≡ decoded path (some s) d
  unfolding load resolve_config_path after_read
  load-settings path s d named q = rw (named, q) refl

  load-broken :
      (path : String) (d : Disk)
      → str_eq path "" ≡ false
      → m.read_in path d ≡ broken
      → load path d
        ≡ record { config = default_config; path = path; error = some read_config; disk = d }
  unfolding load resolve_config_path after_read
  load-broken path d named q = rw (named, q) refl

  load-written :
      (path : String) (d : Disk)
      → str_eq path "" ≡ false
      → m.read_in path d ≡ missing
      → load path d
        ≡ decoded path
            (read_again (m.read_in path (write_default_config path default_config d).1))
            (write_default_config path default_config d).1
  unfolding load resolve_config_path after_read
  load-written path d named gone = rw (named, gone) refl

  -- If Load with an explicit path finds no file there and can write the default one, then a second
  -- Load with the same path reads the file of the first. If that file can be parsed, the second
  -- Load gives the same configuration, path and error, and leaves the disk as it is. If it cannot,
  -- the second one fails with an error of reading, and the built-in defaults, where the first one
  -- has decoded the environment without a file.
  pub load-load :
      (laws : DiskLaws) (path : String) (d : Disk)
      → path ≢ ""
      → m.read_in path d ≡ missing
      → (write_default_config path default_config d).0 ≡ true
      → ((s : Settings) × (m.read_in path (load path d).disk ≡ settings s)
          × (load path (load path d).disk ≡ load path d))
        ⊎ ((m.read_in path (load path d).disk ≡ broken)
            × (load path (load path d).disk ≡ record {
              config = default_config;
              path = path;
              error = some read_config;
              disk = (load path d).disk;
            })
            × (load path d ≡ decoded path none (load path d).disk))
  unfolding read_again decoded
  load-load laws path d n gone wrote =
      let named : str_eq path "" ≡ false = ground (arith, eq_iff path "", n) in
      let d' : Disk = (write_default_config path default_config d).1 in
      let first = load-written path d named gone in
      elim (ReadResult-cases (m.read_in path d') (write_default-read laws path d wrote)) [
        | inl (s, q) ↦
            let same : load path d ≡ decoded path (some s) d' = rw (q) at first in
            inl (rw (same) (s, q, load-settings path s d' named q))
        | inr q ↦
            let same : load path d ≡ decoded path none d' = rw (q) at first in
            inr (rw (same) (q, load-broken path d' named q, refl))
      ]

  -- A missing file at an explicit path is no error of reading, whether or not the default one could be
  -- written.
  pub load-missing :
      (path : String) (d : Disk)
      → path ≢ ""
      → m.read_in path d ≡ missing
      → (load path d).error ≢ some read_config
  unfolding load resolve_config_path after_read decoded
  load-missing path d n gone e =
      let named : str_eq path "" ≡ false = ground (arith, eq_iff path "", n) in
      ground (arith, named)
