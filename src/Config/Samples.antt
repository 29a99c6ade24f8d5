-- ===== src/Config/Samples.antt =====
-- A machine with one file, for runs of internal/config/loader.go.
use wirechat_server.Common.{◌≢◌, String, true, refl, Option, none, some}
use wirechat_server.Config.Loader.{Machine, ReadResult, settings, missing, DiskLaws}

abbrev pub found : Option String → ReadResult String
found none = missing
found (some text) = settings text

abbrev pub one_file : Machine
one_file = record {
  Disk = Option String;
  Settings = String;
  getenv = λ name. "";
  getwd = none;
  join = λ a b. b;
  dir = λ path. path;
  mkdir_all = λ path d. (true, d);
  write_file = λ path text d. (true, some text);
  marshal = λ c. some c.addr;
  read_in = λ path d. found d;
  decode = λ s c. (elim s [ none ↦ c | some text ↦ record c { addr = text } ], true);
}

settings-missing : (text : String) → ◌≢◌ {A = ReadResult String} (settings text) missing
settings-missing text e = cc

pub one_file-DiskLaws : DiskLaws one_file
one_file-DiskLaws = record {
  parse = λ path text. settings text;
  parse-there = λ path text. settings-missing text;
  read-write = λ path text d w. refl;
}
