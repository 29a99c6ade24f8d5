-- ===== src/Config/Tests.antt =====
-- The configuration file of a machine with one file.
use wirechat_server.Common.{some, String, ◌⊎◌, ◌≡◌, refl, none, eq_iff, arith}
use wirechat_server.Config.Samples.{one_file, one_file-DiskLaws, found}
use wirechat_server.Config.{default_config}
use wirechat_server.Config.Loader.{
  settings, broken, read_config, decoded, load, write_default_config, load-load,
}

load-load_example :
    ((s : String) × (found (load one_file "conf.yaml" none).disk ≡ settings s)
      × (load one_file "conf.yaml" (load one_file "conf.yaml" none).disk
          ≡ load one_file "conf.yaml" none))
    ⊎ ((found (load one_file "conf.yaml" none).disk ≡ broken)
        × (load one_file "conf.yaml" (load one_file "conf.yaml" none).disk ≡ record {
          config = default_config;
          path = "conf.yaml";
          error = some read_config;
          disk = (load one_file "conf.yaml" none).disk;
        })
        × (load one_file "conf.yaml" none
            ≡ decoded one_file "conf.yaml" none (load one_file "conf.yaml" none).disk))
unfolding write_default_config
load-load_example =
    load-load one_file one_file-DiskLaws "conf.yaml" none (ground (arith, eq_iff "conf.yaml" ""))
      refl refl
