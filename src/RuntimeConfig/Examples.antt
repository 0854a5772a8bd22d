-- ===== src/RuntimeConfig/Examples.antt =====
-- Tests of the model of src/server/runtime_config.c, and its theorems at concrete inputs.
use pcd.Prelude.{◌≡◌, refl, none, some, [], ◌∷◌, Bytes, bytes_eq, codes, if◌then◌else◌, Option}
use pcd.Protocol.Number.{is_digit, skip_space, read_digits, is_space}
use pcd.RuntimeConfig.{
  ConfigFile, workers, port, Environment, parse_int_text, clamp_worker_count, configure,
}
use pcd.RuntimeConfig.Workers.{IsWorkerCount, configure-IsWorkerCount}

abbrev variables : Environment
variables name = if bytes_eq name (codes "STEGA_WORKERS") then some (codes "-3") else none

abbrev no_file : Bytes → Option ConfigFile
no_file path = none

configure-IsWorkerCount_example :
    IsWorkerCount
      (configure no_file variables []
        (workers (codes "99") ∷ port (codes "x") ∷ [])).1.1.worker_count
configure-IsWorkerCount_example =
    configure-IsWorkerCount no_file variables [] (workers (codes "99") ∷ port (codes "x") ∷ [])

-- The cast to an `int` keeps the lower half of the number.
wrapped_port : parse_int_text (codes "4294967297") ≡ some 1
unfolding parse_int_text skip_space is_space read_digits is_digit
wrapped_port = refl

negative_workers : clamp_worker_count 4294967293 ≡ 1
unfolding clamp_worker_count
negative_workers = refl
