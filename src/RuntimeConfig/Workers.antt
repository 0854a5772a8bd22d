-- ===== src/RuntimeConfig/Workers.antt =====
-- The number of workers that src/server/runtime_config.c and src/server/main.c allow.
use pcd.Prelude.{
  ℕ, ◌≤◌, ◌^◌, arith, ◌||◌, Option, none, some, List, [], ◌∷◌, Bytes, codes, length, ltb, leb, ◌==◌,
  Bool-cases, Option-cases, inl, inr, snprintf, ltb_false→le,
}
use pcd.RuntimeConfig.{
  RuntimeConfig, ConfigFile, CliOption, config, port, admin_port, unix_socket, workers, log,
  storage, help, version, unknown, Environment, max_workers, parse_int_text, parse_int_env,
  clamp_worker_count, workers_or, runtime_config_set_defaults, runtime_config_load_file,
  runtime_config_apply_env, preparse_config_path, runtime_config_apply_cli, configure,
}

-- The server has room for this many workers and starts one at least.
abbrev pub IsWorkerCount : ℕ → Type 0
IsWorkerCount count = (1 ≤ count) × (count ≤ max_workers)

clamp_worker_count_lem : (count : ℕ) → IsWorkerCount (clamp_worker_count count)
unfolding clamp_worker_count
clamp_worker_count_lem count = elim (Bool-cases (ltb count 1 || leb (2 ^ 31) count)) [
  | inl low ↦ rw (clamp_worker_count, low) (omega arith, omega arith)
  | inr positive ↦ elim (Bool-cases (ltb max_workers count)) [
    | inl high ↦ rw (clamp_worker_count, positive, high) (omega arith, omega arith)
    | inr fits ↦
        rw (clamp_worker_count, positive, fits)
          (ground (arith, positive), ltb_false→le max_workers count fits)
  ]
]

workers_or_lem :
    (found : Option ℕ) (old : ℕ) → IsWorkerCount old → IsWorkerCount (workers_or found old)
workers_or_lem none old h = h
workers_or_lem (some count) old h = clamp_worker_count_lem count

load_file_lem :
    (read_file : Bytes → Option ConfigFile) (cfg : RuntimeConfig) (path : Bytes)
    → IsWorkerCount cfg.worker_count
    → IsWorkerCount (runtime_config_load_file read_file cfg path).1.worker_count
unfolding runtime_config_load_file
load_file_lem read_file cfg path h = elim (Bool-cases (length path == 0)) [
  | inl nothing ↦ rw (runtime_config_load_file, nothing) h
  | inr named ↦ elim (Option-cases (read_file path)) [
    | inl unread ↦ rw (runtime_config_load_file, named, unread) h
    | inr (lc, read) ↦
        rw (runtime_config_load_file, named, read)
          (workers_or_lem lc.worker_count cfg.worker_count h)
  ]
]

apply_env_lem :
    (getenv : Environment) (cfg : RuntimeConfig)
    → IsWorkerCount cfg.worker_count
    → IsWorkerCount (runtime_config_apply_env getenv cfg).worker_count
unfolding runtime_config_apply_env
apply_env_lem getenv cfg h =
    workers_or_lem (parse_int_env getenv (codes "STEGA_WORKERS")) cfg.worker_count h

apply_cli_lem :
    (options : List CliOption) (cfg : RuntimeConfig)
    → IsWorkerCount cfg.worker_count
    → IsWorkerCount (runtime_config_apply_cli cfg options).1.1.worker_count
unfolding runtime_config_apply_cli
apply_cli_lem [] cfg h = h
apply_cli_lem (config optarg ∷ options) cfg h = apply_cli_lem options _ h
apply_cli_lem (port optarg ∷ options) cfg h = elim (Option-cases (parse_int_text optarg)) [
  | inl bad ↦ rw (runtime_config_apply_cli, bad) h
  | inr (parsed, good) ↦ rw (runtime_config_apply_cli, good) (apply_cli_lem options _ h)
]
apply_cli_lem (admin_port optarg ∷ options) cfg h = elim (Option-cases (parse_int_text optarg)) [
  | inl bad ↦ rw (runtime_config_apply_cli, bad) h
  | inr (parsed, good) ↦ rw (runtime_config_apply_cli, good) (apply_cli_lem options _ h)
]
apply_cli_lem (unix_socket optarg ∷ options) cfg h = apply_cli_lem options _ h
apply_cli_lem (workers optarg ∷ options) cfg h = elim (Option-cases (parse_int_text optarg)) [
  | inl bad ↦ rw (runtime_config_apply_cli, bad) h
  | inr (parsed, good) ↦
      rw (runtime_config_apply_cli, good) (apply_cli_lem options _ (clamp_worker_count_lem parsed))
]
apply_cli_lem (log optarg ∷ options) cfg h = apply_cli_lem options _ h
apply_cli_lem (storage optarg ∷ options) cfg h = apply_cli_lem options _ h
apply_cli_lem (help ∷ options) cfg h = h
apply_cli_lem (version ∷ options) cfg h = h
apply_cli_lem (unknown ∷ options) cfg h = h

-- Whatever the configuration file, the environment and the command line say, also on the ways that
-- end with an error, the number of workers is from 1 to 8, the size of the server's arrays of them.
pub configure-IsWorkerCount :
    (read_file : Bytes → Option ConfigFile) (getenv : Environment) (args : List Bytes)
    (options : List CliOption)
    → IsWorkerCount (configure read_file getenv args options).1.1.worker_count
unfolding configure runtime_config_set_defaults
configure-IsWorkerCount read_file getenv args options =
    let defaults = runtime_config_set_defaults in
    let cfg_path = preparse_config_path getenv args (snprintf 256 defaults.config_file) in
    apply_cli_lem options _ (
      apply_env_lem getenv _ (load_file_lem read_file defaults cfg_path (omega arith, omega arith)))
