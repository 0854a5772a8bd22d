-- ===== src/RuntimeConfig.antt =====
-- src/server/runtime_config.c, include/runtime_config.h and the start of src/server/main.c: the
-- configuration of the server from its defaults, a file, the environment and the command line. An
-- `int` is its pattern of 32 bits, a `long` of 64. libconfig, `getenv` and `getopt_long` are
-- arguments. What is printed and logged is not modelled, nor are null pointers.
pub mod Workers
mod Examples
use pcd.Prelude.{
  ℕ, ◌+◌, ◌-◌, ◌*◌, ◌^◌, Bool, true, false, not, ◌||◌, ◌&&◌, Option, none, some, List, [], ◌∷◌,
  ◌++◌, Bytes, codes, length, ltb, leb, ◌==◌, if◌then◌else◌, snprintf, u32, u64, bytes_eq,
}
use pcd.Protocol.Number.{is_digit, skip_space, read_digits}

-- `runtime_config_t`.
pub record RuntimeConfig : Type 0 where
  pub user_port : ℕ
  pub admin_port : ℕ
  pub worker_count : ℕ
  pub log_path : Bytes
  pub storage_root : Bytes
  pub config_file : Bytes
  pub unix_socket_path : Bytes
  pub max_upload_bytes : ℕ

unfoldable pub copy_str : Bytes → Bytes
copy_str src = snprintf 256 src

-- A `long` that ends the text, as its pattern; `none` when a digit is missing, when something
-- follows it, or when it is out of range.
abbrev ranged_long : Bool → Bytes → Option ℕ
ranged_long negative [] = none
ranged_long negative (c ∷ digits) =
    let (n, tail) = read_digits 0 (c ∷ digits) in
    let in_range = if negative then leb n (2 ^ 63) else ltb n (2 ^ 63) in
    if is_digit c && ((length tail == 0) && in_range)
    then some (if negative then u64 (2 ^ 64 - n) else n)
    else none

abbrev signed_long : Bytes → Option ℕ
signed_long [] = none
signed_long (c ∷ text) =
    if c == b'-'
    then ranged_long true text
    else if c == b'+'
    then ranged_long false text
    else ranged_long false (c ∷ text)

-- The cast keeps the lower half.
unfoldable pub parse_int_text : Bytes → Option ℕ
parse_int_text text = elim (signed_long (skip_space text)) [
  | none ↦ none
  | some parsed ↦ some (u32 parsed)
]

abbrev pub max_workers : ℕ
max_workers = 8

-- A pattern from 2 ^ 31 on is negative.
unfoldable pub clamp_worker_count : ℕ → ℕ
clamp_worker_count workers =
    if ltb workers 1 || leb (2 ^ 31) workers
    then 1
    else if ltb max_workers workers
    then max_workers
    else workers

unfoldable pub runtime_config_set_defaults : RuntimeConfig
unfolding copy_str
runtime_config_set_defaults = record {
  user_port = 9090;
  admin_port = 9091;
  worker_count = 3;
  log_path = copy_str (codes "logs/server.log");
  storage_root = copy_str (codes "storage");
  config_file = copy_str (codes "config/server.conf");
  unix_socket_path = copy_str (codes "/tmp/stegapng_user.sock");
  max_upload_bytes = 67108864;
}

-- What libconfig finds under each name of a file that it reads.
pub record ConfigFile : Type 0 where
  pub user_port : Option ℕ
  pub admin_port : Option ℕ
  pub worker_count : Option ℕ
  pub log_path : Option Bytes
  pub storage_root : Option Bytes
  pub unix_socket_path : Option Bytes
  pub max_upload_mb : Option ℕ

abbrev pub or_else {ℓ} : {A : Type ℓ} → Option A → A → A
or_else none a = a
or_else (some b) a = b

-- A text that replaces another one, when it is there.
abbrev pub copied_or : Option Bytes → Bytes → Bytes
copied_or none old = old
copied_or (some text) old = copy_str text

abbrev pub workers_or : Option ℕ → ℕ → ℕ
workers_or none old = old
workers_or (some count) old = clamp_worker_count count

-- A `long long` that is positive.
abbrev pub upload_or : Option ℕ → ℕ → ℕ
upload_or none old = old
upload_or (some llv) old = if ltb 0 llv && ltb llv (2 ^ 63) then u64 (llv * 1048576) else old

-- `read_file` is libconfig; it is `none` as well when the server is built without it.
unfoldable pub runtime_config_load_file :
    (Bytes → Option ConfigFile) → RuntimeConfig → Bytes → Bool × RuntimeConfig
runtime_config_load_file read_file cfg path =
    if length path == 0 then (false, cfg) else elim (read_file path) [
      | none ↦ (false, cfg)
      | some lc ↦ (
        true,
        record {
          user_port = or_else lc.user_port cfg.user_port;
          admin_port = or_else lc.admin_port cfg.admin_port;
          worker_count = workers_or lc.worker_count cfg.worker_count;
          log_path = copied_or lc.log_path cfg.log_path;
          storage_root = copied_or lc.storage_root cfg.storage_root;
          config_file = copy_str path;
          unix_socket_path = copied_or lc.unix_socket_path cfg.unix_socket_path;
          max_upload_bytes = upload_or lc.max_upload_mb cfg.max_upload_bytes;
        },
      )
    ]

abbrev pub Environment : Type 0
Environment = Bytes → Option Bytes

-- A variable that is set and not empty.
abbrev pub set_variable : Environment → Bytes → Option Bytes
set_variable getenv name = elim (getenv name) [
  | none ↦ none
  | some value ↦ if length value == 0 then none else some value
]

unfoldable pub parse_int_env : Environment → Bytes → Option ℕ
unfolding parse_int_text
parse_int_env getenv name = elim (set_variable getenv name) [
  | none ↦ none
  | some value ↦ parse_int_text value
]

unfoldable pub runtime_config_apply_env : Environment → RuntimeConfig → RuntimeConfig
unfolding parse_int_env
runtime_config_apply_env getenv cfg = record cfg {
  user_port = or_else (parse_int_env getenv (codes "STEGA_USER_PORT")) cfg.user_port;
  admin_port = or_else (parse_int_env getenv (codes "STEGA_ADMIN_PORT")) cfg.admin_port;
  worker_count = workers_or (parse_int_env getenv (codes "STEGA_WORKERS")) cfg.worker_count;
  log_path = copied_or (set_variable getenv (codes "STEGA_LOG")) cfg.log_path;
  storage_root = copied_or (set_variable getenv (codes "STEGA_STORAGE")) cfg.storage_root;
  unix_socket_path =
      copied_or (set_variable getenv (codes "STEGA_UNIX_SOCKET")) cfg.unix_socket_path;
}

-- What `getopt_long` returns, in order, with the argument of the option.
pub data CliOption : Type 0 where
  config port admin_port unix_socket workers log storage : Bytes → CliOption
  help version unknown : CliOption

-- `return`: whether it is 0, `should_exit`, and the configuration.
abbrev pub CliResult : Type 0
CliResult = Bool × (Bool × RuntimeConfig)

abbrev pub invalid : RuntimeConfig → CliResult
invalid cfg = (false, (false, cfg))

unfoldable pub runtime_config_apply_cli : RuntimeConfig → List CliOption → CliResult
runtime_config_apply_cli cfg [] = (true, (false, cfg))
runtime_config_apply_cli cfg (config optarg ∷ options) =
    runtime_config_apply_cli (record cfg { config_file = copy_str optarg }) options
runtime_config_apply_cli cfg (port optarg ∷ options) = elim (parse_int_text optarg) [
  | none ↦ invalid cfg
  | some parsed ↦ runtime_config_apply_cli (record cfg { user_port = parsed }) options
]
runtime_config_apply_cli cfg (admin_port optarg ∷ options) = elim (parse_int_text optarg) [
  | none ↦ invalid cfg
  | some parsed ↦ runtime_config_apply_cli (record cfg { admin_port = parsed }) options
]
runtime_config_apply_cli cfg (unix_socket optarg ∷ options) =
    runtime_config_apply_cli (record cfg { unix_socket_path = copy_str optarg }) options
runtime_config_apply_cli cfg (workers optarg ∷ options) = elim (parse_int_text optarg) [
  | none ↦ invalid cfg
  | some parsed ↦
      runtime_config_apply_cli (record cfg { worker_count = clamp_worker_count parsed }) options
]
runtime_config_apply_cli cfg (log optarg ∷ options) =
    runtime_config_apply_cli (record cfg { log_path = copy_str optarg }) options
runtime_config_apply_cli cfg (storage optarg ∷ options) =
    runtime_config_apply_cli (record cfg { storage_root = copy_str optarg }) options
runtime_config_apply_cli cfg (help ∷ options) = (true, (true, cfg))
runtime_config_apply_cli cfg (version ∷ options) = (true, (true, cfg))
runtime_config_apply_cli cfg (unknown ∷ options) = (false, (true, cfg))

-- The arguments behind the name of the program: the one behind `-c` or `--config`.
unfoldable pub find_config_path : List Bytes → Option Bytes
find_config_path [] = none
find_config_path (arg ∷ []) = none
find_config_path (arg ∷ next ∷ rest) =
    let later = find_config_path (next ∷ rest) in
    if bytes_eq arg (codes "-c") || bytes_eq arg (codes "--config") then some next else later

-- `out` is what the buffer holds before.
unfoldable pub preparse_config_path : Environment → List Bytes → Bytes → Bytes
unfolding find_config_path
preparse_config_path getenv args out = elim (find_config_path args) [
  | some path ↦ snprintf 256 path
  | none ↦ elim (set_variable getenv (codes "STEGA_CONFIG")) [
    | none ↦ out
    | some env_cfg ↦ snprintf 256 env_cfg
  ]
]

-- `main` up to the exits before the logger starts.
unfoldable pub configure :
    (Bytes → Option ConfigFile) → Environment → List Bytes → List CliOption → CliResult
configure read_file getenv args options =
    let defaults = runtime_config_set_defaults in
    let cfg_path = preparse_config_path getenv args (snprintf 256 defaults.config_file) in
    let loaded = (runtime_config_load_file read_file defaults cfg_path).1 in
    runtime_config_apply_cli (runtime_config_apply_env getenv loaded) options
