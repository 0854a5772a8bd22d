-- ===== src/Logger.antt =====
-- src/server/logger.c: the directories of the log file, and the lines written to it. The formatted
-- message and the text of the time are arguments; the mutex serves one call at a time, and so does
-- an application of a function here.
pub mod Directories
mod Examples
use pcd.Prelude.{
  ℕ, Bool, true, false, not, ◌&&◌, ◌||◌, Option, none, some, List, [], ◌∷◌, ◌++◌, Bytes, codes,
  length, ltb, leb, ◌==◌, if◌then◌else◌,
}
use pcd.Storage.{Entry, absent, directory, other_file, make_directory}

-- `log_level_t`; any other value is the last.
pub data LogLevel : Type 0 where
  info warn error other_level : LogLevel

unfoldable pub level_to_string : LogLevel → Bytes
level_to_string info = codes "INFO"
level_to_string warn = codes "WARN"
level_to_string error = codes "ERROR"
level_to_string other_level = codes "UNKNOWN"

-- `BUFFER_SIZE`.
abbrev pub buffer_size : ℕ
buffer_size = 4096

-- The outcome of `mkdir`: made, EEXIST, or another error.
pub data MkdirOutcome : Type 0 where
  made exists refused : MkdirOutcome

abbrev pub Tree : Type 0
Tree = Bytes → Entry

-- The text before the last `/`; `none` without one.
unfoldable pub before_last_slash : Bytes → Option Bytes
before_last_slash [] = none
before_last_slash (ch ∷ path) = elim (before_last_slash path) [
  | some before ↦ some (ch ∷ before)
  | none ↦ if ch == b'/' then some [] else none
]

-- What `mkdir` does at a path where `stat` fails. A path that exists by then is left to its maker.
module _ (mkdir : Bytes → MkdirOutcome) where
  unfoldable pub ensure_dir : Tree → Bytes → Bool × Tree
  ensure_dir tree path = if length path == 0 then (false, tree) else elim (tree path) [
    | directory ↦ (true, tree)
    | other_file ↦ (false, tree)
    | absent ↦ elim (mkdir path) [
      | made ↦ (true, make_directory tree path)
      | exists ↦ (true, tree)
      | refused ↦ (false, tree)
    ]
  ]

  -- The loop of `ensure_parent_dirs_for_file` at the text behind `before`, and the call behind it.
  unfoldable pub ensure_prefixes : Tree → Bytes → Bytes → Bool × Tree
  unfolding ensure_dir
  ensure_prefixes tree before [] = ensure_dir tree before
  ensure_prefixes tree before (ch ∷ path) =
      let (ready, tree') = ensure_dir tree before in
      let on = ensure_prefixes tree' (before ++ (ch ∷ [])) path in
      let straight = ensure_prefixes tree (before ++ (ch ∷ [])) path in
      if ch == b'/' then (if ready then on else (false, tree')) else straight

  -- The first byte of the path is not looked at by the loop.
  unfoldable pub ensure_parent_dirs_for_file : Tree → Bytes → Bool × Tree
  unfolding ensure_prefixes before_last_slash
  ensure_parent_dirs_for_file tree path =
      if (length path == 0) || leb buffer_size (length path)
      then (false, tree)
      else elim (before_last_slash path) [
        | none ↦ (true, tree)
        | some [] ↦ (true, tree)
        | some (first ∷ rest) ↦ ensure_prefixes tree (first ∷ []) rest
      ]

  -- The file's global is the path of the open log. `can_append`: whether `fopen` succeeds.
  unfoldable pub logger_init : Bool → Tree → Bytes → Option Bytes → Bool × (Tree × Option Bytes)
  logger_init can_append tree path log_file =
      let (ready, tree') = ensure_parent_dirs_for_file tree path in
      if not ready
      then (false, (tree', log_file))
      else if can_append
      then (true, (tree', some path))
      else (false, (tree', none))

unfoldable pub logger_close : Option Bytes → Option Bytes
logger_close log_file = none

-- The line of a message, with the text of the time.
unfoldable pub log_line : Bytes → LogLevel → Bytes → Bytes
log_line time_text level message =
    codes "["
    ++ (time_text
        ++ (codes "] [" ++ (level_to_string level ++ (codes "] " ++ (message ++ codes "\n")))))

-- What has been written to the log file and to the standard error.
pub record LogOutput : Type 0 where
  pub written : Bytes
  pub stderr : Bytes

-- `time_text` is none when the local time or its text is not at hand.
unfoldable pub logger_log : Option Bytes → Option Bytes → LogLevel → Bytes → LogOutput → LogOutput
unfolding log_line
logger_log log_file none level message out = out
logger_log log_file (some time_text) level message out = elim log_file [
  | none ↦ record out { stderr = out.stderr ++ log_line time_text level message }
  | some path ↦ record out { written = out.written ++ log_line time_text level message }
]
