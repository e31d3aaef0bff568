-- ===== src/Config.antt =====
-- The configuration (config/config.go): the file `.env` and the environment. The environment is a
-- list of its variables; how names compare, the number parsers and the Unicode tables belong to Go
-- and the system, and are parameters.
pub mod Precedence
pub mod Limits
use thesis_agent.Base.{
  ℕ, Bool, true, false, not, ◌&&◌, ◌||◌, Option, none, some, List, [], ◌∷◌, ◌++◌, map, String,
  if◌then◌else◌, ◌==◌, leb, length, head, last, Text, codes, Unicode, trim_space, bytes_eq, ℤ, pos,
  negsuc, is_some,
}

abbrev pub Environment : Type 0
Environment = List (Text × Text)

-- `same` compares the names of variables, `settable` says that os.Setenv takes a name, and
-- `parse_int` and `parse_bool` are strconv.ParseInt and strconv.ParseBool, none for their errors.
pub record Go : Type 0 where
  pub unicode : Unicode
  pub same : Text → Text → Bool
  pub settable : Text → Bool
  pub parse_int : Text → Option ℤ
  pub parse_bool : Text → Option Bool

pub record Config : Type 0 where
  pub transport_mode : Text
  pub socket_url : Text
  pub api_url : Text
  pub heartbeat_seconds : ℕ
  pub performance_seconds : ℕ
  pub ping_seconds : ℕ
  pub download_directory : Text
  pub download_roots : List Text
  pub max_concurrent : ℕ
  pub queue_size : ℕ
  pub max_size : ℕ
  pub allow_local_http : Bool

abbrev starts : ℕ → Text → Bool
starts c [] = false
starts c (d ∷ _) = d == c

abbrev ends : ℕ → Text → Bool
ends c s = elim (last s) [ none ↦ false | some d ↦ d == c ]

-- strings.TrimPrefix.
unfoldable pub strip_prefix : Text → Text → Option Text
strip_prefix [] s = some s
strip_prefix (c ∷ prefix) [] = none
strip_prefix (c ∷ prefix) (d ∷ s) = if c == d then strip_prefix prefix s else none

abbrev or_whole : Text → Option Text → Text
or_whole s none = s
or_whole s (some rest) = rest

abbrev pub trim_prefix : Text → Text → Text
trim_prefix prefix s = or_whole s (strip_prefix prefix s)

abbrev in_front : ℕ → Option (Text × Text) → Option (Text × Text)
in_front c none = none
in_front c (some (key, value)) = some (c ∷ key, value)

-- strings.Cut at "=", none where it is not found.
unfoldable pub cut : Text → Option (Text × Text)
cut [] = none
cut (c ∷ s) = let rest = cut s in if c == b'=' then some ([], s) else in_front c rest

abbrev drop_last : Text → Text
drop_last [] = []
drop_last (c ∷ []) = []
drop_last (c ∷ d ∷ s) = c ∷ drop_last (d ∷ s)

abbrev drop_first : Text → Text
drop_first [] = []
drop_first (_ ∷ s) = s

abbrev apostrophe : ℕ
apostrophe = 39

abbrev quote_mark : ℕ
quote_mark = 34

-- Quotes around a value are taken off.
unfoldable pub unquote : Text → Text
unquote value =
    if leb 2 (length value)
      && ((starts apostrophe value && ends apostrophe value)
          || (starts quote_mark value && ends quote_mark value))
    then drop_first (drop_last value)
    else value

-- strings.Split(value, ";").
abbrev onto : ℕ → List Text → List Text
onto c [] = (c ∷ []) ∷ []
onto c (part ∷ parts) = (c ∷ part) ∷ parts

unfoldable pub split_semicolon : Text → List Text
split_semicolon [] = [] ∷ []
split_semicolon (c ∷ s) =
    let rest = split_semicolon s in if c == b';' then [] ∷ rest else onto c rest

module _ (g : Go) where
  abbrev trim : Text → Text
  trim = trim_space g.unicode

  -- os.LookupEnv.
  unfoldable pub lookup : Text → Environment → Option Text
  lookup key [] = none
  lookup key ((name, value) ∷ rest) =
      let later = lookup key rest in if g.same name key then some value else later

  -- os.Getenv.
  abbrev pub getenv : Text → Environment → Text
  getenv key env = elim (lookup key env) [ none ↦ [] | some value ↦ value ]

  abbrev named : Option (Text × Text) → Option (Text × Text)
  named none = none
  named (some (key, value)) =
      let name = trim key in if bytes_eq name [] then none else some (name, unquote (trim value))

  -- A line of `.env`: the variable that it sets, or none. 65279 is the byte order mark.
  unfoldable pub parse_line : Text → Option (Text × Text)
  parse_line text =
      let line = trim (trim_prefix (65279 ∷ []) text) in
      if bytes_eq line [] || starts b'#' line
      then none
      else named (cut (trim (trim_prefix (codes "export ") line)))

  -- `if _, exists := os.LookupEnv(key); !exists { _ = os.Setenv(key, value) }`.
  unfoldable pub define : Environment → Option (Text × Text) → Environment
  define env none = env
  define env (some (key, value)) =
      if is_some (lookup key env) || not (g.settable key) then env else env ++ (key, value) ∷ []

  -- The loop of `loadDotEnv`.
  unfoldable pub load_lines : Environment → List Text → Environment
  load_lines env [] = env
  load_lines env (line ∷ lines) = load_lines (define env (parse_line line)) lines

  abbrev pub positive : Option ℤ → ℕ → ℕ
  positive none default = default
  positive (some (pos n)) default = if n == 0 then default else n
  positive (some (negsuc _)) default = default

  abbrev or_default : Text → Text → Text
  or_default value default = if bytes_eq value [] then default else value

  unfoldable pub parse_download_roots : Text → List Text
  parse_download_roots value =
      if bytes_eq (trim value) [] then [] else map trim (split_semicolon value)

  abbrev is_enabled : Option Bool → Bool
  is_enabled none = false
  is_enabled (some b) = b

  unfoldable pub parse_bool : Text → Bool
  parse_bool value = is_enabled (g.parse_bool (trim value))

  -- `fromEnvironment`, with 10 << 30 as the default for the size of a download and the separator
  -- of Windows in the default directory.
  unfoldable pub from_environment : Environment → Config
  from_environment env = record {
    transport_mode = getenv (codes "TRANSPORT_MODE") env;
    socket_url = or_default (getenv (codes "WS_SERVER_URL") env) (codes "ws://localhost:8081/ws");
    api_url = or_default (getenv (codes "AGENT_API_URL") env) (codes "http://localhost:8080");
    heartbeat_seconds = 20;
    performance_seconds = 5;
    ping_seconds = 5;
    download_directory =
        or_default (getenv (codes "DOWNLOAD_DIRECTORY") env) (codes "data\\downloads");
    download_roots = parse_download_roots (getenv (codes "DOWNLOAD_ALLOWED_ROOTS") env);
    max_concurrent = positive (g.parse_int (getenv (codes "MAX_CONCURRENT_DOWNLOADS") env)) 2;
    queue_size = positive (g.parse_int (getenv (codes "DOWNLOAD_QUEUE_SIZE") env)) 16;
    max_size = positive (g.parse_int (getenv (codes "MAX_DOWNLOAD_SIZE_BYTES") env)) 10737418240;
    allow_local_http = parse_bool (getenv (codes "ALLOW_LOCAL_HTTP_DOWNLOADS") env);
  }

  -- What `loadDotEnv` finds: no file, an error, or lines, after which the scanner may report one.
  pub data File : Type 0 where
    missing unreadable : File
    lines : List Text → Bool → File

  -- `LoadFile`; none is its error, and the environment may have changed nevertheless.
  unfoldable pub load_file : Environment → File → Environment × Option Config
  load_file env missing = (env, some (from_environment env))
  load_file env unreadable = (env, none)
  load_file env (lines read failed) =
      let after = load_lines env read in
      (after, if failed then none else some (from_environment after))
