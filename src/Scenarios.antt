-- ===== src/Scenarios.antt =====
-- Concrete inputs for the theorems of the other modules: an ASCII table of characters, slash paths,
-- a network of three URLs, and the runs of each component on them.
pub mod Policies
pub mod Downloads
pub mod Clients
pub mod Identities
pub mod Services
pub mod Authentication
pub mod Protection
pub mod Agents
use Prim.Native.Nat.{ℕ, suc, ◌+◌, ◌<◌, ◌≤◌}
use thesis_agent.Base.{
  Bool, true, false, not, ◌&&◌, ◌||◌, Option, none, some, List, [], ◌∷◌, String, if◌then◌else◌, leb,
  ◌==◌, length, any, Text, codes, Unicode, UnicodeLaws, arith, ◌≡◌, ◌≢◌, refl, str_eq, bytes_eq,
  Bool-cases, inl, inr,
}
use thesis_agent.Transport.{Url, Net, FoldLaws}
use thesis_agent.Download.Destination.{Paths, DirLaws, Config}
use thesis_agent.Download.Validate.{Parsers}

abbrev pub ascii : Unicode
ascii = record {
  lower = λ c. if leb b'A' c && leb c b'Z' then c + 32 else c;
  is_space = λ c. c == b' ';
}

pub ascii_laws : UnicodeLaws ascii
ascii_laws = record {
  lower_idem = λ c. ground arith;
  lower_space = λ c. ground arith;
  lower_hyphen = λ c. ground arith;
  lower_underscore = refl;
  letter_plain = λ c low high. (ground arith, ground arith);
  space_hyphen = refl;
  space_underscore = refl;
}

abbrev pub url : String → String → Url
url scheme host = record {
  scheme = scheme;
  opaque_part = "";
  has_user = false;
  host = host;
  hostname = host;
  port = "";
  raw_query = "";
  force_query = false;
  fragment = "";
}

abbrev pub net : Net
net = record {
  parse_url = λ s.
      if str_eq s "https://files.example/a"
      then some (url "https" "files.example")
      else if str_eq s "ws://127.0.0.1/ws"
      then some (url "ws" "127.0.0.1")
      else none;
  equal_fold = str_eq;
  loopback_ip = λ host. str_eq host "127.0.0.1";
}

abbrev has_slash : Text → Bool
has_slash = any (λ c. c == b'/')

abbrev dir_tail : Text → Text
dir_tail [] = []
dir_tail (c ∷ s) = if has_slash s then c ∷ dir_tail s else []

-- filepath.Dir of a clean slash path.
abbrev pub slash_dir : Text → Text
slash_dir [] = codes "."
slash_dir (c ∷ s) =
    if has_slash s then c ∷ dir_tail s else if c == b'/' then codes "/" else codes "."

dir_tail_less : (s : Text) → has_slash s ≡ true → length (dir_tail s) < length s
dir_tail_less [] h = cc
dir_tail_less (c ∷ s) h = ground (arith, dir_tail_less s)

abbrev under : Text → Text → Option Text
under [] [] = some (codes ".")
under [] (c ∷ rest) = if c == b'/' then some rest else none
under (c ∷ root) [] = none
under (c ∷ root) (d ∷ path) = if c == d then under root path else none

abbrev join : Text → Text → Text
join [] name = b'/' ∷ name
join (c ∷ dir) name = c ∷ join dir name

-- The text is ".." or starts with "../".
abbrev climbs : Text → Bool
climbs (a ∷ b ∷ []) = a == b'.' && b == b'.'
climbs (a ∷ b ∷ c ∷ s) = a == b'.' && b == b'.' && c == b'/'
climbs _ = false

-- path/filepath on clean slash paths; filepath.Rel answers only for the root and what lies below it.
abbrev pub slashes : Paths
slashes = record {
  windows = false;
  is_local = λ s. elim s [ [] ↦ false | c ∷ rest ↦ not (c == b'/') && not (climbs (c ∷ rest)) ];
  is_abs = λ s. elim s [ [] ↦ false | c ∷ rest ↦ c == b'/' ];
  is_control = λ c. leb c 31;
  volume_name = λ s. [];
  clean = λ s. s;
  dir = slash_dir;
  join = join;
  rel = under;
}

slash_dir_abs : (s : Text) → slashes.is_abs s ≡ true → slashes.is_abs (slash_dir s) ≡ true
slash_dir_abs [] h = cc
slash_dir_abs (c ∷ s) h = elim (Bool-cases (has_slash s)) [
  | inl deeper ↦ rw deeper h
  | inr top ↦ rw top (rw h refl)
]

slash_dir_shorter :
    (s : Text) → slashes.is_abs s ≡ true → slash_dir s ≢ s → length (slash_dir s) < length s
slash_dir_shorter [] a h = cc
slash_dir_shorter (c ∷ []) a h = let root : c ≡ b'/' = ground arith in absurd (h (rw root refl))
slash_dir_shorter (c ∷ d ∷ s) a h = ground (arith, dir_tail_less (d ∷ s))

pub slashes_laws : DirLaws slashes
slashes_laws = record {
  clean_idem = λ s. refl;
  clean_abs = λ s h. h;
  dir_clean = λ s h. refl;
  dir_abs = λ s h c. slash_dir_abs s h;
  dir_shorter = λ s h c moves. slash_dir_shorter s h moves;
}

-- A checksum, and a decoder that knows only this one, by two of its bytes.
abbrev pub checksum : String
checksum = "0102030405060708010203040506070801020304050607080102030405060708"

abbrev pub parsers : Parsers
parsers = record {
  trim = λ s. s;
  is_uuid = λ s. str_eq s "11111111-1111-1111-1111-111111111111";
  hex_decode = λ s. if str_eq s checksum then some (1 ∷ 2 ∷ []) else none;
  hex_encode = λ d. checksum;
  status_message = λ n. "unexpected HTTP status";
}

abbrev pub config : Config
config = record {
  directory = codes "/data";
  allowed_roots = [];
  max_file_size = 1000;
  allow_http = false;
  boundary = some (codes "/data");
}
