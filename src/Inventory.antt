-- ===== src/Inventory.antt =====
-- The inventory of installed applications (`CollectWith` of installedapps/collector.go). The reader
-- of the registry, the JSON encoder, Go's sort and the Unicode tables are parameters.
pub mod Bounds
use thesis_agent.Base.{
  ℕ, suc, ◌+◌, Bool, true, false, not, Option, none, some, List, [], ◌∷◌, ◌++◌, if◌then◌else◌, ltb,
  leb, length, take, any, Text, Unicode, trim_space, to_lower, bytes_eq,
}

-- `App`.
pub record App : Type 0 where
  pub name : Text
  pub version : Text
  pub publisher : Text
  pub install_date : Text
  pub size : Option ℕ

-- `Entry`.
pub record Entry : Type 0 where
  pub key : Text
  pub app : App

abbrev pub max_apps : ℕ
max_apps = 2000

abbrev pub max_entries : ℕ
max_entries = 10000

-- `encode` is json.Marshal, `sort` the call of sort.Slice, and `cancelled n` says that `ctx.Err()` is
-- not nil behind the first `n` entries.
pub record Go : Type 0 where
  pub unicode : Unicode
  pub encode : App → Text
  pub sort : List App → List App
  pub cancelled : ℕ → Bool

-- The locals of `CollectWith`.
pub record State : Type 0 where
  pub apps : List App
  pub seen : List Text
  pub entries : ℕ

abbrev pub empty : State
empty = record { apps = []; seen = []; entries = 0 }

-- MaxSizeKB.
abbrev pub keep_size : Option ℕ → Option ℕ
keep_size none = none
keep_size (some n) = if ltb 4294967295 n then none else some n

module _ (g : Go) where
  unfoldable pub bounded : Text → ℕ → Text
  bounded s n = take n (trim_space g.unicode s)

  -- The fields of an entry's application, cut.
  unfoldable pub cut : App → App
  cut a = record {
    name = bounded a.name 512;
    version = bounded a.version 256;
    publisher = bounded a.publisher 512;
    install_date = bounded a.install_date 32;
    size = keep_size a.size;
  }

  abbrev pub mark : Entry → Text
  mark e = to_lower g.unicode e.key ++ 0 ∷ g.encode (cut e.app)

  -- The callback of `read`; none is an error.
  unfoldable pub visit : State → Entry → Option State
  visit s e =
      let counted = record s { entries = suc s.entries } in
      if g.cancelled s.entries
      then none
      else if ltb max_entries (suc s.entries)
      then none
      else if bytes_eq (bounded e.app.name 512) []
      then some counted
      else if any (bytes_eq (mark e)) s.seen
      then some counted
      else if leb max_apps (length s.apps)
      then none
      else some (record counted { apps = s.apps ++ cut e.app ∷ []; seen = mark e ∷ s.seen })

  -- A view: its entries, and whether the reader fails behind them.
  unfoldable pub read_view : Option State → List Entry → Bool → Option State
  read_view none entries fails = none
  read_view (some s) [] fails = if fails then none else some s
  read_view (some s) (e ∷ entries) fails = read_view (visit s e) entries fails

  abbrev pub started : Option State → Option State
  started none = none
  started (some s) = if g.cancelled s.entries then none else some s

  abbrev pub sorted : Option State → Option (List App)
  sorted none = none
  sorted (some s) = if g.cancelled s.entries then none else some (g.sort s.apps)

  -- `CollectWith`, on the views of 64 and of 32 bits.
  unfoldable pub collect : List Entry × Bool → List Entry × Bool → Option (List App)
  collect (wide, wide_fails) (narrow, narrow_fails) =
      let first = read_view (started (some empty)) wide wide_fails in
      sorted (read_view (started first) narrow narrow_fails)
