-- ===== src/Download/Destination.antt =====
-- Destination paths of downloads (download/destination.go and download/policy.go). path/filepath
-- and the Unicode control characters belong to the Go distribution and are parameters.
pub mod Components
pub mod Links
pub mod Roots
use thesis_agent.Base.{
  ℕ, zero, suc, ◌<◌, ◌≡◌, ◌≢◌, Bool, true, false, not, ◌&&◌, ◌||◌, Option, none, some, List, [],
  ◌∷◌, String, if◌then◌else◌, leb, ◌==◌, length, last, any, all, Text, codes, bytes_eq,
  replace_char,
}
use thesis_agent.Download.{JobError, job_error, invalid_destination_path, disk_write_failed}

pub record Paths : Type 0 where
  -- runtime.GOOS is "windows".
  pub windows : Bool
  pub is_local : Text → Bool
  pub is_abs : Text → Bool
  pub is_control : ℕ → Bool
  pub volume_name : Text → Text
  pub clean : Text → Text
  pub dir : Text → Text
  pub join : Text → Text → Text
  -- `none` is the error of filepath.Rel.
  pub rel : Text → Text → Option Text

-- What the walk over the ancestors relies on: filepath.Clean gives a clean path and keeps an absolute
-- one absolute, and filepath.Dir of an absolute clean path is absolute, clean and shorter, or the path
-- itself. (Of a path that is not absolute, filepath.Dir may be longer, as of "".)
pub record DirLaws (p : Paths) : Type 0 where
  pub clean_idem : (path : Text) → p.clean (p.clean path) ≡ p.clean path
  pub clean_abs : (path : Text) → p.is_abs path ≡ true → p.is_abs (p.clean path) ≡ true
  pub dir_clean : (path : Text) → p.clean path ≡ path → p.clean (p.dir path) ≡ p.dir path
  pub dir_abs :
      (path : Text) → p.is_abs path ≡ true → p.clean path ≡ path → p.is_abs (p.dir path) ≡ true
  pub dir_shorter :
      (path : Text)
      → p.is_abs path ≡ true
      → p.clean path ≡ path
      → p.dir path ≢ path
      → length (p.dir path) < length path

pub record Config : Type 0 where
  pub directory : Text
  pub allowed_roots : List Text
  pub max_file_size : ℕ
  pub allow_http : Bool
  -- The root of the Service's boundary.
  pub boundary : Option Text

unfoldable pub contains_any : Text → Text → Bool
contains_any s chars = any (λ c. any (λ d. c == d) chars) s

unfoldable pub ends_with : ℕ → Text → Bool
ends_with c s = elim (last s) [ none ↦ false | some d ↦ d == c ]

unfoldable pub starts_with : Text → Text → Bool
starts_with [] s = true
starts_with (c ∷ prefix) [] = false
starts_with (c ∷ prefix) (d ∷ s) = c == d && starts_with prefix s

abbrev prepend : ℕ → List Text → List Text
prepend c [] = (c ∷ []) ∷ []
prepend c (part ∷ parts) = (c ∷ part) ∷ parts

-- strings.Split(s, "/").
unfoldable pub split_slash : Text → List Text
split_slash [] = [] ∷ []
split_slash (c ∷ s) = let rest = split_slash s in if c == b'/' then [] ∷ rest else prepend c rest

abbrev drop : ℕ → Text → Text
drop zero s = s
drop (suc n) [] = []
drop (suc n) (c ∷ s) = drop n s

abbrev is_letter : ℕ → Bool
is_letter c = (leb b'A' c && leb c b'Z') || (leb b'a' c && leb c b'z')

-- The volume is a letter and a colon.
unfoldable pub is_drive : Text → Bool
is_drive (letter ∷ colon ∷ []) = colon == b':' && is_letter letter
is_drive _ = false

abbrev pub invalid_destination : JobError
invalid_destination =
    job_error invalid_destination_path
      "destination_path must be an allowed absolute local directory"

-- The roots that `destinationDirectory` checks against.
unfoldable pub roots_or_default : List Text → Option Text → Text → List Text
roots_or_default [] none directory = []
roots_or_default [] (some boundary) directory = directory ∷ []
roots_or_default (root ∷ more) boundary directory = root ∷ more

abbrev pub is_empty : List Text → Bool
is_empty [] = true
is_empty (x ∷ xs) = false

module _ (p : Paths) where
  -- `validFilename`.
  unfoldable pub valid_filename : Text → Bool
  valid_filename name =
      if not (p.is_local name)
        || bytes_eq name (codes ".")
        || bytes_eq name (codes "..")
        || contains_any name (codes "/\\")
        || any p.is_control name
      then false
      else not p.windows
        || (not (contains_any name (codes ":<>\"|?*"))
            && not (ends_with b'.' name)
            && not (ends_with b' ' name))

  -- The text whose components `cleanDestination` checks, or `none` where it refuses before.
  unfoldable pub destination_components : Text → Option Text
  destination_components path =
      if not (p.is_abs path)
        || starts_with (codes "\\") path
        || starts_with (codes "//") path
        || any p.is_control path
      then none
      else if p.windows
      then (let volume = p.volume_name path in
          if is_drive volume
          then some (replace_char b'\\' b'/' (drop (length volume) path))
          else none)
      else if contains_any path (codes "\\")
      then none
      else some path

  abbrev pub component_ok : Text → Bool
  component_ok part = bytes_eq part [] || valid_filename part

  -- `cleanDestination`; `none` is `invalidDestination()`.
  unfoldable pub clean_destination : Text → Option Text
  clean_destination path = elim (destination_components path) [
    | none ↦ none
    | some components ↦
        if all component_ok (split_slash components) then some (p.clean path) else none
  ]

  -- `containsPath`.
  unfoldable pub contains_path : Text → Text → Bool
  contains_path root path = elim (p.rel root path) [
    | none ↦ false
    | some rel ↦ bytes_eq rel (codes ".") || p.is_local rel
  ]

  -- `destinationDirectory`; `none` is `invalidDestination()`.
  unfoldable pub destination_directory : Config → Text → Option Text
  destination_directory cfg path =
      let chosen = if bytes_eq path [] then cfg.directory else path in
      elim (clean_destination chosen) [
        | none ↦ none
        | some cleaned ↦
            let roots = roots_or_default cfg.allowed_roots cfg.boundary cfg.directory in
            if is_empty roots || any (λ root. contains_path root cleaned) roots
            then some cleaned
            else none
      ]

-- What os.Lstat says of a path.
pub data Lstat : Type 0 where
  missing inspect_failed plain link : Lstat

abbrev pub inspect_error : JobError
inspect_error = job_error disk_write_failed "could not inspect destination directory"

-- How a walk over the ancestors ends.
pub data Walk : Type 0 where
  clear out_of_fuel : Walk
  blocked : JobError → Walk

module _ (p : Paths) (lstat : Text → Lstat) where
  -- `checkDestinationLinks`, with fuel for the ancestors.
  unfoldable pub check_links : ℕ → Text → Walk
  check_links zero current = out_of_fuel
  check_links (suc fuel) current =
      let rest = check_links fuel (p.dir current) in
      let upwards = if bytes_eq (p.dir current) current then clear else rest in
      elim (lstat current) [
        | missing ↦ upwards
        | plain ↦ upwards
        | inspect_failed ↦ blocked inspect_error
        | link ↦ blocked invalid_destination
      ]

  unfoldable pub check_destination_links : Text → Walk
  check_destination_links path = check_links (suc (length path)) path
