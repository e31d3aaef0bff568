-- ===== src/Logging.antt =====
-- The rotating log file (`rotatingLog` of service/logging.go). The directory is a function from a
-- number to the bytes of a file: 0 is the log itself and i is the backup ".i".
pub mod Rotation
use thesis_agent.Base.{
  ℕ, zero, suc, ◌+◌, Bool, true, false, not, ◌&&◌, ◌||◌, Option, none, some, List, [], ◌++◌,
  if◌then◌else◌, ltb, ◌==◌, length, take,
}

pub record RotatingLog : Type 0 where
  pub limit : ℕ
  pub size : ℕ
  pub backups : ℕ
  -- `file` is not nil.
  pub is_open : Bool
  pub disk : ℕ → Option (List ℕ)

-- What the operating system answers to the calls of one Write: opening and Stat, Close, Remove and
-- Rename of backup i, and the bytes that file.Write takes where it fails.
pub record System : Type 0 where
  pub opens : Bool
  pub closes : Bool
  pub removes : ℕ → Bool
  pub renames : ℕ → Bool
  pub short_write : Option ℕ

abbrev pub contents : Option (List ℕ) → List ℕ
contents none = []
contents (some bytes) = bytes

abbrev pub put : ℕ → Option (List ℕ) → (ℕ → Option (List ℕ)) → ℕ → Option (List ℕ)
put i file disk j = if j == i then file else disk j

-- `open`: O_CREATE makes an empty file, and the size is that of the file.
unfoldable pub open_log : System → RotatingLog → RotatingLog × Bool
open_log sys w =
    if not sys.opens
    then (w, false)
    else (let bytes = contents (w.disk 0) in
        (record w { is_open = true; size = length bytes; disk = put 0 (some bytes) w.disk }, true))

-- The moves of `rotateFiles` from backup i down to backup 1.
unfoldable pub shift : System → ℕ → (ℕ → Option (List ℕ)) → (ℕ → Option (List ℕ)) × Bool
shift sys zero disk = (disk, true)
shift sys (suc i) disk =
    let moved = put i none (put (suc i) (disk i) disk) in
    let removed = put (suc i) none disk in
    let rest = shift sys i moved in
    if not (sys.removes (suc i))
    then (disk, false)
    else if not (sys.renames (suc i))
    then (removed, false)
    else rest

-- `rotateFiles`.
unfoldable pub rotate_files : System → RotatingLog → RotatingLog × Bool
rotate_files sys w =
    if not sys.closes
    then (w, false)
    else (let (disk, moved) = shift sys w.backups w.disk in
        (let closed = record w { is_open = false; disk = disk } in
          if moved then open_log sys closed else (closed, false)))

-- What one Write answers: the bytes that it says it wrote, and whether there is an error.
pub record Written : Type 0 where
  pub log : RotatingLog
  pub count : ℕ
  pub ok : Bool

-- The bytes that the file took, at its end.
unfoldable pub extend : List ℕ → RotatingLog → RotatingLog
extend bytes w = record w {
  size = w.size + length bytes;
  disk = put 0 (some (contents (w.disk 0) ++ bytes)) w.disk;
}

-- `p[:w.limit]` of a longer p.
abbrev pub cut : ℕ → List ℕ → List ℕ
cut limit p = if ltb limit (length p) then take limit p else p

-- The end of `Write`, with the file open.
unfoldable pub append : Option ℕ → List ℕ → RotatingLog → Written
append none p w = record { log = extend (cut w.limit p) w; count = length p; ok = true }
append (some n) p w = record {
  log = extend (take n (cut w.limit p)) w;
  count = length (take n (cut w.limit p));
  ok = false;
}

-- `Write` after the file was opened.
unfoldable pub write_open : System → List ℕ → RotatingLog → Written
write_open sys p w =
    if ltb w.limit (w.size + length p)
    then (let (v, rotated) = rotate_files sys w in
        if rotated then append sys.short_write p v else record { log = v; count = 0; ok = false })
    else append sys.short_write p w

-- `Write`.
unfoldable pub write : System → List ℕ → RotatingLog → Written
write sys p w =
    if w.is_open
    then write_open sys p w
    else (let (v, opened) = open_log sys w in
        if opened then write_open sys p v else record { log = v; count = 0; ok = false })
