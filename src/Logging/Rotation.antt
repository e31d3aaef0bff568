-- ===== src/Logging/Rotation.antt =====
-- Bounds and contents of the rotating log (service/logging.go).
use thesis_agent.Base.{
  ℕ, zero, suc, ◌+◌, ◌≤◌, ◌<◌, ◌≡◌, ◌⊎◌, refl, true, false, Option, none, some, List, [], ◌∷◌, ltb,
  length, take, length-append, length-take, arith, ap, Bool-cases, ltb→lt, inl, inr, ◌∙◌,
}
use thesis_agent.Logging.{
  RotatingLog, System, contents, put, open_log, shift, rotate_files, extend, cut, append,
  write_open, write,
}

-- The recorded size is that of the file while it is open, and every file is within the limit.
pub record IsWithin (w : RotatingLog) : Type 0 where
  pub has_backups : 0 < w.backups
  pub counted : w.is_open ≡ true → w.size ≡ length (contents (w.disk 0))
  pub bounded : (i : ℕ) → length (contents (w.disk i)) ≤ w.limit

-- After the moves the log's own name is free, every backup holds the file before it, and no other
-- file changes.
record IsShifted (n : ℕ) (disk moved : ℕ → Option (List ℕ)) : Type 0 where
  each : (i : ℕ) → i < n → moved (i + 1) ≡ disk i
  first : 0 < n → moved 0 ≡ none
  idle : n ≡ 0 → moved 0 ≡ disk 0
  rest : (i : ℕ) → n < i → moved i ≡ disk i

shift_each :
    (n : ℕ) (disk moved : ℕ → Option (List ℕ))
    → IsShifted n (put n none (put (suc n) (disk n) disk)) moved
    → (i : ℕ) → i < suc n
    → moved (i + 1) ≡ disk i
shift_each n disk moved go i l = elim (Bool-cases (ltb i n)) [
  | inl less ↦ go.each i (ltb→lt i n less) ∙ ground arith
  | inr more ↦
      let last : i ≡ n = ground arith in
      go.rest (i + 1) (omega arith) ∙ ground (arith, ap disk last)
]

shift_first :
    (n : ℕ) (disk moved : ℕ → Option (List ℕ))
    → IsShifted n (put n none (put (suc n) (disk n) disk)) moved
    → moved 0 ≡ none
shift_first zero disk moved go = go.idle refl ∙ ground arith
shift_first (suc n) disk moved go = go.first (omega arith)

shift-IsShifted :
    (sys : System) (n : ℕ) (disk : ℕ → Option (List ℕ))
    → (shift sys n disk).1 ≡ true
    → IsShifted n disk (shift sys n disk).0
unfolding shift
shift-IsShifted sys zero disk h = record {
  each = λ i l. absurd (omega arith);
  first = λ l. absurd (omega arith);
  idle = λ l. refl;
  rest = λ i l. refl;
}
shift-IsShifted sys (suc n) disk h =
    let moved = put n none (put (suc n) (disk n) disk) in
    let before : (shift sys n moved).1 ≡ true = ground (arith, h) in
    let go = shift-IsShifted sys n moved before in
    let same : (shift sys (suc n) disk).0 ≡ (shift sys n moved).0 = ground (arith, h) in
    record {
      each = λ i l. ap (λ f. f (i + 1)) same ∙ shift_each n disk (shift sys n moved).0 go i l;
      first = λ l. ap (λ f. f 0) same ∙ shift_first n disk (shift sys n moved).0 go;
      idle = λ l. absurd (omega arith);
      rest = λ i l. ap (λ f. f i) same ∙ go.rest i (omega arith) ∙ ground arith;
    }

abbrev IsSmall : ℕ → (ℕ → Option (List ℕ)) → Type 0
IsSmall limit disk = (i : ℕ) → length (contents (disk i)) ≤ limit

put-IsSmall :
    (limit n : ℕ) (file : Option (List ℕ)) (disk : ℕ → Option (List ℕ))
    → length (contents file) ≤ limit
    → IsSmall limit disk
    → IsSmall limit (put n file disk)
put-IsSmall limit n file disk h small i = ground (arith, h, small i)

shift-IsSmall :
    (sys : System) (limit n : ℕ) (disk : ℕ → Option (List ℕ))
    → IsSmall limit disk
    → IsSmall limit (shift sys n disk).0
unfolding shift
shift-IsSmall sys limit zero disk small i = small i
shift-IsSmall sys limit (suc n) disk small i =
    let empty : length (contents none) ≤ limit = omega arith in
    let renamed = put-IsSmall limit (suc n) (disk n) disk (small n) small in
    let moved = put-IsSmall limit n none (put (suc n) (disk n) disk) empty renamed in
    let removed = put-IsSmall limit (suc n) none disk empty small in
    ground (
      arith,
      small i,
      removed i,
      shift-IsSmall sys limit n (put n none (put (suc n) (disk n) disk)) moved i,
    )

open_log-IsWithin : (sys : System) (w : RotatingLog) → IsWithin w → IsWithin (open_log sys w).0
unfolding open_log
open_log-IsWithin sys w v = record {
  has_backups = ground (arith, v.has_backups);
  counted = ground (arith, v.counted);
  bounded = λ i. ground (arith, v.bounded i, v.bounded 0);
}

open_log_opens :
    (sys : System) (w : RotatingLog) → (open_log sys w).1 ≡ true → (open_log sys w).0.is_open ≡ true
unfolding open_log
open_log_opens sys w h = ground (arith, h)

rotate_files-IsWithin :
    (sys : System) (w : RotatingLog) → IsWithin w → IsWithin (rotate_files sys w).0
unfolding rotate_files
rotate_files-IsWithin sys w v =
    let small = shift-IsSmall sys w.limit w.backups w.disk v.bounded in
    let closed : RotatingLog = record w {
      is_open = false;
      disk = (shift sys w.backups w.disk).0;
    } in
    let within : IsWithin closed = record {
      has_backups = v.has_backups;
      counted = λ h. cc;
      bounded = small;
    } in
    let opened = open_log-IsWithin sys closed within in
    record {
      has_backups = ground (arith, v.has_backups, opened.has_backups);
      counted = ground (arith, v.counted, opened.counted);
      bounded = λ i. ground (arith, v.bounded i, small i, opened.bounded i);
    }

-- With at least one backup, a rotation that succeeds leaves the log open and empty, its limit as
-- it was, and every backup is the file before it.
pub rotate_files_moves :
    (sys : System) (w : RotatingLog)
    → 0 < w.backups
    → (rotate_files sys w).1 ≡ true
    → ((rotate_files sys w).0.size ≡ 0)
      × ((rotate_files sys w).0.limit ≡ w.limit)
      × ((rotate_files sys w).0.is_open ≡ true)
      × ((rotate_files sys w).0.disk 0 ≡ some [])
      × ((i : ℕ) → i < w.backups → (rotate_files sys w).0.disk (i + 1) ≡ w.disk i)
unfolding rotate_files open_log
rotate_files_moves sys w h k =
    let moved : (shift sys w.backups w.disk).1 ≡ true = ground (arith, k) in
    let go = shift-IsShifted sys w.backups w.disk moved in
    (
      ground (arith, k, go.first h),
      ground (arith, k),
      ground (arith, k),
      ground (arith, k, go.first h),
      λ i l. ground (arith, k, go.each i l),
    )

extend-IsWithin :
    (bytes : List ℕ) (w : RotatingLog)
    → IsWithin w
    → length (contents (w.disk 0)) + length bytes ≤ w.limit
    → IsWithin (extend bytes w)
unfolding extend
extend-IsWithin bytes w v fits =
    let sum = length-append (contents (w.disk 0)) bytes in
    record {
      has_backups = v.has_backups;
      counted = λ h. ground (arith, v.counted h, sum);
      bounded = λ i. ground (arith, v.bounded i, sum);
    }

length-take_less : (n : ℕ) (xs : List ℕ) → length (take n xs) ≤ length xs
length-take_less zero xs = omega arith
length-take_less (suc n) [] = omega arith
length-take_less (suc n) (x ∷ xs) = omega (arith, length-take_less n xs)

append-IsWithin :
    (short : Option ℕ) (p : List ℕ) (w : RotatingLog)
    → IsWithin w
    → w.is_open ≡ true
    → (w.size + length p ≤ w.limit) ⊎ (w.size ≡ 0)
    → IsWithin (append short p w).log
unfolding append
append-IsWithin none p w v o room =
    let counted = v.counted o in
    let short = length-take w.limit p in extend-IsWithin (cut w.limit p) w v (ground arith)
append-IsWithin (some n) p w v o room =
    let counted = v.counted o in
    let short = length-take w.limit p in
    let less = length-take_less n (cut w.limit p) in
    extend-IsWithin (take n (cut w.limit p)) w v (ground arith)

write_open-IsWithin :
    (sys : System) (p : List ℕ) (w : RotatingLog)
    → IsWithin w
    → w.is_open ≡ true
    → IsWithin (write_open sys p w).log
unfolding write_open
write_open-IsWithin sys p w v o = elim (Bool-cases (ltb w.limit (w.size + length p))) [
  | inr small ↦ rw small (append-IsWithin sys.short_write p w v o (ground (arith, small)))
  | inl big ↦ elim (Bool-cases (rotate_files sys w).1) [
    | inl ok ↦
        let moved = rotate_files_moves sys w v.has_backups ok in
        rw big (
          rw ok (
            append-IsWithin sys.short_write p (rotate_files sys w).0 (rotate_files-IsWithin sys w v)
              moved.2 (inr moved.0)))
    | inr failed ↦ rw big (rw failed (rotate_files-IsWithin sys w v))
  ]
]

-- From a log with at least one backup, whose files are within the limit and whose recorded size is
-- that of the open file, Write keeps all of that, whatever calls of the operating system fail.
pub write-IsWithin :
    (sys : System) (p : List ℕ) (w : RotatingLog) → IsWithin w → IsWithin (write sys p w).log
unfolding write
write-IsWithin sys p w v = elim (Bool-cases w.is_open) [
  | inl o ↦ simp o (write_open-IsWithin sys p w v o)
  | inr closed ↦ elim (Bool-cases (open_log sys w).1) [
    | inl ok ↦
        simp (closed, ok)
          (write_open-IsWithin sys p (open_log sys w).0 (open_log-IsWithin sys w v)
            (open_log_opens sys w ok))
    | inr failed ↦ simp (closed, failed) (open_log-IsWithin sys w v)
  ]
]
