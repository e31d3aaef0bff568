-- ===== src/Download/Progress.antt =====
-- Progress reports (progressWriter of download/manager.go). Byte counts are int64; the product with
-- 100 keeps its wrap-around.
use thesis_agent.Base.{
  ℕ, zero, suc, ◌+◌, ◌-◌, ◌*◌, ◌/◌, ◌%◌, ◌^◌, ◌≤◌, ◌<◌, ◌≡◌, Bool, true, Option, none, some, arith,
  if◌then◌else◌, ltb, leb, ◌==◌, ℤ, pos, negsuc, min, ◌↔◌,
}
use native.Mathlib.Nat.{le-div_iff_mul-le}

pub record Writer : Type 0 where
  pub written : ℕ
  pub write_failed : Bool
  pub total : ℤ
  -- `none` is the zero time, which lies further back than any interval.
  pub last : Option ℕ
  pub interval : ℕ

-- `int(p.written * 100 / p.total)` for a positive total, kept within 0 and 100: a product past
-- int64 is negative, and so is the quotient, if it is not 0.
unfoldable pub quotient : ℕ → ℕ → ℕ
quotient written total =
    let product = written * 100 % 2 ^ 64 in
    if leb (2 ^ 63) product then 0 else if ltb 100 (product / total) then 100 else product / total

-- The percentage that `emit` reports.
unfoldable pub percent : ℕ → ℤ → ℕ
unfolding quotient
percent written (negsuc n) = 0
percent written (pos n) = if n == 0 then 0 else quotient written n

abbrev due : Option ℕ → ℕ → ℕ → Bool
due none interval now = true
due (some last) interval now = leb interval (now - last)

-- `Write`, given the bytes that the file took, whether it failed, and the time; with the bytes and
-- the percentage that it reports, if it does.
unfoldable pub write : Writer → ℕ → Bool → ℕ → Writer × Option (ℕ × ℕ)
unfolding percent
write p n failed now =
    let counted = record p { written = p.written + n; write_failed = failed } in
    if due p.last p.interval now
    then (record counted { last = some now }, some (p.written + n, percent (p.written + n) p.total))
    else (counted, none)

-- `final`.
unfoldable pub final : Writer → ℕ → Writer × (ℕ × ℕ)
unfolding percent
final p n = (record p { written = n }, (n, percent n p.total))

-- Every reported percentage is at most 100, whatever the sizes.
pub percent_bounded : (written : ℕ) (total : ℤ) → percent written total ≤ 100
unfolding percent
percent_bounded written (negsuc n) = omega arith
percent_bounded written (pos n) = ground arith

div_mono : (a b n : ℕ) → 0 < n → a ≤ b → a / n ≤ b / n
div_mono a b n p h = grind arith

percent-min : (a n : ℕ) → a * 100 < 2 ^ 63 → percent a (pos (suc n)) ≡ min (a * 100 / suc n) 100
unfolding percent
percent-min a n small = ground arith

-- Below the range where the product wraps, more bytes never report a smaller percentage.
pub percent_monotone :
    (a b : ℕ) (total : ℤ) → a ≤ b → b * 100 < 2 ^ 63 → percent a total ≤ percent b total
percent_monotone a b (negsuc n) h small = unfold percent in omega arith
percent_monotone a b (pos zero) h small = unfold percent in omega arith
percent_monotone a b (pos (suc n)) h small =
    rw (percent-min a n (omega arith), percent-min b n small)
      (omega (arith, div_mono (a * 100) (b * 100) (suc n) (omega arith) (omega arith)))

-- For a positive total, and as long as a hundred times the bytes stay below 2^63, the report says
-- 100 exactly when at least all bytes have arrived.
pub percent-eq-100_iff :
    (written n : ℕ)
    → 0 < n
    → written * 100 < 2 ^ 63
    → (percent written (pos n) ≡ 100) ↔ (n ≤ written)
percent-eq-100_iff written zero p small = absurd (omega arith)
percent-eq-100_iff written (suc n) p small =
    let whole = le-div_iff_mul-le {k = suc n} {x = 100} {y = written * 100} p in
    rw (percent-min written n small) (
      (λ e. let full : 100 ≤ written * 100 / suc n = omega arith in omega (arith, whole.0 full)),
      (λ h. let all : 100 ≤ written * 100 / suc n = whole.1 (omega arith) in omega arith),
    )
