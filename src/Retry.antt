-- ===== src/Retry.antt =====
-- Bounded equal-jitter backoff (internal/retry/backoff.go). Durations are int64 nanoseconds that
-- are never negative here, as native numbers; the doubling keeps its wrap-around.
pub mod Window
use thesis_agent.Base.{
  ℕ, ◌+◌, ◌-◌, ◌*◌, ◌/◌, ◌%◌, ◌^◌, ◌≤◌, ◌≡◌, ◌||◌, Bool, true, false, Option, none, some, ltb, leb,
  ◌==◌, if◌then◌else◌,
}

-- float64 as far as `Next` uses it, NaN left out: the random source returns a number of [0, 1).
-- `scale n r` is `time.Duration(float64(n) * r)`.
pub record Floats : Type 1 where
  pub Float : Type 0
  pub float_zero : Float
  pub float_one : Float
  pub float_lt : Float → Float → Bool
  pub scale : ℕ → Float → ℕ

-- The tests order 0 and 1, and a product with a factor from 0 to 1 does not exceed the other
-- factor, where float64 holds that factor exactly.
module _ (f : Floats) where
  open f use {Float, float_zero, float_one, float_lt, scale}

  pub record FloatLaws : Type 0 where
    pub one_one : float_lt float_one float_one ≡ false
    pub one_zero : float_lt float_one float_zero ≡ false
    pub scale_le : (n : ℕ) (r : Float) → n ≤ 2 ^ 53 → float_lt float_one r ≡ false → scale n r ≤ n

pub record Backoff : Type 0 where
  pub base : ℕ
  pub cap : ℕ
  pub next : ℕ

-- `NewWithRandom`: `none` is the panic. The nil test of the source of random numbers has no
-- counterpart, since that source is given to `next` call by call.
unfoldable pub new_with_random : ℕ → ℕ → Option Backoff
new_with_random base cap =
    if base == 0 || ltb cap base
    then none
    else some (record { base = base; cap = cap; next = base })

-- `New`: one second, thirty seconds.
abbrev pub new : Backoff
new = record { base = 1000000000; cap = 30000000000; next = 1000000000 }

-- `b.next` after a call of `Next`.
unfoldable pub advance : Backoff → ℕ
advance b = if leb (b.cap / 2) b.next then b.cap else b.next * 2 % 2 ^ 64

unfoldable pub reset : Backoff → Backoff
reset b = record b { next = b.base }

module _ (f : Floats) where
  open f use {Float, float_zero, float_one, float_lt, scale}

  unfoldable pub clamp : Float → Float
  clamp r =
      let low = if float_lt r float_zero then float_zero else r in
      if float_lt float_one low then float_one else low

  -- `Next`, given the number that the random source returns.
  unfoldable pub next : Backoff → Float → Backoff × ℕ
  unfolding advance clamp
  next b r =
      let window = b.next in
      (record b { next = advance b }, window / 2 + scale (window - window / 2) (clamp r))
