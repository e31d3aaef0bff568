-- ===== src/Retry/Window.antt =====
-- What the backoff of internal/retry/backoff.go promises over a series of attempts.
use thesis_agent.Base.{ℕ, zero, suc, ◌-◌, ◌*◌, ◌/◌, ◌^◌, ◌≤◌, ◌<◌, ◌≡◌, some, arith, min, false}
use native.Mathlib.Nat.{pow-suc}
use native.Mathlib.Decide.{dec_le}
use thesis_agent.Retry.{Floats, FloatLaws, Backoff, new_with_random, advance, reset, clamp, next}

-- The configuration is as `NewWithRandom` accepts it, in the range of int64, and the current
-- window lies between the base and the cap.
pub record IsValid (b : Backoff) : Type 0 where
  pub base_pos : 0 < b.base
  pub base_le : b.base ≤ b.next
  pub next_le : b.next ≤ b.cap
  pub cap_small : b.cap < 2 ^ 63

-- What `NewWithRandom` returns is valid, for every base and cap that int64 holds.
pub new_with_random-IsValid :
    (base cap : ℕ) (b : Backoff) → cap < 2 ^ 63 → new_with_random base cap ≡ some b → IsValid b
unfolding new_with_random
new_with_random-IsValid base cap b small e = ground arith

pub reset-IsValid : (b : Backoff) → IsValid b → IsValid (reset b)
unfolding reset
reset-IsValid b v = ground arith

-- The doubling does not wrap around.
advance-IsValid : (b : Backoff) → IsValid b → IsValid (record b { next = advance b })
unfolding advance
advance-IsValid b v = ground arith

-- The window after `k` further calls of `Next`.
pub advances : ℕ → Backoff → Backoff
advances zero b = b
advances (suc k) b = advances k (record b { next = advance b })

-- An even cap is reached by doubling: the window is twice the last one, or the cap.
advance-min : (b : Backoff) (h : ℕ) → b.cap ≡ 2 * h → IsValid b → advance b ≡ min (2 * b.next) b.cap
unfolding advance
advance-min b h e v = ground arith

le-mul : (n x : ℕ) → 0 < x → n ≤ n * x
le-mul n (suc x) h = omega arith
le-mul n zero h = omega arith

-- Doubling below a cap and then scaling below it is one scaling below it.
min-double : (w c x : ℕ) → 0 < x → min (min (2 * w) c * x) c ≡ min (w * (x * 2)) c
min-double w c x h = elim (dec_le (2 * w) c) [
  | yes p ↦ let e : min (2 * w) c ≡ 2 * w = omega arith in rw e (omega arith)
  | no p ↦
      let e : min (2 * w) c ≡ c = omega arith in
      rw e (omega (arith, le-mul c x h, le-mul (2 * w) x h))
]

pow-pos : (k : ℕ) → 0 < 2 ^ k
pow-pos zero = omega arith
pow-pos (suc k) = rw pow-suc (omega (arith, pow-pos k))

-- With an even cap (thirty seconds is one), the window of a valid backoff after k further calls is
-- 2^k times the first, cut off at the cap.
pub advances-min :
    (k : ℕ) (b : Backoff) (h : ℕ)
    → b.cap ≡ 2 * h
    → IsValid b
    → (advances k b).next ≡ min (b.next * 2 ^ k) b.cap
unfolding advances
advances-min zero b h e v = omega arith
advances-min (suc k) b h e v =
    rw (advances-min k (record b { next = advance b }) h e (advance-IsValid b v))
      (rw (advance-min b h e v, pow-suc) (min-double b.next b.cap (2 ^ k) (pow-pos k)))

module _ (f : Floats) (laws : FloatLaws f) where
  open f use {Float, float_one, float_lt}

  clamp-le-one : (r : Float) → float_lt float_one (clamp f r) ≡ false
  unfolding clamp
  clamp-le-one r = ground (arith, laws.one_one, laws.one_zero)

  -- Every delay lies between half the window and the window, for a window of at most 2^53
  -- nanoseconds and a float64 that obeys the laws of `FloatLaws`.
  pub next_bounds :
      (b : Backoff) (r : Float)
      → b.next ≤ 2 ^ 53
      → (b.next / 2 ≤ (next f b r).1) × ((next f b r).1 ≤ b.next)
  unfolding next
  next_bounds b r small =
      ground (arith, laws.scale_le (b.next - b.next / 2) (clamp f r), clamp-le-one r)
