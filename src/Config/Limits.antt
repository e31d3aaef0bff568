-- ===== src/Config/Limits.antt =====
-- The limits that the configuration sets (config/config.go).
use thesis_agent.Base.{ℕ, ◌≤◌, ◌<◌, ◌^◌, ◌≡◌, refl, Option, none, some, Text, arith, ℤ, pos, negsuc}
use thesis_agent.Config.{Environment, Go, positive, from_environment}

-- strconv.ParseInt with 64 bits, and Atoi, answer with an int64.
pub record IsInt64 (g : Go) : Type 0 where
  pub fits : (s : Text) (n : ℕ) → g.parse_int s ≡ some (pos n) → n < 2 ^ 63

abbrev pub IsLimit : ℕ → Type 0
IsLimit n = (1 ≤ n) × (n < 2 ^ 63)

module _ (g : Go) (i : IsInt64 g) where
  positive-IsLimit :
      (s : Text) (default : ℕ) (o : Option ℤ)
      → g.parse_int s ≡ o
      → IsLimit default
      → IsLimit (positive g o default)
  positive-IsLimit s default none e d = d
  positive-IsLimit s default (some (pos n)) e d =
      let small = i.fits s n e in (ground arith, ground arith)
  positive-IsLimit s default (some (negsuc n)) e d = d

-- Whatever the environment holds, the limits of the download manager are positive int64 values:
-- the number of workers, the length of the queue and the size of a file.
pub from_environment-IsLimit :
    (g : Go)
    → IsInt64 g
    → (env : Environment)
    → IsLimit (from_environment g env).max_concurrent
      × IsLimit (from_environment g env).queue_size
      × IsLimit (from_environment g env).max_size
unfolding from_environment
from_environment-IsLimit g i env = (
  positive-IsLimit g i _ 2 _ refl (omega arith, omega arith),
  positive-IsLimit g i _ 16 _ refl (omega arith, omega arith),
  positive-IsLimit g i _ 10737418240 _ refl (omega arith, omega arith),
)
