-- ===== src/Base/Count.antt =====
-- How often a text stands in a list, and removing one occurrence of it.
use Prim.Native.Nat.{ℕ, ◌+◌, ◌<◌}
use Prim.Native.String.{String}
use mathlib.Core.Path.{◌≡◌}
use mathlib.Core.Bool.{Bool, true, false}
use mathlib.Core.List.{List, [], ◌∷◌, ◌++◌}
use native.Mathlib.Omega.{arith}
use text.Mathlib.TextEquality.{eq_iff}
use thesis_agent.Base.Tests.{str_eq, if◌then◌else◌}

abbrev pub indicator : Bool → ℕ
indicator true = 1
indicator false = 0

abbrev pub count : String → List String → ℕ
count k [] = 0
count k (x ∷ xs) = indicator (str_eq x k) + count k xs

pub count-append : (k : String) (xs ys : List String) → count k (xs ++ ys) ≡ count k xs + count k ys
count-append k [] ys = omega arith
count-append k (x ∷ xs) ys = omega (arith, count-append k xs ys)

abbrev pub remove_one : String → List String → List String
remove_one k [] = []
remove_one k (x ∷ xs) = if str_eq x k then xs else x ∷ remove_one k xs

pub count-remove_one :
    (k j : String) (xs : List String)
    → 0 < count k xs
    → count j (remove_one k xs) + indicator (str_eq k j) ≡ count j xs
count-remove_one k j [] h = omega arith
count-remove_one k j (x ∷ xs) h =
    ground (arith, eq_iff x k, eq_iff x j, eq_iff k j, count-remove_one k j xs)
