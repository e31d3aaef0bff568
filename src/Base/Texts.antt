-- ===== src/Base/Texts.antt =====
-- Texts that the code walks, as lists of code points, with Go's strings.TrimSpace,
-- strings.ReplaceAll of one character and strings.ToLower. The Unicode tables are a parameter.
use Prim.Native.Nat.{ℕ, ◌≤◌}
use Prim.Native.Char.{code}
use Prim.Native.String.{String}
use mathlib.Core.Path.{◌≡◌}
use mathlib.Core.Bool.{Bool, false}
use mathlib.Core.List.{List, [], ◌∷◌, map, reverse}
use thesis_agent.Base.Tests.{◌==◌, if◌then◌else◌}

abbrev pub Text : Type 0
Text = List ℕ

-- The code points of a literal. `String` has its own `[]` and `∷`.
abbrev pub codes : String → Text
codes String.[] = []
codes (String.◌∷◌ c s) = code c ∷ codes s

-- The functions unicode.ToLower and unicode.IsSpace of the Go distribution's tables.
pub record Unicode : Type 0 where
  pub lower : ℕ → ℕ
  pub is_space : ℕ → Bool

-- What the tables say of the hyphen and the underscore, and that lower-casing is idempotent and
-- neither makes nor removes a space or a hyphen; small letters are themselves and no spaces.
pub record UnicodeLaws (u : Unicode) : Type 0 where
  pub lower_idem : (c : ℕ) → u.lower (u.lower c) ≡ u.lower c
  pub lower_space : (c : ℕ) → u.is_space (u.lower c) ≡ u.is_space c
  pub lower_hyphen : (c : ℕ) → (u.lower c == b'-') ≡ (c == b'-')
  pub lower_underscore : u.lower b'_' ≡ b'_'
  pub letter_plain : (c : ℕ) → b'a' ≤ c → c ≤ b'z' → (u.lower c ≡ c) × (u.is_space c ≡ false)
  pub space_hyphen : u.is_space b'-' ≡ false
  pub space_underscore : u.is_space b'_' ≡ false

module _ (u : Unicode) where
  unfoldable pub trim_left : Text → Text
  trim_left [] = []
  trim_left (c ∷ s) = if u.is_space c then trim_left s else c ∷ s

  unfoldable pub trim_space : Text → Text
  unfolding trim_left
  trim_space s = reverse (trim_left (reverse (trim_left s)))

  unfoldable pub to_lower : Text → Text
  to_lower s = map u.lower s

-- strings.ReplaceAll for a pattern and a replacement of one character.
unfoldable pub replace_char : ℕ → ℕ → Text → Text
replace_char old new s = map (λ c. if c == old then new else c) s
