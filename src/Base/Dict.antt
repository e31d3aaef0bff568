-- ===== src/Base/Dict.antt =====
-- Go's map[string]V as an association list: reading a missing key gives `none`, and
-- no two entries share a key unless they did so before.
use Prim.Native.String.{String}
use mathlib.Core.Path.{◌≡◌}
use mathlib.Core.Option.{Option, none, some}
use mathlib.Core.List.{List, [], ◌∷◌}
use native.Mathlib.Omega.{arith}
use text.Mathlib.TextEquality.{eq_iff}
use thesis_agent.Base.Tests.{str_eq, if◌then◌else◌}

abbrev pub Dict {ℓ} : Type ℓ → Type ℓ
Dict V = List (String × V)

-- Reading and removing.
module _ {ℓ} {V : Type ℓ} where
  unfoldable pub lookup : String → Dict V → Option V
  lookup key [] = none
  lookup key (entry ∷ rest) =
      let later = lookup key rest in if str_eq entry.0 key then some entry.1 else later

  unfoldable pub delete : String → Dict V → Dict V
  delete key [] = []
  delete key (entry ∷ rest) =
      let kept = delete key rest in if str_eq entry.0 key then kept else entry ∷ kept

  pub lookup-delete :
      (gone key : String) (dict : Dict V)
      → lookup key (delete gone dict) ≡ (if str_eq gone key then none else lookup key dict)
  unfolding lookup delete
  lookup-delete gone key [] = ground arith
  lookup-delete gone key (entry ∷ rest) =
      ground (
        arith,
        lookup-delete gone key rest,
        eq_iff gone key,
        eq_iff entry.0 gone,
        eq_iff entry.0 key,
      )

-- Writing: the entry comes to the front, and an older one of its key goes.
module _ {ℓ} {V : Type ℓ} where
  unfoldable pub insert : String → V → Dict V → Dict V
  insert key value dict = (key, value) ∷ delete key dict

  pub lookup-insert :
      (written key : String) (value : V) (dict : Dict V)
      → lookup key (insert written value dict)
        ≡ (if str_eq written key then some value else lookup key dict)
  unfolding insert lookup
  lookup-insert written key value dict = ground (arith, lookup-delete written key dict)
