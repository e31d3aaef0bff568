-- ===== src/Config/Precedence.antt =====
-- Which value a variable has behind `.env` (config/config.go).
use thesis_agent.Base.{
  ◌≡◌, refl, ◌∙◌, true, ◌&&◌, Option, none, some, List, [], ◌∷◌, ◌++◌, if◌then◌else◌, Text, arith,
  Bool-cases, inl, inr,
}
use thesis_agent.Config.{Environment, Go, lookup, parse_line, define, load_lines}

-- The comparison of names is an equivalence: equal names have the same equal names.
pub record SameLaw (g : Go) : Type 0 where
  pub same_right : (x key other : Text) → g.same key other ≡ true → g.same x key ≡ g.same x other

abbrev pub or_else : Option Text → Option Text → Option Text
or_else (some v) _ = some v
or_else none rest = rest

module _ (g : Go) where
  abbrev given : Text → Option (Text × Text) → Option Text
  given key none = none
  given key (some (name, value)) = if g.settable name && g.same name key then some value else none

  -- The first line that sets the variable.
  abbrev pub first_line : Text → List Text → Option Text
  first_line key [] = none
  first_line key (line ∷ lines) = or_else (given key (parse_line g line)) (first_line key lines)

  lookup-append :
      (key : Text) (env more : Environment)
      → lookup g key (env ++ more) ≡ or_else (lookup g key env) (lookup g key more)
  unfolding lookup
  lookup-append key [] more = refl
  lookup-append key ((name, value) ∷ env) more = ground (arith, lookup-append key env more)

  lookup_same :
      SameLaw g
      → (key other : Text) (env : Environment) → g.same key other ≡ true
      → lookup g key env ≡ lookup g other env
  unfolding lookup
  lookup_same l key other [] s = refl
  lookup_same l key other ((name, value) ∷ env) s =
      rw (l.same_right name key other s) (rw (lookup_same l key other env s) refl)

  or_else-none : (o : Option Text) → o ≡ or_else o none
  or_else-none none = refl
  or_else-none (some v) = refl

  or_else_assoc : (a b c : Option Text) → or_else (or_else a b) c ≡ or_else a (or_else b c)
  or_else_assoc none b c = refl
  or_else_assoc (some v) b c = refl

  lookup-define :
      SameLaw g
      → (key : Text) (env : Environment) (o : Option (Text × Text))
      → lookup g key (define g env o) ≡ or_else (lookup g key env) (given key o)
  unfolding define lookup
  lookup-define l key env none = or_else-none (lookup g key env)
  lookup-define l key env (some (name, value)) = elim (Bool-cases (g.same name key)) [
    | inl s ↦
        ground (arith, lookup-append key env ((name, value) ∷ []), lookup_same l name key env s)
    | inr s ↦ ground (arith, lookup-append key env ((name, value) ∷ []))
  ]

-- What loading `.env` does to a variable: one that is set keeps its value, and one that is not gets
-- the value of the first line that sets it, if there is one. The names must compare as an
-- equivalence does.
pub lookup-load_lines :
    (g : Go)
    → SameLaw g
    → (key : Text) (env : Environment) (lines : List Text)
    → lookup g key (load_lines g env lines) ≡ or_else (lookup g key env) (first_line g key lines)
unfolding load_lines
lookup-load_lines g l key env [] = or_else-none g (lookup g key env)
lookup-load_lines g l key env (line ∷ lines) =
    let rest = lookup-load_lines g l key (define g env (parse_line g line)) lines in
    let one = lookup-define g l key env (parse_line g line) in
    rest ∙ rw one (or_else_assoc g (lookup g key env) _ _)
