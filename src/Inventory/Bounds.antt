-- ===== src/Inventory/Bounds.antt =====
-- The bounds of the inventory (installedapps/collector.go).
use thesis_agent.Base.{
  ℕ, suc, ◌≤◌, ◌≡◌, ◌≢◌, refl, Bool, true, false, Option, none, some, List, [], ◌∷◌, ◌++◌, length,
  length-take, length-append, All, All-append, any, bytes_eq, ltb, leb, if◌then◌else◌, ◌⊎◌, sym,
  Text, arith, trim_space, Bool-cases, inl, inr, subst,
}
use thesis_agent.Inventory.{
  App, Entry, max_apps, max_entries, Go, State, empty, mark, keep_size, bounded, cut, visit,
  started, sorted, read_view, collect,
}

-- sort.Slice permutes: the length stays, and what holds of all elements.
pub record Rearranges (sort : List App → List App) : Type 1 where
  pub same_length : (xs : List App) → length (sort xs) ≡ length xs
  pub keeps : (P : App → Type 0) (xs : List App) → All P xs → All P (sort xs)

-- The fields within their limits, with a name.
pub record IsBounded (a : App) : Type 0 where
  pub name_given : a.name ≢ []
  pub name_short : length a.name ≤ 512
  pub version_short : length a.version ≤ 256
  pub publisher_short : length a.publisher ≤ 512
  pub date_short : length a.install_date ≤ 32
  pub size_small : (n : ℕ) → a.size ≡ some n → n ≤ 4294967295

record IsWithin (s : State) : Type 0 where
  pub few_apps : length s.apps ≤ max_apps
  pub few_entries : s.entries ≤ max_entries
  pub bounded_apps : All IsBounded s.apps

keep_size_small : (o : Option ℕ) (n : ℕ) → keep_size o ≡ some n → n ≤ 4294967295
keep_size_small none n e = cc
keep_size_small (some m) n e = ground arith

nonempty_lem : (s : Text) → bytes_eq s [] ≡ false → s ≢ []
nonempty_lem [] e = absurd (ground arith)
nonempty_lem (c ∷ s) e = λ k. cc

-- The two early returns of the callback.
unless_error :
    {t : State}
    → (b : Bool) (x : Option State) → (if b then none else x) ≡ some t
    → (b ≡ false) × (x ≡ some t)
unless_error true x e = cc
unless_error false x e = (refl, e)

either :
    {t : State}
    → (b : Bool) (c : State) (x : Option State) → (if b then some c else x) ≡ some t
    → (t ≡ c) ⊎ ((b ≡ false) × (x ≡ some t))
either true c x e = inl cc
either false c x e = inr (refl, e)

module _ (g : Go) where
  cut-IsBounded : (a : App) → bounded g a.name 512 ≢ [] → IsBounded (cut g a)
  unfolding cut bounded
  cut-IsBounded a given = record {
    name_given = given;
    name_short = length-take 512 (trim_space g.unicode a.name);
    version_short = length-take 256 (trim_space g.unicode a.version);
    publisher_short = length-take 512 (trim_space g.unicode a.publisher);
    date_short = length-take 32 (trim_space g.unicode a.install_date);
    size_small = λ n e. keep_size_small a.size n e;
  }

  visit-IsWithin : (s t : State) (e : Entry) → visit g s e ≡ some t → IsWithin s → IsWithin t
  unfolding visit
  visit-IsWithin s t e v h =
      let (_, v1) = unless_error (g.cancelled s.entries) _ v in
      let (fits, v2) = unless_error (ltb max_entries (suc s.entries)) _ v1 in
      let counted : State = record s { entries = suc s.entries } in
      let skipped : IsWithin counted = record {
        few_apps = h.few_apps;
        few_entries = ground arith;
        bounded_apps = h.bounded_apps;
      } in
      elim (either (bytes_eq (bounded g e.app.name 512) []) counted _ v2) [
        | inl same ↦ subst IsWithin (sym same) skipped
        | inr (named, v3) ↦ elim (either (any (bytes_eq (mark g e)) s.seen) counted _ v3) [
          | inl same ↦ subst IsWithin (sym same) skipped
          | inr (fresh, v4) ↦
              let (room, v5) = unless_error (leb max_apps (length s.apps)) _ v4 in
              let added : State = record counted {
                apps = s.apps ++ cut g e.app ∷ [];
                seen = mark g e ∷ s.seen;
              } in
              let same : added ≡ t = cc in
              subst IsWithin same (record {
                few_apps = ground (arith, length-append s.apps (cut g e.app ∷ []));
                few_entries = ground arith;
                bounded_apps =
                    All-append IsBounded s.apps (cut g e.app ∷ []) h.bounded_apps
                      (cut-IsBounded e.app (nonempty_lem (bounded g e.app.name 512) named), tt);
              })
        ]
      ]

  read_view-IsWithin :
      (o : Option State) (entries : List Entry) (fails : Bool) (t : State)
      → ((s : State) → o ≡ some s → IsWithin s)
      → read_view g o entries fails ≡ some t
      → IsWithin t
  unfolding read_view
  read_view-IsWithin none entries fails t h e = cc
  read_view-IsWithin (some s) [] fails t h e = h t (unless_error fails (some s) e).1
  read_view-IsWithin (some s) (x ∷ entries) fails t h e =
      read_view-IsWithin (visit g s x) entries fails t (λ r v. visit-IsWithin s r x v (h s refl)) e

  started-IsWithin :
      (o : Option State)
      → ((s : State) → o ≡ some s → IsWithin s)
      → (s : State) → started g o ≡ some s
      → IsWithin s
  started-IsWithin none h s e = cc
  started-IsWithin (some r) h s e = h s (unless_error (g.cancelled r.entries) (some r) e).1

  sorted_apps :
      (o : Option State) (apps : List App)
      → sorted g o ≡ some apps
      → (s : State) × (o ≡ some s) × (g.sort s.apps ≡ apps)
  sorted_apps none apps e = cc
  sorted_apps (some s) apps e = elim (Bool-cases (g.cancelled s.entries)) [
    | inl c ↦ absurd (ground arith)
    | inr c ↦ (s, refl, ground arith)
  ]

empty-IsWithin : (s : State) → some empty ≡ some s → IsWithin s
empty-IsWithin s e =
    let same : empty ≡ s = cc in
    subst IsWithin same
      (record { few_apps = omega arith; few_entries = omega arith; bounded_apps = tt })

-- An inventory that is collected has at most 2000 applications, each with a name and with all fields
-- within their limits, whatever the registry holds. Go's sort must only rearrange.
pub collect-IsBounded :
    (g : Go) (wide narrow : List Entry × Bool) (apps : List App)
    → Rearranges g.sort
    → collect g wide narrow ≡ some apps
    → (length apps ≤ max_apps) × All IsBounded apps
unfolding collect
collect-IsBounded g (wide, wf) (narrow, nf) apps r e =
    let (s, read, is_sorted) = sorted_apps g _ apps e in
    let within : IsWithin s =
      read_view-IsWithin g _ narrow nf s
        (started-IsWithin g _ (λ x k.
          read_view-IsWithin g _ wide wf x (started-IsWithin g (some empty) empty-IsWithin) k))
        read in
    (
      subst (λ xs. length xs ≤ max_apps) is_sorted
          (omega (arith, r.same_length s.apps, within.few_apps)),
      subst (All IsBounded) is_sorted (r.keeps IsBounded s.apps within.bounded_apps),
    )
