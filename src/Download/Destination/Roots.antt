-- ===== src/Download/Destination/Roots.antt =====
-- The allowed download roots (download/policy.go).
use thesis_agent.Base.{
  ◌≡◌, Bool, true, false, not, ◌&&◌, ◌||◌, none, some, List, [], ◌∷◌, arith, any, All, Text, codes,
  bytes_eq, bytes_eq_sound, if◌then◌else◌, Option-cases, Bool-cases, inl, inr, ◌⊎◌, ◌≢◌,
  bytes_eq_refl, ap,
}
use thesis_agent.Download.Destination.{Paths, clean_destination, contains_path, is_empty}

pub data RootError : Type 0 where
  invalid_entry entire_drive private_state installed_binaries : RootError
  invalid_directory directory_outside : RootError

pub data Checked (A : Type 0) : Type 0 where
  ok : A → Checked A
  err : RootError → Checked A

module _ (p : Paths) where
  -- A root may lie inside the runtime directory only strictly below its `data`.
  unfoldable pub overlaps_runtime : Text → Text → Bool
  overlaps_runtime runtime path =
      let state = p.join runtime (codes "data") in
      contains_path p path runtime
      || (contains_path p runtime path
          && (not (contains_path p state path) || contains_path p path state))

  unfoldable pub overlaps_install : Text → Text → Bool
  overlaps_install install path = contains_path p path install || contains_path p install path

  -- One round of the loop of `ValidateRoots`.
  unfoldable pub check_root : Text → Text → Text → Checked Text
  check_root runtime install root = elim (clean_destination p root) [
    | none ↦ err invalid_entry
    | some path ↦
        if bytes_eq (p.dir path) path
        then err entire_drive
        else if not (bytes_eq runtime []) && overlaps_runtime runtime path
        then err private_state
        else if not (bytes_eq install []) && overlaps_install install path
        then err installed_binaries
        else ok path
  ]

  unfoldable pub check_roots : Text → Text → List Text → Checked (List Text)
  check_roots runtime install [] = ok []
  check_roots runtime install (root ∷ roots) =
      let rest = check_roots runtime install roots in
      elim (check_root runtime install root) [
        | err e ↦ err e
        | ok path ↦ elim rest [ err e ↦ err e | ok paths ↦ ok (path ∷ paths) ]
      ]

  -- `ValidateRoots`.
  unfoldable pub validate_roots : Text → List Text → Text → Text → Checked (List Text)
  validate_roots directory roots runtime install =
      let given = if is_empty roots then directory ∷ [] else roots in
      elim (check_roots runtime install given) [
        | err e ↦ err e
        | ok cleaned ↦ elim (clean_destination p directory) [
          | none ↦ err invalid_directory
          | some path ↦
              if any (λ root. contains_path p root path) cleaned
              then ok cleaned
              else err directory_outside
        ]
      ]

  -- A path that is the root or lies below it, by filepath.Rel and filepath.IsLocal.
  abbrev pub Inside : Text → Text → Type 0
  Inside root path =
      (rel : Text) × (p.rel root path ≡ some rel) × ((rel ≡ codes ".") ⊎ (p.is_local rel ≡ true))

  abbrev pub InsideOne : Text → List Text → Type 0
  InsideOne path [] = ⊥
  InsideOne path (root ∷ roots) = Inside root path ⊎ InsideOne path roots

  contains_path-Inside : (root path : Text) → contains_path p root path ≡ true → Inside root path
  unfolding contains_path
  contains_path-Inside root path h = elim (Option-cases (p.rel root path)) [
    | inl failed ↦ absurd (ground arith)
    | inr (rel, found) ↦ (
      rel,
      found,
      elim (Bool-cases (bytes_eq rel (codes "."))) [
        | inl same ↦ inl (bytes_eq_sound rel (codes ".") same)
        | inr other ↦ inr (ground arith)
      ],
    )
  ]

  Inside-contains_path : (root path : Text) → Inside root path → contains_path p root path ≡ true
  unfolding contains_path
  Inside-contains_path root path (rel, found, inl same) =
      let dot = ap (λ r. bytes_eq r (codes ".")) same in
      ground (arith, found, dot, bytes_eq_refl (codes "."))
  Inside-contains_path root path (rel, found, inr local) = ground (arith, found, local)

  contains_path-outside :
      (root path : Text) → contains_path p root path ≡ false → ¬ Inside root path
  contains_path-outside root path h inside = ground (arith, Inside-contains_path root path inside)

  any-InsideOne :
      (path : Text) (roots : List Text)
      → any (λ root. contains_path p root path) roots ≡ true
      → InsideOne path roots
  any-InsideOne path [] h = absurd (ground arith)
  any-InsideOne path (root ∷ roots) h = elim (Bool-cases (contains_path p root path)) [
    | inl inside ↦ inl (contains_path-Inside root path inside)
    | inr outside ↦ inr (any-InsideOne path roots (ground arith))
  ]

  -- The runtime directory is not at or below the path; if the path is at or below the runtime
  -- directory, it is below the directory's `data`, and not `data` itself.
  pub record IsApart (runtime path : Text) : Type 0 where
    pub not_above : ¬ Inside path runtime
    pub within_data : Inside runtime path → Inside (p.join runtime (codes "data")) path
    pub below_data : Inside runtime path → ¬ Inside path (p.join runtime (codes "data"))

  overlaps_runtime-IsApart :
      (runtime path : Text) → overlaps_runtime runtime path ≡ false → IsApart runtime path
  unfolding overlaps_runtime
  overlaps_runtime-IsApart runtime path h =
      let state = p.join runtime (codes "data") in
      record {
        not_above = contains_path-outside path runtime (ground arith);
        within_data = λ i.
            let inside = Inside-contains_path runtime path i in
            contains_path-Inside state path (ground arith);
        below_data = λ i.
            let inside = Inside-contains_path runtime path i in
            contains_path-outside path state (ground arith);
      }

  overlaps_install-apart :
      (install path : Text)
      → overlaps_install install path ≡ false
      → (¬ Inside path install) × (¬ Inside install path)
  unfolding overlaps_install
  overlaps_install-apart install path h = (
    contains_path-outside path install (ground arith),
    contains_path-outside install path (ground arith),
  )

  -- A root that downloads may use.
  pub record IsAllowed (runtime install path : Text) : Type 0 where
    pub not_drive : p.dir path ≢ path
    pub spares_runtime : runtime ≢ [] → IsApart runtime path
    pub spares_install : install ≢ [] → (¬ Inside path install) × (¬ Inside install path)

  check_root-IsAllowed :
      (runtime install root path : Text)
      → check_root runtime install root ≡ ok path
      → IsAllowed runtime install path
  unfolding check_root
  check_root-IsAllowed runtime install root path e =
      elim (Option-cases (clean_destination p root)) [
        | inl refused ↦ absurd (ground arith)
        | inr (cleaned, found) ↦ record {
          not_drive = λ h. ground (arith, ap (λ q. bytes_eq q path) h, bytes_eq_refl path);
          spares_runtime = λ h.
              overlaps_runtime-IsApart runtime path (ground (arith, bytes_eq_sound runtime []));
          spares_install =
              λ h. overlaps_install-apart install path (ground (arith, bytes_eq_sound install []));
        }
      ]

  check_roots-IsAllowed :
      (runtime install : Text) (roots paths : List Text)
      → check_roots runtime install roots ≡ ok paths
      → All (IsAllowed runtime install) paths
  unfolding check_roots
  check_roots-IsAllowed runtime install roots [] e = tt
  check_roots-IsAllowed runtime install [] (path ∷ paths) e = cc
  check_roots-IsAllowed runtime install (root ∷ roots) (path ∷ paths) e = (
    check_root-IsAllowed runtime install root path (ground arith),
    check_roots-IsAllowed runtime install roots paths (ground arith),
  )

  -- Roots that are accepted are each no whole drive, neither at, above nor below the install
  -- directory, and neither at nor above the runtime directory nor below it but strictly below its
  -- `data`; the default download directory is one of them or lies below one.
  pub validate_roots-IsAllowed :
      (directory : Text) (roots : List Text) (runtime install : Text) (cleaned : List Text)
      → validate_roots directory roots runtime install ≡ ok cleaned
      → All (IsAllowed runtime install) cleaned
        × ((path : Text) × (clean_destination p directory ≡ some path) × InsideOne path cleaned)
  unfolding validate_roots
  validate_roots-IsAllowed directory roots runtime install cleaned e =
      elim (Option-cases (clean_destination p directory)) [
        | inl refused ↦ absurd (ground arith)
        | inr (path, found) ↦ (
          check_roots-IsAllowed runtime install (if is_empty roots then directory ∷ [] else roots)
              cleaned (ground arith),
          (path, found, any-InsideOne path cleaned (ground arith)),
        )
      ]
