-- ===== src/Download/Destination/Links.antt =====
-- The walk of `checkDestinationLinks` over the ancestors (download/destination.go).
use thesis_agent.Base.{
  ℕ, zero, suc, ◌<◌, ◌≡◌, ◌≢◌, arith, Text, length, bytes_eq, bytes_eq_sound, bytes_eq_refl,
  Bool-cases, inl, inr, ap, sym, subst, true, some,
}
use thesis_agent.Download.Destination.{
  Paths, DirLaws, clean_destination, destination_components, Lstat, inspect_failed, link, clear,
  out_of_fuel, check_links, check_destination_links,
}

module _ (p : Paths) (lstat : Text → Lstat) where
  -- The directory `k` steps above a path; a root is its own parent.
  pub ancestor : ℕ → Text → Text
  ancestor zero path = path
  ancestor (suc k) path = ancestor k (p.dir path)

  abbrev pub IsSafe : Text → Type 0
  IsSafe q = (lstat q ≢ link) × (lstat q ≢ inspect_failed)

  check_links_here :
      (fuel : ℕ) (path : Text) → check_links p lstat (suc fuel) path ≡ clear → IsSafe path
  unfolding check_links
  check_links_here fuel path e = (λ h. ground arith, λ h. ground arith)

  check_links_up :
      (fuel : ℕ) (path : Text)
      → check_links p lstat (suc fuel) path ≡ clear
      → p.dir path ≢ path
      → check_links p lstat fuel (p.dir path) ≡ clear
  unfolding check_links
  check_links_up fuel path e moves = ground (arith, bytes_eq_sound (p.dir path) path)

  -- The walk never runs out of fuel.
  check_links-total :
      (laws : DirLaws p) (fuel : ℕ) (path : Text)
      → p.is_abs path ≡ true
      → p.clean path ≡ path
      → length path < fuel
      → check_links p lstat fuel path ≢ out_of_fuel
  unfolding check_links
  check_links-total laws zero path a c h = absurd (omega arith)
  check_links-total laws (suc fuel) path a c h = elim (Bool-cases (bytes_eq (p.dir path) path)) [
    | inl root ↦ ground arith
    | inr below ↦
        let moves : p.dir path ≢ path =
          λ e. ground (arith, ap (λ q. bytes_eq q path) e, bytes_eq_refl path) in
        let shorter = laws.dir_shorter path a c moves in
        let more =
          check_links-total laws fuel (p.dir path) (laws.dir_abs path a c) (laws.dir_clean path c)
            (omega arith) in
        ground (arith, more)
  ]

  check_links-IsSafe :
      (k fuel : ℕ) (path : Text) → check_links p lstat fuel path ≡ clear → IsSafe (ancestor k path)
  unfolding ancestor
  check_links-IsSafe k zero path e = absurd (unfold check_links in cc)
  check_links-IsSafe zero (suc fuel) path e = check_links_here fuel path e
  check_links-IsSafe (suc k) (suc fuel) path e = elim (Bool-cases (bytes_eq (p.dir path) path)) [
    | inl root ↦
        subst (λ q. IsSafe (ancestor k q)) (sym (bytes_eq_sound (p.dir path) path root))
          (check_links-IsSafe k (suc fuel) path e)
    | inr below ↦
        let moves : p.dir path ≢ path =
          λ h. ground (arith, ap (λ q. bytes_eq q path) h, bytes_eq_refl path) in
        check_links-IsSafe k fuel (p.dir path) (check_links_up fuel path e moves)
  ]

  -- What is accepted as a destination is absolute and clean.
  clean_destination-clean :
      (laws : DirLaws p) (value path : Text)
      → clean_destination p value ≡ some path
      → (p.is_abs path ≡ true) × (p.clean path ≡ path)
  unfolding clean_destination destination_components
  clean_destination-clean laws value path e =
      let is_clean : p.clean value ≡ path = ground arith in
      let absolute : p.is_abs value ≡ true = ground arith in
      (
        subst (λ q. p.is_abs q ≡ true) is_clean (laws.clean_abs value absolute),
        subst (λ q. p.clean q ≡ q) is_clean (laws.clean_idem value),
      )

  -- If filepath.Clean and filepath.Dir keep their laws, then on an accepted destination the walk
  -- never runs out of fuel, and where it finds nothing to refuse, neither the destination nor any
  -- directory above it is a link or could not be inspected.
  pub check_destination_links-IsSafe :
      (laws : DirLaws p) (value path : Text)
      → clean_destination p value ≡ some path
      → (check_destination_links p lstat path ≢ out_of_fuel)
        × (check_destination_links p lstat path ≡ clear → (k : ℕ) → IsSafe (ancestor k path))
  unfolding check_destination_links
  check_destination_links-IsSafe laws value path e =
      let (absolute, is_clean) = clean_destination-clean laws value path e in
      (
        check_links-total laws (suc (length path)) path absolute is_clean (omega arith),
        λ f k. check_links-IsSafe k (suc (length path)) path f,
      )
