-- ===== src/Download/Destination/Components.antt =====
-- What the components of an accepted destination look like (download/destination.go).
use thesis_agent.Base.{
  ◌≡◌, ◌≢◌, true, false, some, List, [], ◌∷◌, arith, any, all, All, Text, codes, bytes_eq,
  bytes_eq_sound, bytes_eq_refl, Option-cases, Bool-cases, inl, inr, ◌⊎◌, ap,
}
use thesis_agent.Download.Destination.{
  Paths, Config, valid_filename, destination_components, component_ok, clean_destination,
  contains_path, destination_directory, split_slash, contains_any, roots_or_default,
}

module _ (p : Paths) where
  -- A component that stays in its directory: local, neither "." nor "..", free of separators and of
  -- control characters.
  pub record IsPlain (part : Text) : Type 0 where
    pub local : p.is_local part ≡ true
    pub not_dot : part ≢ codes "."
    pub not_dots : part ≢ codes ".."
    pub no_separator : contains_any part (codes "/\\") ≡ false
    pub no_control : any p.is_control part ≡ false

  valid_filename-IsPlain : (name : Text) → valid_filename p name ≡ true → IsPlain name
  unfolding valid_filename
  valid_filename-IsPlain name h = record {
    local = ground arith;
    not_dot = λ e. ground (arith, ap (λ n. bytes_eq n (codes ".")) e, bytes_eq_refl (codes "."));
    not_dots = λ e. ground (arith, ap (λ n. bytes_eq n (codes "..")) e, bytes_eq_refl (codes ".."));
    no_separator = ground arith;
    no_control = ground arith;
  }

  abbrev pub IsComponent : Text → Type 0
  IsComponent part = (part ≡ []) ⊎ IsPlain part

  all-IsComponent : (parts : List Text) → all (component_ok p) parts ≡ true → All IsComponent parts
  all-IsComponent [] h = tt
  all-IsComponent (part ∷ parts) h = elim (Bool-cases (bytes_eq part [])) [
    | inl e ↦ (inl (bytes_eq_sound part [] e), all-IsComponent parts (ground arith))
    | inr e ↦
        (inr (valid_filename-IsPlain part (ground arith)), all-IsComponent parts (ground arith))
  ]

  -- Every component of an accepted destination is empty or plain: no "." or "..", no control
  -- character, no separator of either kind.
  pub clean_destination-IsComponent :
      (path cleaned : Text)
      → clean_destination p path ≡ some cleaned
      → (components : Text) × (destination_components p path ≡ some components)
        × All IsComponent (split_slash components)
  unfolding clean_destination
  clean_destination-IsComponent path cleaned e =
      elim (Option-cases (destination_components p path)) [
        | inl refused ↦ absurd (ground arith)
        | inr (components, found) ↦
            (components, found, all-IsComponent (split_slash components) (ground arith))
      ]

  -- Where roots are configured, or the Service's boundary is set, a destination is accepted only
  -- inside one of them.
  pub destination_directory-contained :
      (cfg : Config) (path chosen : Text)
      → roots_or_default cfg.allowed_roots cfg.boundary cfg.directory ≢ []
      → destination_directory p cfg path ≡ some chosen
      → any
          (λ root. contains_path p root chosen)
          (roots_or_default cfg.allowed_roots cfg.boundary cfg.directory)
        ≡ true
  unfolding destination_directory
  destination_directory-contained cfg path chosen some_root e = ground arith
