-- ===== src/Client/Message/Spelling.antt =====
-- Command words are read without regard to case and to the choice of hyphen or underscore
-- (`normalizeCommand` of client/message.go).
use mathlib.Core.List.{reverse, reverse-cons, map-append}
use mathlib.Core.Path.{◌≡⟨◌⟩◌, ◌∎}
use thesis_agent.Base.{
  ℕ, ◌≡◌, refl, ap, [], ◌∷◌, map, arith, if◌then◌else◌, ◌==◌, Text, Unicode, UnicodeLaws, trim_left,
  trim_space, to_lower, replace_char,
}
use thesis_agent.Client.Message.{normalize_command}

map-reverse : (f : ℕ → ℕ) (s : Text) → reverse (map f s) ≡ map f (reverse s)
map-reverse f [] = refl
map-reverse f (c ∷ s) = simp (reverse-cons, map-append, map-reverse f s)

map-cong : (f g h : ℕ → ℕ) (s : Text) → ((c : ℕ) → f (g c) ≡ h c) → map f (map g s) ≡ map h s
map-cong f g h [] e = refl
map-cong f g h (c ∷ s) e = cc (e c, map-cong f g h s e)

module _ (u : Unicode) where
  module _ (f : ℕ → ℕ) (keeps : (c : ℕ) → u.is_space (f c) ≡ u.is_space c) where
    trim_left-map : (s : Text) → trim_left u (map f s) ≡ map f (trim_left u s)
    unfolding trim_left
    trim_left-map [] = refl
    trim_left-map (c ∷ s) = ground (arith, keeps c, trim_left-map s)

    trim_space-map : (s : Text) → trim_space u (map f s) ≡ map f (trim_space u s)
    unfolding trim_space
    trim_space-map s = simp (trim_left-map, map-reverse)

  module _ (laws : UnicodeLaws u) where
    abbrev respell : ℕ → ℕ
    respell c = if u.lower c == b'-' then b'_' else u.lower c

    respell-space : (c : ℕ) → u.is_space (respell c) ≡ u.is_space c
    respell-space c =
        ground
          (arith, laws.lower_space c, laws.lower_hyphen c, laws.space_hyphen, laws.space_underscore)

    normalize-respell :
        (c : ℕ)
        → u.lower (if respell c == b'-' then b'_' else respell c)
          ≡ u.lower (if c == b'-' then b'_' else c)
    normalize-respell c =
        ground (arith, laws.lower_idem c, laws.lower_hyphen c, laws.lower_underscore)

    respell-twice :
        (s : Text)
        → to_lower u (replace_char b'-' b'_' (map respell s))
          ≡ to_lower u (replace_char b'-' b'_' s)
    unfolding to_lower replace_char
    respell-twice [] = refl
    respell-twice (c ∷ s) = cc (normalize-respell c, respell-twice s)

    -- Writing a command word in lower case, and its hyphens as underscores, does not change what
    -- it is read as, for character tables with the laws of `UnicodeLaws`.
    pub normalize_command-respell :
        (s : Text)
        → normalize_command u (replace_char b'-' b'_' (to_lower u s)) ≡ normalize_command u s
    unfolding normalize_command replace_char to_lower
    normalize_command-respell s =
        normalize_command u (replace_char b'-' b'_' (to_lower u s))
        ≡⟨ ap (normalize_command u) (map-cong _ u.lower respell s (λ c. refl)) ⟩
          normalize_command u (map respell s)
        ≡⟨ ap (λ t. to_lower u (replace_char b'-' b'_' t))
            (trim_space-map respell respell-space s) ⟩
          map u.lower (replace_char b'-' b'_' (map respell (trim_space u s)))
        ≡⟨ respell-twice (trim_space u s) ⟩ normalize_command u s ∎
