-- ===== src/Auth/Canonical.antt =====
-- The canonical spelling of an agent's id (`CanonicalID` of internal/agentauth/protocol.go).
use thesis_agent.Base.{
  ℕ, zero, suc, ◌≡◌, refl, ap, ◌∙◌, true, some, [], ◌∷◌, map, arith, length, all, Text,
}
use thesis_agent.Auth.{canonical_id, strip, byte_is, is_hex, lower}

length-lower : (s : Text) → length (map lower s) ≡ length s
length-lower [] = refl
length-lower (c ∷ s) = ap suc (length-lower s)

byte_is-lower : (i : ℕ) (s : Text) → byte_is i b'-' (map lower s) ≡ byte_is i b'-' s
byte_is-lower i [] = refl
byte_is-lower zero (c ∷ s) = ground arith
byte_is-lower (suc i) (c ∷ s) = byte_is-lower i s

strip-lower : (s : Text) → strip (map lower s) ≡ map lower (strip s)
strip-lower [] = refl
strip-lower (c ∷ s) = ground (arith, strip-lower s)

all-is_hex-lower : (s : Text) → all is_hex s ≡ true → all is_hex (map lower s) ≡ true
all-is_hex-lower [] h = refl
all-is_hex-lower (c ∷ s) h = ground (arith, all-is_hex-lower s)

lower_twice : (s : Text) → map lower (map lower s) ≡ map lower s
lower_twice [] = refl
lower_twice (c ∷ s) = ground (arith, lower_twice s)

-- An id that is accepted has 36 bytes and only hexadecimal digits but for its hyphens, and its
-- canonical form is accepted and is its own canonical form.
pub canonical_id_idem :
    (id canonical : Text)
    → canonical_id id ≡ some canonical
    → (canonical_id canonical ≡ some canonical)
      × (length canonical ≡ 36)
      × (all is_hex (strip canonical) ≡ true)
unfolding canonical_id
canonical_id_idem id canonical e =
    let same : canonical ≡ map lower id = ground arith in
    let hex : all is_hex (strip id) ≡ true = ground arith in
    let short : length id ≡ 36 = ground arith in
    let hexes = all-is_hex-lower (strip id) hex in
    rw same (
      ground (
        arith,
        length-lower id,
        byte_is-lower 8 id,
        byte_is-lower 13 id,
        byte_is-lower 18 id,
        byte_is-lower 23 id,
        strip-lower id,
        length-lower (strip id),
        hexes,
        lower_twice id,
      ),
      length-lower id ∙ short,
      rw (strip-lower id) hexes,
    )
