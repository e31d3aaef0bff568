-- ===== src/Protected/Descriptor/Canonical.antt =====
-- What a canonical descriptor is (internal/protectedpath/runtime_windows.go, path_windows.go).
use thesis_agent.Base.{
  ℕ, ◌≡◌, ◌≢◌, ◌⊎◌, ◌↔◌, refl, ap, ◌∙◌, inl, inr, Bool, true, false, not, ◌&&◌, ◌||◌, Option, none,
  some, List, [], ◌∷◌, arith, length,
}
use thesis_agent.Protected.Descriptor.{
  Sid, local_system, administrators, trusted_sid, is_system, is_admins, Ace, Descriptor, canonical,
  Assessment, full_control, unreadable, wanted, Found, add_ace, scan, judge, nothing_found,
  read_dacl, read_owner, classify_descriptor, grants, validate_descriptor, validate_owner,
  validate_dacl,
}
use thesis_agent.Protected.Descriptor.Entries.{
  IsFullControl, IsProfile, IsSound, conclude-canonical, conclude-clean, both-IsSplit,
}

module _ (d : Descriptor) (directory root : Bool) (owner : Sid) where
  scan_step :
      (bad : Assessment) (count : ℕ) (o : Option Ace) (aces : List (Option Ace)) (f : Found)
      → bad.class ≢ canonical
      → (judge root d owner count (scan directory root bad (o ∷ aces) f)).class ≡ canonical
      → (ace : Ace) × (o ≡ some ace)
        × IsSound ace
        × ((judge root d owner count
              (scan directory root bad aces (add_ace directory root ace f))).class
            ≡ canonical)
  unfolding scan judge
  scan_step bad count none aces f b c = absurd (b c)
  scan_step bad count (some ace) aces f b c = (
    ace,
    refl,
    record {
      allowed = ground arith;
      sizes = (ground arith, ground arith);
      valid = ground arith;
      trusted = ground arith;
    },
    ground arith,
  )

  judged_count :
      (bad : Assessment) (count : ℕ) (aces : List (Option Ace)) (f : Found)
      → bad.class ≢ canonical
      → (judge root d owner count (scan directory root bad aces f)).class ≡ canonical
      → count ≡ 2
  unfolding scan judge
  judged_count bad count [] f b c = (conclude-canonical root d owner count f c).4
  judged_count bad count (o ∷ aces) f b c =
      let (ace, same, sound, rest) = scan_step bad count o aces f b c in
      judged_count bad count aces (add_ace directory root ace f) b rest

  full_entry :
      (who : Sid) (ace : Ace)
      → IsSound ace
      → ace.sid ≡ who
      → ace.mask ≡ full_control
      → wanted directory ace.flags ≡ true
      → root && ace.flags.inherited ≡ false
      → IsFullControl directory root who ace
  full_entry who ace s w m f e = record {
    allows = s.allowed;
    sized = s.sizes;
    sid_is = w;
    sid_ok = s.valid;
    full = m;
    flags_are = f;
    explicit = e;
  }

  abbrev Entries : List (Option Ace) → Type 0
  Entries aces =
      (a b : Ace) × (aces ≡ some a ∷ some b ∷ [])
      × ((IsFullControl directory root local_system a
            × IsFullControl directory root administrators b)
          ⊎ (IsFullControl directory root administrators a
              × IsFullControl directory root local_system b))

  judged_pair :
      (bad : Assessment) (x y : Option Ace)
      → bad.class ≢ canonical
      → (judge root d owner 2 (scan directory root bad (x ∷ y ∷ []) nothing_found)).class
        ≡ canonical
      → Entries (x ∷ y ∷ []) × (root && not d.dacl_protected ≡ false)
  unfolding scan judge
  judged_pair bad x y nc c =
      let (a, is_a, sound_a, c1) = scan_step bad 2 x (y ∷ []) nothing_found nc c in
      let (b, is_b, sound_b, c2) =
        scan_step bad 2 y [] (add_ace directory root a nothing_found) nc c1 in
      let (system, admins, flags_ok, guarded, _) = conclude-canonical root d owner 2 _ c2 in
      let split = both-IsSplit directory root a b system admins flags_ok in
      (
        (
          a,
          b,
          rw is_a (rw is_b refl),
          elim split.principals [
            | inl (p, q) ↦ inl (
              full_entry _ a sound_a p split.full_a split.flags_a split.explicit_a,
              full_entry _ b sound_b q split.full_b split.flags_b split.explicit_b,
            )
            | inr (p, q) ↦ inr (
              full_entry _ a sound_a p split.full_a split.flags_a split.explicit_a,
              full_entry _ b sound_b q split.full_b split.flags_b split.explicit_b,
            )
          ],
        ),
        guarded,
      )

  judged-Entries :
      (bad : Assessment) (aces : List (Option Ace))
      → bad.class ≢ canonical
      → (judge root d owner (length aces) (scan directory root bad aces nothing_found)).class
        ≡ canonical
      → Entries aces × (root && not d.dacl_protected ≡ false)
  judged-Entries bad [] nc c = absurd (omega (arith, judged_count bad 0 [] _ nc c))
  judged-Entries bad (x ∷ []) nc c = absurd (omega (arith, judged_count bad 1 (x ∷ []) _ nc c))
  judged-Entries bad (x ∷ y ∷ []) nc c = judged_pair bad x y nc c
  judged-Entries bad (x ∷ y ∷ z ∷ more) nc c =
      absurd (omega (arith, judged_count bad _ (x ∷ y ∷ z ∷ more) _ nc c))

  accepts_cons :
      {who : Sid}
      → (bad : Assessment) (ace : Ace) (aces : List (Option Ace)) (f : Found)
      → trusted_sid who ≡ true
      → IsFullControl directory root who ace
      → (judge root d owner 2 (
          scan directory root bad aces (record {
            system = f.system || is_system who;
            admins = f.admins || is_admins who;
            flags_ok = f.flags_ok;
          }))).class
        ≡ canonical
      → (judge root d owner 2 (scan directory root bad (some ace ∷ aces) f)).class ≡ canonical
  unfolding scan add_ace
  accepts_cons bad ace aces f t p c = ground arith

  abbrev only : Sid → Found
  only who = record { system = is_system who; admins = is_admins who; flags_ok = true }

  judged_full :
      (bad : Assessment) (a b : Ace)
      → root && not d.dacl_protected ≡ false
      → (IsFullControl directory root local_system a
          × IsFullControl directory root administrators b)
        ⊎ (IsFullControl directory root administrators a
            × IsFullControl directory root local_system b)
      → (judge root d owner 2 (scan directory root bad (some a ∷ some b ∷ []) nothing_found)).class
        ≡ canonical
  unfolding scan judge
  judged_full bad a b g (inl (p, q)) = accepts_cons bad a (some b ∷ []) nothing_found refl p (
      accepts_cons bad b [] (only local_system) refl q
        (conclude-clean root d owner _ refl refl refl g))
  judged_full bad a b g (inr (p, q)) = accepts_cons bad a (some b ∷ []) nothing_found refl p (
      accepts_cons bad b [] (only administrators) refl q
        (conclude-clean root d owner _ refl refl refl g))

read_dacl-IsProfile :
    (d : Descriptor) (owner : Sid) (directory root : Bool) (o : Option (List (Option Ace)))
    → d.valid ≡ true
    → d.owner ≡ some owner
    → trusted_sid owner ≡ true
    → d.dacl ≡ o
    → (read_dacl d owner directory root o).class ≡ canonical
    → IsProfile directory root d
unfolding read_dacl
read_dacl-IsProfile d owner directory root none v w t e c = cc
read_dacl-IsProfile d owner directory root (some aces) v w t e c =
    let (entries, guarded) =
      judged-Entries d directory root owner (record unreadable { owner = some owner }) aces
        (λ h. cc) (ground arith) in
    let (a, b, shape, full) = entries in
    record {
      readable = (v, ground arith, ground arith);
      owned = (owner, w, t);
      guarded = guarded;
      entries = (a, b, e ∙ ap some shape, full);
    }

classify_descriptor-IsProfile :
    (d : Descriptor) (directory root : Bool) (o : Option Sid)
    → d.owner ≡ o
    → (classify_descriptor d directory root).class ≡ canonical
    → IsProfile directory root d
unfolding classify_descriptor read_owner
classify_descriptor-IsProfile d directory root none e c = absurd (ground arith)
classify_descriptor-IsProfile d directory root (some owner) e c =
    read_dacl-IsProfile d owner directory root d.dacl (ground arith) e (ground arith) refl
      (ground arith)

profile-canonical :
    (d : Descriptor) (directory root : Bool)
    → IsProfile directory root d
    → (classify_descriptor d directory root).class ≡ canonical
unfolding classify_descriptor read_owner read_dacl
profile-canonical d directory root p =
    let (v, c, r) = p.readable in
    let (owner, e, t) = p.owned in
    let (a, b, shape, full) = p.entries in
    simp (v, e, t, shape, c, r)
      (judged_full d directory root owner (record unreadable { owner = some owner }) a b p.guarded
        full)

-- An inspection finds an object canonical exactly where its descriptor has the profile of the
-- agent's files: it can be read, its owner is SYSTEM or the administrators, and its list has
-- exactly one entry for each of the two, in any order, which allow full control with the
-- inheritance flags of the kind of object; the root's is protected and nothing in it is inherited.
pub classify_descriptor-canonical_iff :
    (d : Descriptor) (directory root : Bool)
    → (classify_descriptor d directory root).class ≡ canonical ↔ IsProfile directory root d
classify_descriptor-canonical_iff d directory root = (
  classify_descriptor-IsProfile d directory root d.owner refl,
  profile-canonical d directory root,
)

grants_full :
    (directory : Bool) (root : Bool) (who : Sid) (ace : Ace) (aces : List (Option Ace))
    (system admins : Bool)
    → trusted_sid who ≡ true
    → IsFullControl directory root who ace
    → grants directory (some ace ∷ aces) system admins
      ≡ grants directory aces (system || is_system who) (admins || is_admins who)
unfolding grants
grants_full directory root who ace aces system admins t p = ground arith

granted_full :
    (directory root : Bool) (a b : Ace)
    → (IsFullControl directory root local_system a × IsFullControl directory root administrators b)
      ⊎ (IsFullControl directory root administrators a
          × IsFullControl directory root local_system b)
    → grants directory (some a ∷ some b ∷ []) false false ≡ some (true, true)
unfolding grants
granted_full directory root a b (inl (x, y)) =
    grants_full directory root _ a (some b ∷ []) false false refl x
    ∙ grants_full directory root _ b [] true false refl y
granted_full directory root a b (inr (x, y)) =
    grants_full directory root _ a (some b ∷ []) false false refl x
    ∙ grants_full directory root _ b [] false true refl y

profile-validates :
    (d : Descriptor) (directory root : Bool)
    → IsProfile directory root d
    → validate_descriptor d directory ≡ true
unfolding validate_descriptor validate_owner validate_dacl
profile-validates d directory root p =
    let (owner, e, t) = p.owned in
    let (a, b, shape, full) = p.entries in
    rw e (rw t (rw shape (rw (granted_full directory root a b full) refl)))

-- What the startup gate finds canonical, the check before the private key is read accepts.
pub canonical-validates :
    (d : Descriptor) (directory root : Bool)
    → (classify_descriptor d directory root).class ≡ canonical
    → validate_descriptor d directory ≡ true
canonical-validates d directory root c =
    profile-validates d directory root
      (classify_descriptor-IsProfile d directory root d.owner refl c)
