-- ===== src/Protected/Descriptor/Entries.antt =====
-- Entries and reasons of a descriptor (internal/protectedpath/runtime_windows.go).
use thesis_agent.Base.{
  ℕ, ◌+◌, ◌≤◌, ◌≡◌, ◌⊎◌, refl, inl, inr, Bool, true, false, not, ◌&&◌, ◌||◌, some, [], ◌∷◌, arith,
}
use thesis_agent.Protected.Descriptor.{
  Sid, local_system, administrators, foreign, trusted_sid, is_system, is_admins, Ace, Descriptor,
  canonical, full_control, wanted, Found, add_ace, conclude, nothing_found,
}

-- An entry that gives one of the two principals full control, with exactly the flags of its kind of
-- object, and on the root not by inheritance.
pub record IsFullControl (directory root : Bool) (who : Sid) (ace : Ace) : Type 0 where
  pub allows : ace.is_allow ≡ true
  pub sized : (16 ≤ ace.size) × (8 + ace.sid_size ≤ ace.size)
  pub sid_is : ace.sid ≡ who
  pub sid_ok : ace.sid_valid ≡ true
  pub full : ace.mask ≡ full_control
  pub flags_are : wanted directory ace.flags ≡ true
  pub explicit : root && ace.flags.inherited ≡ false

-- The profile of the agent's files: a trusted owner, and two entries, one for SYSTEM and one for
-- the administrators; on the root they are protected from inheritance.
pub record IsProfile (directory root : Bool) (d : Descriptor) : Type 0 where
  pub readable : (d.valid ≡ true) × (d.control_readable ≡ true) × (d.dacl_present ≡ true)
  pub owned : (owner : Sid) × (d.owner ≡ some owner) × (trusted_sid owner ≡ true)
  pub guarded : root && not d.dacl_protected ≡ false
  pub entries :
      (a b : Ace) × (d.dacl ≡ some (some a ∷ some b ∷ []))
      × ((IsFullControl directory root local_system a
            × IsFullControl directory root administrators b)
          ⊎ (IsFullControl directory root administrators a
              × IsFullControl directory root local_system b))

pub record IsSound (ace : Ace) : Type 0 where
  pub allowed : ace.is_allow ≡ true
  pub sizes : (16 ≤ ace.size) × (8 + ace.sid_size ≤ ace.size)
  pub valid : ace.sid_valid ≡ true
  pub trusted : trusted_sid ace.sid ≡ true

pub conclude-canonical :
    (root : Bool) (d : Descriptor) (owner : Sid) (count : ℕ) (f : Found)
    → (conclude root d owner count f).class ≡ canonical
    → (f.system ≡ true)
      × (f.admins ≡ true)
      × (f.flags_ok ≡ true)
      × (root && not d.dacl_protected ≡ false)
      × (count ≡ 2)
unfolding conclude
conclude-canonical root d owner count f c = ground arith

pub conclude-clean :
    (root : Bool) (d : Descriptor) (owner : Sid) (f : Found)
    → f.system ≡ true
    → f.admins ≡ true
    → f.flags_ok ≡ true
    → root && not d.dacl_protected ≡ false
    → (conclude root d owner 2 f).class ≡ canonical
unfolding conclude
conclude-clean root d owner f s a k r = rw s (rw a (rw k (rw r refl)))

abbrev pub Both : Bool → Bool → Ace → Ace → Found
Both directory root a b = add_ace directory root b (add_ace directory root a nothing_found)

two_principals :
    (x y : Sid)
    → is_system x || is_system y ≡ true
    → is_admins x || is_admins y ≡ true
    → ((x ≡ local_system) × (y ≡ administrators)) ⊎ ((x ≡ administrators) × (y ≡ local_system))
two_principals local_system administrators s a = inl (refl, refl)
two_principals administrators local_system s a = inr (refl, refl)
two_principals local_system local_system s a = cc
two_principals local_system (foreign _) s a = cc
two_principals administrators administrators s a = cc
two_principals administrators (foreign _) s a = cc
two_principals (foreign _) local_system s a = cc
two_principals (foreign _) administrators s a = cc
two_principals (foreign _) (foreign _) s a = cc

pub record IsSplit (directory root : Bool) (a b : Ace) : Type 0 where
  pub flags_a : wanted directory a.flags ≡ true
  pub flags_b : wanted directory b.flags ≡ true
  pub explicit_a : root && a.flags.inherited ≡ false
  pub explicit_b : root && b.flags.inherited ≡ false
  pub full_a : a.mask ≡ full_control
  pub full_b : b.mask ≡ full_control
  pub principals :
      ((a.sid ≡ local_system) × (b.sid ≡ administrators))
      ⊎ ((a.sid ≡ administrators) × (b.sid ≡ local_system))

pub both-IsSplit :
    (directory root : Bool) (a b : Ace)
    → (Both directory root a b).system ≡ true
    → (Both directory root a b).admins ≡ true
    → (Both directory root a b).flags_ok ≡ true
    → IsSplit directory root a b
unfolding add_ace
both-IsSplit directory root a b s m k = record {
  flags_a = ground arith;
  flags_b = ground arith;
  explicit_a = ground arith;
  explicit_b = ground arith;
  full_a = ground arith;
  full_b = ground arith;
  principals = two_principals a.sid b.sid (ground arith) (ground arith);
}
