-- ===== src/Protected/Repair/Verified.antt =====
-- What a successful `ensureObjects` leaves (internal/protectedpath/runtime_windows.go).
use mathlib.Core.List.{append_assoc}
use thesis_agent.Base.{
  ◌≡◌, refl, sym, ◌∙◌, true, false, Option, none, some, List, [], ◌∷◌, ◌++◌, any, All, arith,
  String,
}
use thesis_agent.Protected.Descriptor.{Descriptor, Class, canonical, repairable, unsafe_state}
use thesis_agent.Protected.Descriptor.Entries.{IsProfile}
use thesis_agent.Protected.Descriptor.Canonical.{classify_descriptor-canonical_iff}
use thesis_agent.Protected.Repair.{
  is_repair, Look, Pinned, Object, Act, inspected, System, Fault, Info, resolves, inspect_info,
  inspect_structure, inspect_security, inspect, unless_failed, refuse_changed, preflight,
  ensure_each, postflight, ensure_objects,
}

-- What a handle shows is the object itself: no reparse point, of the kind that is wanted, a file with
-- a single link, at the path it was opened by.
pub record IsItself (w : System) (o : Pinned) (l : Look) : Type 0 where
  pub seen : Info
  pub readable : l.info ≡ some seen
  pub no_reparse : seen.reparse ≡ false
  pub of_kind : seen.is_directory ≡ o.directory
  pub single_link : o.directory ≡ false → seen.links ≡ 1
  pub in_place : (name : String) × (l.final_path ≡ some name) × (w.same name o.path ≡ true)

-- The object's structure and its descriptor, as they were seen after the acts `before`, are those
-- of the profile, and among the later acts up to `final` no repair occurs.
pub record IsVerified (w : System) (final : List Act) (o : Pinned) : Type 0 where
  pub later : List Act
  pub before : List Act
  pub in_order : final ≡ later ++ before
  pub untouched : any is_repair later ≡ false
  pub structure : IsItself w o (w.sees before o.path)
  pub descriptor :
      (d : Descriptor) × ((w.sees before o.path).descriptor ≡ some d)
      × IsProfile o.directory o.root d

any-append :
    (xs ys : List Act)
    → any is_repair xs ≡ false
    → any is_repair ys ≡ false
    → any is_repair (xs ++ ys) ≡ false
any-append [] ys h k = k
any-append (x ∷ xs) ys h k = let later = any-append xs ys (ground arith) k in ground arith

module _ (w : System) where
  resolves-name :
      (path : String) (final : Option String)
      → resolves w path final ≡ true
      → (name : String) × (final ≡ some name) × (w.same name path ≡ true)
  resolves-name path none h = cc
  resolves-name path (some name) h = (name, refl, h)

  inspect_info-IsItself :
      (o : Pinned) (l : Look) (i : Option Info)
      → l.info ≡ i
      → (inspect_info w o l.final_path i).class ≡ canonical
      → IsItself w o l
  inspect_info-IsItself o l none e h = cc
  inspect_info-IsItself o l (some i) e h = record {
    seen = i;
    readable = e;
    no_reparse = ground arith;
    of_kind = ground arith;
    single_link = λ d. ground arith;
    in_place = resolves-name o.path l.final_path (ground arith);
  }

  inspect_structure-IsItself :
      (o : Pinned) (l : Look) → (inspect_structure w o l).class ≡ canonical → IsItself w o l
  unfolding inspect_structure
  inspect_structure-IsItself o l h = inspect_info-IsItself o l l.info refl h

  inspect_security-canonical :
      (o : Pinned) (l : Look) (c : Class) (s : Option Descriptor)
      → l.descriptor ≡ s
      → (inspect_structure w o l).class ≡ c
      → (inspect_security w o l (inspect_structure w o l) c).class ≡ canonical
      → (c ≡ canonical)
        × ((d : Descriptor) × (l.descriptor ≡ some d) × IsProfile o.directory o.root d)
  unfolding inspect_security
  inspect_security-canonical o l canonical none e s c = absurd (ground arith)
  inspect_security-canonical o l canonical (some d) e s c =
      (refl, (d, e, (classify_descriptor-canonical_iff d o.directory o.root).0 cc))
  inspect_security-canonical o l repairable x e s c = absurd (ground arith)
  inspect_security-canonical o l unsafe_state x e s c = absurd (ground arith)

  inspect-canonical :
      (acts : List Act) (o : Pinned)
      → (inspect w acts o).class ≡ canonical
      → ((inspect_structure w o (w.sees acts o.path)).class ≡ canonical)
        × ((d : Descriptor) × ((w.sees acts o.path).descriptor ≡ some d)
            × IsProfile o.directory o.root d)
  unfolding inspect
  inspect-canonical acts o c = inspect_security-canonical o (w.sees acts o.path) _ _ refl refl c

  -- The acts of the last loop on `os`, newest first.
  abbrev IsChecked : List Act → List Object → List Act → Type 0
  IsChecked acts os final =
      (later : List Act) × (final ≡ later ++ acts)
      × (any is_repair later ≡ false)
      × All (λ o. IsVerified w final o.self) os

  postflight_step :
      (acts : List Act) (o : Object) (os : List Object) (rest : List Act × Option Fault) (c : Class)
      → (inspect w acts o.self).class ≡ c
      → (rest.1 ≡ none → IsChecked (inspected o.self.path (inspect w acts o.self) ∷ acts) os rest.0)
      → (refuse_changed w
          (inspected o.self.path (inspect w acts o.self) ∷ acts)
          o.self
          (inspect w acts o.self)
          c
          rest).1
        ≡ none
      → IsChecked acts
          (o ∷ os)
          (refuse_changed w
            (inspected o.self.path (inspect w acts o.self) ∷ acts)
            o.self
            (inspect w acts o.self)
            c
            rest).0
  unfolding refuse_changed
  postflight_step acts o os rest repairable e r h = cc
  postflight_step acts o os rest unsafe_state e r h = cc
  postflight_step acts o os rest canonical e r h =
      let (later, in_order, untouched, checked) = r h in
      let (structure, descriptor) = inspect-canonical acts o.self e in
      let seen : Act = inspected o.self.path (inspect w acts o.self) in
      let order = in_order ∙ sym (append_assoc later (seen ∷ []) acts) in
      let quiet = any-append later (seen ∷ []) untouched refl in
      (
        later ++ seen ∷ [],
        order,
        quiet,
        (
          record {
            later = later ++ seen ∷ [];
            before = acts;
            in_order = order;
            untouched = quiet;
            structure = inspect_structure-IsItself o.self (w.sees acts o.self.path) structure;
            descriptor = descriptor;
          },
          checked,
        ),
      )

  postflight-IsChecked :
      (acts : List Act) (os : List Object)
      → (postflight w acts os).1 ≡ none
      → IsChecked acts os (postflight w acts os).0
  unfolding postflight
  postflight-IsChecked acts [] h = ([], refl, refl, tt)
  postflight-IsChecked acts (o ∷ os) h =
      postflight_step acts o os
        (postflight w (inspected o.self.path (inspect w acts o.self) ∷ acts) os) _ refl
        (λ k. postflight-IsChecked (inspected o.self.path (inspect w acts o.self) ∷ acts) os k) h

  unless_failed-none :
      (one rest : List Act × Option Fault)
      → (unless_failed w one rest).1 ≡ none
      → (one.1 ≡ none) × (rest.1 ≡ none) × ((unless_failed w one rest).0 ≡ rest.0)
  unfolding unless_failed
  unless_failed-none (acts, some e) rest h = cc
  unless_failed-none (acts, none) rest h = (refl, h, refl)

-- If the startup gate's repair reports no error, then each of its objects was seen, after the last
-- repair of any object, to be no reparse point, of the kind that is wanted, a file with one link only,
-- and at the path it was opened by, with a descriptor that has the profile of the agent's files. The rest of the system may answer in
-- any way, also differently at each call.
pub ensure_objects-IsVerified :
    (w : System) (acts : List Act) (os : List Object)
    → (ensure_objects w acts os).1 ≡ none
    → All (λ o. IsVerified w (ensure_objects w acts os).0 o.self) os
unfolding ensure_objects
ensure_objects-IsVerified w acts os h =
    let (_, second, end) = unless_failed-none w (preflight w acts os) _ h in
    let (_, third, end') =
      unless_failed-none w (ensure_each w (preflight w acts os).0 os) _ second in
    let (_, _, _, checked) = postflight-IsChecked w _ os third in rw end (rw end' checked)
