-- ===== src/Agent/Command.antt =====
-- The command line (main.go): which mode the flags choose, and what the maintenance modes require.
use thesis_agent.Base.{
  ℕ, ◌+◌, ◌≡◌, refl, Bool, true, false, not, ◌&&◌, ◌||◌, Option, none, some, List, [], ◌∷◌,
  if◌then◌else◌, ◌==◌, Text, arith, any, Bool-cases, inl, inr,
}
use thesis_agent.Agent.{is_empty}

-- The flags; `rest` is flag.NArg().
pub record Flags : Type 0 where
  pub service : Bool
  pub provision : Bool
  pub migrate : Text
  pub metadata : Bool
  pub configure : Bool
  pub migrate_key : Bool
  pub verify_key : Bool
  pub repair_acl : Bool
  pub rest : ℕ

pub data CommandError : Type 0 where
  unexpected_arguments repair_combined maintenance_combined configure_combined : CommandError
  unknown_host service_outside scm_provisioning not_administrator : CommandError
  migration_without_provision : CommandError

-- What `run` goes on with.
pub data Choice : Type 0 where
  repairs configures prints_metadata serves : Choice
  maintains : Bool → Choice
  consoles : Bool → Text → Choice
  rejects : CommandError → Choice

-- `in_service` is the answer of `IsService`, none its error, and `administrator` that of
-- `RequireAdministrator`.
module _ (f : Flags) (in_service : Option Bool) (administrator : Bool) where
  abbrev has_source : Bool
  has_source = not (is_empty f.migrate)

  -- From `--provision` on, in the console.
  unfoldable pub choose_console : Choice
  choose_console =
      if f.provision && not administrator
      then rejects not_administrator
      else if has_source && not f.provision
      then rejects migration_without_provision
      else consoles f.provision f.migrate

  unfoldable pub choose_host : Option Bool → Choice
  choose_host none = rejects unknown_host
  choose_host (some true) = if f.provision || has_source then rejects scm_provisioning else serves
  choose_host (some false) = if f.service then rejects service_outside else choose_console

  -- The tests of `run`.
  unfoldable pub choose : Choice
  choose =
      if not (f.rest == 0)
      then rejects unexpected_arguments
      else if f.repair_acl
      then if f.migrate_key || f.verify_key || f.configure || f.provision || f.service || f.metadata
          || has_source
        then rejects repair_combined
        else repairs
      else if f.migrate_key || f.verify_key
      then if (f.migrate_key && f.verify_key)
          || f.configure
          || f.provision
          || f.service
          || f.metadata
          || has_source
        then rejects maintenance_combined
        else maintains f.migrate_key
      else if f.configure
      then if f.provision || f.service || f.metadata || has_source
        then rejects configure_combined
        else configures
      else if f.metadata
      then prints_metadata
      else choose_host in_service

  abbrev one : Bool → ℕ
  one b = if b then 1 else 0

  -- How many modes the flags ask for.
  abbrev pub asked : ℕ
  asked =
      one f.repair_acl
      + (one f.migrate_key
          + (one f.verify_key
              + (one f.configure + (one f.metadata + (one f.provision + one f.service)))))

  -- What a choice says of the flags.
  abbrev pub Fits : Choice → Type 0
  Fits (rejects _) = Unit
  Fits repairs = (f.repair_acl ≡ true) × (asked ≡ 1) × (is_empty f.migrate ≡ true)
  Fits configures = (f.configure ≡ true) × (asked ≡ 1) × (is_empty f.migrate ≡ true)
  Fits prints_metadata =
      (f.metadata ≡ true) × (f.repair_acl || f.migrate_key || f.verify_key || f.configure ≡ false)
  Fits (maintains migrates) =
      (f.migrate_key ≡ migrates)
      × (f.verify_key ≡ not migrates)
      × (asked ≡ 1)
      × (is_empty f.migrate ≡ true)
  Fits serves = (in_service ≡ some true) × (asked ≡ one f.service) × (is_empty f.migrate ≡ true)
  Fits (consoles provisions source) =
      (in_service ≡ some false)
      × (f.provision ≡ provisions)
      × (f.migrate ≡ source)
      × (asked ≡ one provisions)
      × (provisions ≡ true → administrator ≡ true)
      × (provisions ≡ false → is_empty source ≡ true)

-- The record of the maintenance modes' calls.
pub data Act : Type 0 where
  acl_ensured acl_released key_migrated lock_taken lock_released key_loaded key_cleared told : Act

-- The answers: that of `IsService` (none an error), whether the caller is an administrator and the
-- service stopped, whether the paths are known, and whether each operation succeeds.
pub record Host : Type 0 where
  pub administrator : Bool
  pub in_service : Option Bool
  pub stopped : Bool
  pub paths_known : Bool
  pub acl_ensures : Bool
  pub key_migrates : Bool
  pub locks : Bool
  pub key_loads : Bool

module _ (h : Host) where
  abbrev pub in_console : Option Bool → Bool
  in_console (some false) = true
  in_console _ = false

  -- The tests in front of both modes; false is an error.
  abbrev pub permitted : Bool
  permitted = h.administrator && (in_console h.in_service && (h.stopped && h.paths_known))

  -- `repairRuntimeACL`; the Boolean says that it returns no error.
  unfoldable pub repair_runtime_acl : List Act × Bool
  repair_runtime_acl =
      if not permitted
      then ([], false)
      else if not h.acl_ensures
      then (acl_ensured ∷ [], false)
      else (acl_ensured ∷ told ∷ acl_released ∷ [], true)

  -- `maintainPrivateKey`.
  unfoldable pub maintain_private_key : Bool → List Act × Bool
  maintain_private_key migrate =
      if not permitted
      then ([], false)
      else if migrate
      then if h.key_migrates then (key_migrated ∷ told ∷ [], true) else (key_migrated ∷ [], false)
      else if not h.locks
      then ([], false)
      else if not h.key_loads
      then (lock_taken ∷ key_loaded ∷ lock_released ∷ [], false)
      else (lock_taken ∷ key_loaded ∷ key_cleared ∷ told ∷ lock_released ∷ [], true)

record IsFitting (f : Flags) (s : Option Bool) (a : Bool) (choice : Choice) : Type 0 where
  pub fits : Fits f s a choice

module _ (f : Flags) (s : Option Bool) (a : Bool) where
  split :
      (b : Bool) (x y : Choice)
      → (b ≡ true → IsFitting f s a x)
      → (b ≡ false → IsFitting f s a y)
      → IsFitting f s a (if b then x else y)
  split true x y g h = g refl
  split false x y g h = h refl

  refuse_if :
      (b : Bool) (e : CommandError) (y : Choice)
      → (b ≡ false → IsFitting f s a y)
      → IsFitting f s a (if b then rejects e else y)
  refuse_if b e y h = split b (rejects e) y (λ _. record { fits = tt }) h

module _ (f : Flags) (a : Bool) (r : f.repair_acl ≡ false) (m : f.migrate_key ≡ false)
    (v : f.verify_key ≡ false) (c : f.configure ≡ false) (i : f.metadata ≡ false) where
  choose_console-Fits :
      f.service ≡ false → IsFitting f (some false) a (choose_console f (some false) a)
  unfolding choose_console
  choose_console-Fits s = refuse_if f (some false) a (f.provision && not a) _ _ (λ h.
      refuse_if f (some false) a (not (is_empty f.migrate) && not f.provision) _ _
        (λ k. record { fits = (refl, refl, refl, ground arith, ground arith, ground arith) }))

  choose_host-Fits : (s : Option Bool) → IsFitting f s a (choose_host f s a s)
  unfolding choose_host
  choose_host-Fits none = record { fits = tt }
  choose_host-Fits (some true) =
      refuse_if f (some true) a (f.provision || not (is_empty f.migrate)) _ _
        (λ h. record { fits = (refl, ground arith, ground arith) })
  choose_host-Fits (some false) =
      refuse_if f (some false) a f.service _ _ (λ h. choose_console-Fits h)

module _ (f : Flags) (s : Option Bool) (a : Bool) where
  choose-IsFitting : IsFitting f s a (choose f s a)
  unfolding choose
  choose-IsFitting = refuse_if f s a (not (f.rest == 0)) _ _ (λ _.
      split f s a f.repair_acl _ _
        (λ r.
          refuse_if f s a
            (f.migrate_key
              || f.verify_key
              || f.configure
              || f.provision
              || f.service
              || f.metadata
              || not (is_empty f.migrate))
            _ _ (λ h. record { fits = (r, ground arith, ground arith) }))
        (λ r.
          split f s a (f.migrate_key || f.verify_key) _ _
            (λ k.
              refuse_if f s a
                ((f.migrate_key && f.verify_key)
                  || f.configure
                  || f.provision
                  || f.service
                  || f.metadata
                  || not (is_empty f.migrate))
                _ _ (λ h. record { fits = (refl, ground arith, ground arith, ground arith) }))
            (λ k.
              split f s a f.configure _ _
                (λ c.
                  refuse_if f s a
                    (f.provision || f.service || f.metadata || not (is_empty f.migrate)) _ _
                    (λ h. record { fits = (c, ground arith, ground arith) }))
                (λ c.
                  split f s a f.metadata _ _ (λ i. record { fits = (i, ground arith) })
                    (λ i. choose_host-Fits f a r (ground arith) (ground arith) c i s)))))

-- The choice of a mode is the one that the flags ask for: apart from the printing of the metadata,
-- which only excludes the four modes before it, a command that is not rejected asks for at most one
-- mode; the service runs only under the service manager and the console's modes only outside of it;
-- a console provisions only for an administrator, and an identity is migrated only with
-- provisioning.
pub choose-Fits : (f : Flags) (s : Option Bool) (a : Bool) → Fits f s a (choose f s a)
choose-Fits f s a = (choose-IsFitting f s a).fits

abbrev pub touches : Act → Bool
touches told = false
touches _ = true

-- Who may maintain the agent's files: an administrator outside of the service manager, with the
-- service stopped.
pub record IsPermitted (h : Host) : Type 0 where
  pub is_administrator : h.administrator ≡ true
  pub is_console : h.in_service ≡ some false
  pub is_stopped : h.stopped ≡ true

permitted_console : (o : Option Bool) (h : Host) → in_console h o ≡ true → o ≡ some false
permitted_console none h e = cc
permitted_console (some true) h e = cc
permitted_console (some false) h e = refl

permitted-IsPermitted : (h : Host) → permitted h ≡ true → IsPermitted h
permitted-IsPermitted h e = record {
  is_administrator = ground arith;
  is_console = permitted_console h.in_service h (ground arith);
  is_stopped = ground arith;
}

-- The maintenance modes change and read nothing, take no lock and repair no access list, unless the
-- caller is an administrator outside of the service manager and the service is stopped.
pub maintenance-IsPermitted :
    (h : Host) (migrate : Bool)
    → any touches (repair_runtime_acl h).0 || any touches (maintain_private_key h migrate).0 ≡ true
    → IsPermitted h
unfolding repair_runtime_acl maintain_private_key
maintenance-IsPermitted h migrate e = elim (Bool-cases (permitted h)) [
  | inl fine ↦ permitted-IsPermitted h fine
  | inr refused ↦ absurd (ground arith)
]
