-- ===== src/Protected/Startup/Balance.antt =====
-- Handles and locks of the startup gate (internal/protectedpath/runtime_windows.go): counting what
-- is open.
use thesis_agent.Base.{
  ℕ, zero, suc, ◌+◌, ◌≡◌, Option, none, some, List, [], ◌∷◌, ◌++◌, String, if◌then◌else◌, str_eq,
  map, arith,
}
use thesis_agent.Protected.Repair.{
  Object, Act, handled, opened, created, closed, locked, unlocked, told, repaired, System, tell,
}
use thesis_agent.Protected.Descriptor.{Assessment}
use thesis_agent.Protected.Repair.Handles.{IsIndifferent}
use thesis_agent.Protected.Startup.{close_all, close_back, close_others, path_of}

module _ (q : String) where
  unfoldable pub one : String → ℕ
  one path = if str_eq path q then 1 else 0

  -- How often the path occurs.
  abbrev pub held : List String → ℕ
  held [] = 0
  held (path ∷ paths) = one path + held paths

  -- How often it was opened or created, and closed.
  abbrev pub opens : List Act → ℕ
  opens [] = 0
  opens (handled (opened path) ∷ acts) = one path + opens acts
  opens (handled (created path) ∷ acts) = one path + opens acts
  opens (_ ∷ acts) = opens acts

  abbrev pub closes : List Act → ℕ
  closes [] = 0
  closes (handled (closed path) ∷ acts) = one path + closes acts
  closes (_ ∷ acts) = closes acts

abbrev pub locks : List Act → ℕ
locks [] = 0
locks (handled locked ∷ acts) = suc (locks acts)
locks (_ ∷ acts) = locks acts

abbrev pub unlocks : List Act → ℕ
unlocks [] = 0
unlocks (handled unlocked ∷ acts) = suc (unlocks acts)
unlocks (_ ∷ acts) = unlocks acts

-- Repairs are made only while the lock is held.
abbrev pub IsUnderLock : List Act → Type 0
IsUnderLock [] = Unit
IsUnderLock (repaired _ ∷ acts) = (locks acts ≡ suc (unlocks acts)) × IsUnderLock acts
IsUnderLock (_ ∷ acts) = IsUnderLock acts

abbrev pub Locked : ℕ → List Act → Type 0
Locked k acts = (locks acts ≡ unlocks acts + k) × IsUnderLock acts

-- Of the handles to `q`, `n` are open, and the lock is held `k` times.
abbrev pub Open : String → ℕ → ℕ → List Act → Type 0
Open q n k acts = (opens q acts ≡ closes q acts + n) × Locked k acts

pub tell-Open :
    (w : System) (q : String) (n k : ℕ) (scope path : String) (a : Assessment) (action : String)
    (reasons : List String) (acts : List Act)
    → Open q n k acts
    → Open q n k (tell scope path a action reasons acts)
unfolding tell
tell-Open w q n k scope path a action [] acts h = h
tell-Open w q n k scope path a action (r ∷ reasons) acts h =
    tell-Open w q n k scope path a action reasons (told _ ∷ acts) h

pub Open-IsIndifferent : (q : String) (n : ℕ) → IsIndifferent (Open q n 1)
Open-IsIndifferent q n = record {
  if_told = λ d acts h. h;
  if_inspected = λ path a acts h. h;
  if_repaired = λ path acts h. (h.0, (h.1.0, (omega (arith, h.1.0), h.1.1)));
}

pub held-append : (q : String) (xs ys : List String) → held q (xs ++ ys) ≡ held q xs + held q ys
held-append q [] ys = omega arith
held-append q (x ∷ xs) ys = omega (arith, held-append q xs ys)

-- The object at a position.
abbrev pub nth : ℕ → List Object → Option Object
nth n [] = none
nth zero (o ∷ os) = some o
nth (suc n) (o ∷ os) = nth n os

module _ (q : String) (k : ℕ) where
  pub close_all-Open :
      (n : ℕ) (paths : List String) (acts : List Act)
      → Open q (n + held q paths) k acts
      → Open q n k (close_all paths acts)
  unfolding close_all
  close_all-Open n [] acts h = (omega arith, h.1)
  close_all-Open n (path ∷ paths) acts h =
      close_all-Open n paths (handled (closed path) ∷ acts) (omega arith, h.1)

  pub close_back-Open :
      (n : ℕ) (paths : List String) (acts : List Act)
      → Open q (n + held q paths) k acts
      → Open q n k (close_back paths acts)
  unfolding close_back
  close_back-Open n [] acts h = (omega arith, h.1)
  close_back-Open n (path ∷ paths) acts h =
      let rest = close_back-Open (n + one q path) paths acts (omega arith, h.1) in
      (omega (arith, rest.0), rest.1)

  pub close_others-Open :
      (m n : ℕ) (os : List Object) (o : Object) (acts : List Act)
      → nth n os ≡ some o
      → Open q (m + held q (map path_of os)) k acts
      → Open q (m + one q o.self.path) k (close_others n os acts)
  unfolding close_others
  close_others-Open m n [] o acts e h = cc
  close_others-Open m zero (x ∷ os) o acts e h =
      let same : one q x.self.path ≡ one q o.self.path = cc in
      close_all-Open (m + one q o.self.path) (map path_of os) acts (omega arith, h.1)
  close_others-Open m (suc n) (x ∷ os) o acts e h =
      close_others-Open m n os o (handled (closed x.self.path) ∷ acts) e (omega arith, h.1)
