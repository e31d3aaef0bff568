-- ===== src/Client/Streams.antt =====
-- The latest-wins command channel and the publisher that reads it (`setStreamState` of
-- client/client.go, `publishOnCommand` of client/performance.go).
use thesis_agent.Base.{
  ℕ, ◌+◌, ◌≡◌, refl, ap, sym, ◌∙◌, Bool, true, false, not, Option, none, some, List, [], ◌∷◌, ◌++◌,
  arith, if◌then◌else◌, ◌⊎◌, inl, inr,
}

-- A channel of one Boolean; `none` is empty.
abbrev pub Slot : Type 0
Slot = Option Bool

-- `setStreamState`: the send, or else the drain and the send. The reader may empty the channel
-- between the two selects, which comes to the same.
unfoldable pub set_stream_state : Bool → Slot → Slot
set_stream_state start none = some start
set_stream_state start (some old) = some start

-- The requests of several messages, with no read in between.
unfoldable pub set_all : List Bool → Slot → Slot
set_all [] slot = slot
set_all (b ∷ bs) slot = set_all bs (set_stream_state b slot)

-- The publisher: is it active, and does it have a ticker?
pub record Publisher : Type 0 where
  pub active : Bool
  pub ticking : Bool

pub data Input : Type 0 where
  -- A command, and whether the message that it may trigger is sent.
  command : Bool → Bool → Input
  -- A tick, and whether its message is sent.
  tick : Bool → Input
  cancelled : Input

pub data Round : Type 0 where
  running : Publisher → ℕ → Round
  returned : ℕ → Round

same : Bool → Bool → Bool
same true b = b
same false b = not b

-- One round of the loop; the number counts the messages that `send` tried. A tick arrives only from
-- a ticker.
unfoldable pub round : Input → Publisher → ℕ → Round
unfolding same
round (command start sent) p n =
    if same start p.active
    then running p n
    else if not start
    then running (record { active = false; ticking = false }) n
    else if not sent
    then returned (n + 1)
    else running (record { active = true; ticking = true }) (n + 1)
round (tick sent) p n =
    if not p.ticking then running p n else if sent then running p (n + 1) else returned (n + 1)
round cancelled p n = returned n

unfoldable pub rounds : List Input → Publisher → ℕ → Round
rounds [] p n = running p n
rounds (i ∷ is) p n = elim (round i p n) [
  | running p' n' ↦ rounds is p' n'
  | returned k ↦ returned k
]

-- The state that the commands ask for in the end.
pub requested : Bool → List Input → Bool
requested b [] = b
requested b (command start sent ∷ is) = requested start is
requested b (_ ∷ is) = requested b is

set_all-some : (bs : List Bool) (b : Bool) (slot : Slot) → set_all (bs ++ b ∷ []) slot ≡ some b
unfolding set_all set_stream_state
set_all-some [] b none = refl
set_all-some [] b (some old) = refl
set_all-some (x ∷ bs) b slot = set_all-some bs b (set_stream_state x slot)

round-kept :
    (i : Input) (p q : Publisher) (n k : ℕ)
    → p.ticking ≡ p.active
    → round i p n ≡ running q k
    → (q.ticking ≡ q.active) × (q.active ≡ requested p.active (i ∷ []))
unfolding round requested
round-kept (command start sent) p q n k t e = (ground arith, ground arith)
round-kept (tick sent) p q n k t e = (ground arith, ground arith)
round-kept cancelled p q n k t e = cc

requested-cons :
    (i : Input) (is : List Input) (b : Bool)
    → requested b (i ∷ is) ≡ requested (requested b (i ∷ [])) is
unfolding requested
requested-cons (command start sent) is b = refl
requested-cons (tick sent) is b = refl
requested-cons cancelled is b = refl

Round-cases :
    (r : Round) → ((p : Publisher) × (n : ℕ) × (r ≡ running p n)) ⊎ ((n : ℕ) × (r ≡ returned n))
Round-cases (running p n) = inl (p, n, refl)
Round-cases (returned n) = inr (n, refl)

-- From a state with a ticker exactly where it is active, as long as the publisher runs, it is in
-- the state that the last command asked for, and has a ticker exactly where it is active.
pub rounds-requested :
    (is : List Input) (p q : Publisher) (n k : ℕ)
    → p.ticking ≡ p.active
    → rounds is p n ≡ running q k
    → (q.active ≡ requested p.active is) × (q.ticking ≡ q.active)
unfolding rounds
rounds-requested [] p q n k t e = unfold requested in (ground arith, ground arith)
rounds-requested (i ∷ is) p q n k t e = elim (Round-cases (round i p n)) [
  | inl (p', n', made) ↦
      let (t', a) = round-kept i p p' n n' t made in
      let (done, ticks) = rounds-requested is p' q n' k t' (rw (made, rounds) at e) in
      (done ∙ ap (λ b. requested b is) a ∙ sym (requested-cons i is p.active), ticks)
  | inr (k', ended) ↦ absurd (ground arith)
]

-- However many requests a reader misses, the one that it then reads is the last.
pub set_all-last : (bs : List Bool) (b : Bool) (slot : Slot) → set_all (bs ++ b ∷ []) slot ≡ some b
set_all-last bs b slot = set_all-some bs b slot
