-- ===== src/Client/Screen.antt =====
-- The screen streamer (client/screen.go): at most one capture goroutine, whatever the interleaving.
-- Each Start makes a new `done` channel, numbered here; the deferred function of `run` clears the
-- state under the mutex if the channel is still its own, and closes it afterwards.
use thesis_agent.Base.{
  ℕ, ◌+◌, ◌≡◌, refl, ◌⊎◌, inl, inr, Bool, true, false, not, ◌||◌, Option, none, some, List, [], ◌∷◌,
  arith, if◌then◌else◌, ◌==◌, is_some,
}

pub record Streamer : Type 0 where
  pub has_capture : Bool
  pub streaming : Bool
  pub done : Option ℕ
  pub cancelled : Bool
  -- The goroutines that have not reached the deferred function, by their channels.
  pub alive : List ℕ
  -- The channels made so far.
  pub made : ℕ

unfoldable pub new_streamer : Bool → Streamer
new_streamer has_capture = record {
  has_capture = has_capture;
  streaming = false;
  done = none;
  cancelled = false;
  alive = [];
  made = 0;
}

-- `Start`.
unfoldable pub start : Streamer → Streamer
start s = if s.streaming || not s.has_capture then s else record s {
  streaming = true;
  done = some s.made;
  cancelled = false;
  alive = s.made ∷ s.alive;
  made = s.made + 1;
}

abbrev is_done : Option ℕ → ℕ → Bool
is_done none id = false
is_done (some d) id = d == id

abbrev remove : ℕ → List ℕ → List ℕ
remove id [] = []
remove id (x ∷ xs) = if x == id then xs else x ∷ remove id xs

-- The deferred function of the goroutine `id`.
unfoldable pub finish_run : ℕ → Streamer → Streamer
finish_run id s =
    let ended = record s { alive = remove id s.alive } in
    if is_done s.done id
    then record ended { streaming = false; done = none; cancelled = false }
    else ended

-- `Stop` up to its wait: it cancels the goroutine whose channel it then waits for.
unfoldable pub stop : Streamer → Streamer × Option ℕ
stop s = if not s.streaming then (s, none) else (record s { cancelled = true }, s.done)

abbrev pub Lives : List ℕ → ℕ → Type 0
Lives [] id = ⊥
Lives (x ∷ xs) id = (x ≡ id) ⊎ Lives xs id

pub data Step (s : Streamer) : Streamer → Type 0 where
  start_called : Step s (start s)
  stop_called : Step s (stop s).0
  -- A write failed or the context ended.
  run_ended : (id : ℕ) → Lives s.alive id → Step s (finish_run id s)

pub data Reach (s : Streamer) : Streamer → Type 0 where
  here : Reach s s
  next : {t v : Streamer} → Reach s t → Step t v → Reach s v

abbrev pub holder : Option ℕ → List ℕ
holder none = []
holder (some d) = d ∷ []

-- The streamer streams exactly while it holds a channel, and the only goroutine is that channel's.
pub record IsSingle (s : Streamer) : Type 0 where
  pub holds_channel : s.streaming ≡ is_some s.done
  pub one_goroutine : s.alive ≡ holder s.done

start-IsSingle : (s : Streamer) → IsSingle s → IsSingle (start s)
unfolding start
start-IsSingle s v = record {
  holds_channel = ground (arith, v.holds_channel);
  one_goroutine = ground (arith, v.holds_channel, v.one_goroutine);
}

stop-IsSingle : (s : Streamer) → IsSingle s → IsSingle (stop s).0
unfolding stop
stop-IsSingle s v = record {
  holds_channel = ground (arith, v.holds_channel);
  one_goroutine = ground (arith, v.one_goroutine);
}

finish_run_alive :
    (id : ℕ) (alive : List ℕ) (done : Option ℕ)
    → alive ≡ holder done
    → Lives alive id
    → (done ≡ some id) × (remove id alive ≡ [])
finish_run_alive id [] d e l = elim l [ ]
finish_run_alive id (x ∷ y ∷ xs) none e l = cc
finish_run_alive id (x ∷ y ∷ xs) (some d) e l = cc
finish_run_alive id (x ∷ []) none e l = cc
finish_run_alive id (x ∷ []) (some d) e (inl same) = (cc, ground arith)
finish_run_alive id (x ∷ []) (some d) e (inr l) = elim l [ ]

finish_run-IsSingle :
    (id : ℕ) (s : Streamer) → IsSingle s → Lives s.alive id → IsSingle (finish_run id s)
unfolding finish_run
finish_run-IsSingle id s v l =
    let (own, empty) = finish_run_alive id s.alive s.done v.one_goroutine l in
    record { holds_channel = ground (arith, own); one_goroutine = ground (arith, own, empty) }

Step-IsSingle : {s t : Streamer} → IsSingle s → Step s t → IsSingle t
Step-IsSingle {s} v start_called = start-IsSingle s v
Step-IsSingle {s} v stop_called = stop-IsSingle s v
Step-IsSingle {s} v (run_ended id l) = finish_run-IsSingle id s v l

-- However Start, Stop and the ends of goroutines interleave, there is at most one capture goroutine:
-- none while the streamer is idle, and while it streams the one whose channel Stop waits for.
pub Reach-IsSingle :
    (has_capture : Bool) (s : Streamer) → Reach (new_streamer has_capture) s → IsSingle s
Reach-IsSingle has_capture s here =
    unfold new_streamer in record { holds_channel = refl; one_goroutine = refl }
Reach-IsSingle has_capture s (next {t} r st) = Step-IsSingle (Reach-IsSingle has_capture t r) st

-- Once the goroutine that Stop waits for has ended, the streamer is idle and can be started again.
pub stop-finish_run :
    (s : Streamer) (id : ℕ)
    → IsSingle s
    → (stop s).1 ≡ some id
    → ((finish_run id (stop s).0).streaming ≡ false) × ((finish_run id (stop s).0).alive ≡ [])
unfolding stop finish_run
stop-finish_run s id v e = (ground arith, ground (arith, v.one_goroutine))
