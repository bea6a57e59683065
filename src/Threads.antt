-- ===== src/Threads.antt =====
-- Threads, and the cores that they run on: kernel/thread.h and kernel/thread.cc.
pub mod Places
pub mod Moves
pub mod Once
pub mod Quiet
pub mod Shutdown
mod Tests
use p.Prelude.{
  ℕ, zero, suc, ◌+◌, Bool, true, false, not, Option, none, some, List, [], ◌∷◌, ◌++◌, ltb, ◌==◌,
  if◌then◌else◌, add64, sub64,
}

-- `Action`, but `None`: that is the action of an idle thread, which stands in no queue.
pub data Action : Type 0 where
  action_ready : Action
  action_stop : Action
  action_wait : Action

-- What a core runs, with `none` for its idle thread, and between `context_switch_` and the end of
-- `post_switch` the thread that it has left, with the action of that thread.
pub record Core : Type 0 where
  pub current : Option ℕ
  pub leaving : Option (ℕ × Action)

-- `readyQueue`, `reaperQueue`, the queues of all conditions, the threads that a notification has
-- taken out of one and not yet put in `readyQueue`, and those that were deallocated; how many
-- threads were allocated, how many were counted and not yet added, and `n_active`.
pub record Threads : Type 0 where
  pub cores : ℕ → Core
  pub ready : List ℕ
  pub reaper : List ℕ
  pub waiting : List ℕ
  pub hand : List ℕ
  pub dead : List ℕ
  pub created : ℕ
  pub announced : ℕ
  pub n_active : ℕ
  pub off : Bool

pub data Event : Type 0 where
  yields : ℕ → Event
  stops : ℕ → Event
  waits : ℕ → Event
  idles : ℕ → Event
  post_switches : ℕ → Bool → Event
  notifies : ℕ → Event
  readies : ℕ → Event
  reaps : Event
  announces : Event
  adds : Event

abbrev pub put : ℕ → Core → (ℕ → Core) → ℕ → Core
put c x cores d = if d == c then x else cores d

-- `context_switch_(next)`, from the thread `me` with its action.
abbrev pub switch : ℕ → Option ℕ → Option (ℕ × Action) → Threads → Threads
switch c next left s = record s {
  cores = put c (record { current = next; leaving = left }) s.cores;
}

-- `Thread::yield`, and `Condition::wait` after the lock's release: nothing happens if no thread is
-- ready.
abbrev pub leave : ℕ → ℕ → Action → List ℕ → Threads → Threads
leave c me action [] s = s
leave c me action (next ∷ rest) s =
    switch c (some next) (some (me, action)) (record s { ready = rest })

-- `Thread::stop`: the idle thread, if no thread is ready.
abbrev pub stop : ℕ → ℕ → List ℕ → Threads → Threads
stop c me [] s = switch c none (some (me, action_stop)) s
stop c me (next ∷ rest) s =
    switch c (some next) (some (me, action_stop)) (record s { ready = rest })

-- One round of `event_loop`.
abbrev pub idle : ℕ → List ℕ → Threads → Threads
idle c [] s = s
idle c (next ∷ rest) s = switch c (some next) none (record s { ready = rest })

-- `post_switch`, by the thread that was switched to. Whether a thread that waits finds its epoch
-- is for the condition to say.
abbrev pub post_switch : ℕ → Bool → Action → Threads → Threads
post_switch t same action_ready s = record s { ready = s.ready ++ (t ∷ []) }
post_switch t same action_stop s = record s { reaper = s.reaper ++ (t ∷ []) }
post_switch t true action_wait s = record s { waiting = s.waiting ++ (t ∷ []) }
post_switch t false action_wait s = record s { ready = s.ready ++ (t ∷ []) }

abbrev pub after_switch : ℕ → Bool → Core → Threads → Option Threads
after_switch c same core s = elim core.leaving [
  | none ↦ none
  | some (t, action) ↦ some (
      post_switch t same action
        (record s { cores = put c (record core { leaving = none }) s.cores }))
]

-- A step of the thread that a core runs, or of its idle thread.
abbrev pub running : Core → (ℕ → Threads) → Option Threads
running core go = elim core.leaving [
  | some x ↦ none
  | none ↦ elim core.current [ none ↦ none | some me ↦ some (go me) ]
]

abbrev pub idling : Core → Threads → Option Threads
idling core s = elim core.leaving [
  | some x ↦ none
  | none ↦ elim core.current [ none ↦ some s | some me ↦ none ]
]

-- The thread at a place of a list, and the others.
unfoldable pub pick : ℕ → List ℕ → Option (ℕ × List ℕ)
pick i [] = none
pick zero (x ∷ xs) = some (x, xs)
pick (suc i) (x ∷ xs) = elim (pick i xs) [ none ↦ none | some (y, ys) ↦ some (y, x ∷ ys) ]

abbrev pub notify : Threads → Option (ℕ × List ℕ) → Option Threads
notify s none = none
notify s (some (t, rest)) = some (record s { waiting = rest; hand = t ∷ s.hand })

abbrev pub make_ready : Threads → Option (ℕ × List ℕ) → Option Threads
make_ready s none = none
make_ready s (some (t, rest)) = some (record s { hand = rest; ready = s.ready ++ (t ∷ []) })

-- One round of `reap`. The machine is shut down with the last thread.
abbrev pub reap : List ℕ → Threads → Threads
reap [] s = s
reap (t ∷ ts) s =
    let left = sub64 s.n_active 1 in
    record s { reaper = ts; dead = t ∷ s.dead; n_active = left; off = left == 0 }

-- `make_thread`, up to the call of `reap` and from there on.
abbrev pub announce : Threads → Threads
announce s = record s { n_active = add64 s.n_active 1; announced = s.announced + 1 }

abbrev pub add : Threads → ℕ → Option Threads
add s zero = none
add s (suc left) =
    some
      (record s { announced = left; created = s.created + 1; ready = s.ready ++ (s.created ∷ []) })

abbrev pub guard : Bool → Option Threads → Option Threads
guard b o = if b then o else none

-- One step of a core. `none`: not possible here.
unfoldable pub step : ℕ → Event → Threads → Option Threads
step n (yields c) s =
    guard (ltb c n) (running (s.cores c) (λ me. leave c me action_ready s.ready s))
step n (waits c) s = guard (ltb c n) (running (s.cores c) (λ me. leave c me action_wait s.ready s))
step n (stops c) s = guard (ltb c n) (running (s.cores c) (λ me. stop c me s.ready s))
step n (idles c) s = guard (ltb c n) (idling (s.cores c) (idle c s.ready s))
step n (post_switches c same) s = guard (ltb c n) (after_switch c same (s.cores c) s)
step n (notifies i) s = notify s (pick i s.waiting)
step n (readies i) s = make_ready s (pick i s.hand)
step n reaps s = some (reap s.reaper s)
step n announces s = some (announce s)
step n adds s = add s s.announced

unfoldable pub run : ℕ → List Event → Threads → Option Threads
run n [] s = some s
run n (e ∷ es) s = elim (guard (not s.off) (step n e s)) [ none ↦ none | some s' ↦ run n es s' ]

abbrev pub start : Threads
start = record {
  cores = λ c. record { current = none; leaving = none };
  ready = [];
  reaper = [];
  waiting = [];
  hand = [];
  dead = [];
  created = 0;
  announced = 0;
  n_active = 0;
  off = false;
}
