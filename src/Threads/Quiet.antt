-- ===== src/Threads/Quiet.antt =====
-- The steps of kernel/thread.cc that make no thread and end none.
use p.Prelude.{ℕ, ◌≡◌, refl, Bool, true, false, Option, none, some, List, [], ◌∷◌}
use p.Threads.{
  Action, action_ready, action_stop, action_wait, Core, Threads, leave, stop, idle, after_switch,
  running, idling, notify, make_ready, guard,
}

-- What a step that makes and ends no thread leaves as it is.
abbrev pub Quiet : Threads → Threads → Type 0
Quiet s s' =
    (s'.n_active ≡ s.n_active)
    × (s'.dead ≡ s.dead)
    × (s'.created ≡ s.created)
    × (s'.announced ≡ s.announced)
    × (s'.off ≡ s.off)

abbrev pub Quiets : Threads → Option Threads → Type 0
Quiets s none = Unit {0}
Quiets s (some s') = Quiet s s'

still : (s : Threads) → Quiet s s
still s = (refl, refl, refl, refl, refl)

pub leave-Quiet :
    (c me : ℕ) (action : Action) (rs : List ℕ) (s : Threads) → Quiet s (leave c me action rs s)
leave-Quiet c me action [] s = still s
leave-Quiet c me action (next ∷ rest) s = still s

pub stop-Quiet : (c me : ℕ) (rs : List ℕ) (s : Threads) → Quiet s (stop c me rs s)
stop-Quiet c me [] s = still s
stop-Quiet c me (next ∷ rest) s = still s

pub idle-Quiet : (c : ℕ) (rs : List ℕ) (s : Threads) → Quiet s (idle c rs s)
idle-Quiet c [] s = still s
idle-Quiet c (next ∷ rest) s = still s

pub running-Quiet :
    (core : Core) (go : ℕ → Threads) (s : Threads)
    → ((me : ℕ) → Quiet s (go me))
    → Quiets s (running core go)
running-Quiet core go s h = by_core core.leaving core.current
  where
    by_core :
        (leaving : Option (ℕ × Action)) (current : Option ℕ)
        → Quiets s (running (record { current = current; leaving = leaving }) go)
    by_core (some x) current = tt
    by_core none none = tt
    by_core none (some me) = h me

pub idling-Quiet : (core : Core) (s s' : Threads) → Quiet s s' → Quiets s (idling core s')
idling-Quiet core s s' h = by_core core.leaving core.current
  where
    by_core :
        (leaving : Option (ℕ × Action)) (current : Option ℕ)
        → Quiets s (idling (record { current = current; leaving = leaving }) s')
    by_core (some x) current = tt
    by_core none none = h
    by_core none (some me) = tt

pub after_switch-Quiet :
    (c : ℕ) (same : Bool) (core : Core) (s : Threads) → Quiets s (after_switch c same core s)
after_switch-Quiet c same core s = by_core core.leaving same
  where
    by_core :
        (leaving : Option (ℕ × Action)) (same : Bool)
        → Quiets s (after_switch c same (record core { leaving = leaving }) s)
    by_core none same = tt
    by_core (some (t, action_ready)) same = still s
    by_core (some (t, action_stop)) same = still s
    by_core (some (t, action_wait)) true = still s
    by_core (some (t, action_wait)) false = still s

pub notify-Quiet : (s : Threads) (o : Option (ℕ × List ℕ)) → Quiets s (notify s o)
notify-Quiet s none = tt
notify-Quiet s (some (t, rest)) = still s

pub make_ready-Quiet : (s : Threads) (o : Option (ℕ × List ℕ)) → Quiets s (make_ready s o)
make_ready-Quiet s none = tt
make_ready-Quiet s (some (t, rest)) = still s

pub guard-Quiet : (s : Threads) (b : Bool) (o : Option Threads) → Quiets s o → Quiets s (guard b o)
guard-Quiet s true o h = h
guard-Quiet s false o h = tt
