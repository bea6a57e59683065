-- ===== src/Sync/SpinLock.antt =====
-- The spin lock of kernel/spin_lock.h and kernel/spin_lock.cc, with the interrupt flags of the
-- cores that take it.
pub mod Kept
use p.Prelude.{
  ℕ, ◌≡◌, Bool, true, false, ◌||◌, not, Option, none, some, List, [], ◌∷◌, ◌==◌, if◌then◌else◌,
}

-- `SpinLock`, without its statistics.
pub record SpinLock : Type 0 where
  pub taken : Bool
  pub was_disabled : Bool

-- The lock, whether interrupts are disabled on each core, and `was` of each core that is in
-- `unlock` between `taken.set(false)` and `restore(was)`.
pub record Cores : Type 0 where
  pub lock : SpinLock
  pub disabled : ℕ → Bool
  pub left : ℕ → Option Bool

abbrev pub put : {A : Type 0} → ℕ → A → (ℕ → A) → ℕ → A
put c x f d = if d == c then x else f d

-- `tryLock`, by the value that the exchange gave: whether it got the lock.
abbrev pub exchanged : Bool → ℕ → Cores → Bool × Cores
exchanged true c s =
    let was = s.disabled c in (false, record s { disabled = put c was (put c true s.disabled) })
exchanged false c s =
    let was = s.disabled c in
    (
      true,
      record s {
        lock = record { taken = true; was_disabled = was };
        disabled = put c true s.disabled;
      },
    )

unfoldable pub try_lock : ℕ → Cores → Bool × Cores
try_lock c s = exchanged s.lock.taken c s

-- `unlock` on a core, up to `taken.set(false)`, and its `restore(was)`. Another core can take the
-- lock between the two.
unfoldable pub set_free : ℕ → Cores → Cores
set_free c s = record s {
  lock = record (s.lock) { taken = false };
  left = put c (some s.lock.was_disabled) s.left;
}

abbrev pub restored : ℕ → Option Bool → Cores → Cores
restored c none s = s
restored c (some was) s = record s { disabled = put c was s.disabled; left = put c none s.left }

unfoldable pub restore : ℕ → Cores → Cores
restore c s = restored c (s.left c) s

-- A core tries to get the lock, does the one and the other part of `unlock`, and disables or enables
-- its interrupts.
pub data Event : Type 0 where
  tries : ℕ → Event
  frees : ℕ → Event
  restores : ℕ → Event
  sets : ℕ → Bool → Event

unfoldable pub step : Event → Cores → Cores
unfolding try_lock set_free restore
step (tries c) s = (try_lock c s).1
step (frees c) s = set_free c s
step (restores c) s = restore c s
step (sets c b) s = record s { disabled = put c b s.disabled }

unfoldable pub run : List Event → Cores → Cores
run [] s = s
run (e ∷ es) s = run es (step e s)

-- What a lock is to be: the core that has it, the cores that have given it back and are not yet
-- through with it, and the flag that each core has chosen outside of the lock.
pub record Promise : Type 0 where
  pub holder : Option ℕ
  pub going : ℕ → Bool
  pub chosen : ℕ → Bool

abbrev pub has : ℕ → Option ℕ → Bool
has c none = false
has c (some d) = c == d

abbrev pub is_free : Option ℕ → Bool
is_free none = true
is_free (some d) = false

abbrev pub first : ℕ → Option ℕ → Option ℕ
first c none = some c
first c (some d) = some d

-- A free lock goes to the core that tries, only the core that has it gives it back, and a core that
-- has it, or is not yet through with it, does not touch its flag. `none`: the event is not allowed.
unfoldable pub promised : Event → Promise → Option Promise
promised (tries c) a = if a.going c then none else some (record a { holder = first c a.holder })
promised (frees c) a =
    if has c a.holder then some (record a { holder = none; going = put c true a.going }) else none
promised (restores c) a =
    if a.going c then some (record a { going = put c false a.going }) else none
promised (sets c b) a =
    if has c a.holder || a.going c then none else some (record a { chosen = put c b a.chosen })

unfoldable pub promised_run : List Event → Promise → Option Promise
promised_run [] a = some a
promised_run (e ∷ es) a = elim (promised e a) [ none ↦ none | some a' ↦ promised_run es a' ]

-- The lock is taken when a core has it and keeps the flag that this core has chosen. The
-- interrupts of a core are disabled if it has the lock or is not yet through with it, and are else
-- as it has chosen.
pub record Represents (a : Promise) (s : Cores) : Type 0 where
  pub taken : s.lock.taken ≡ not (is_free a.holder)
  pub kept : (c : ℕ) → has c a.holder ≡ true → s.lock.was_disabled ≡ a.chosen c
  pub apart : (c : ℕ) → has c a.holder ≡ true → a.going c ≡ false
  pub local : (c : ℕ) → s.left c ≡ (if a.going c then some (a.chosen c) else none)
  pub flags : (c : ℕ) → s.disabled c ≡ (has c a.holder || a.going c || a.chosen c)
