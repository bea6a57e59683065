-- ===== src/Syscall/Fd/Allocate.antt =====
-- Which descriptor `open` hands out.
use p.Prelude.{
  ℕ, zero, suc, ◌+◌, ◌-◌, ◌≤◌, ◌<◌, ◌≡◌, refl, sym, ap, ◌∙◌, ◌≢◌, ◌⊎◌, inl, inr, Bool, true, false,
  Option, none, some, List, [], ◌∷◌, arith, Bool-cases, length, get_or, drop, length-set,
  length-drop, get_or-set_self, get_or-set_ne,
}
use p.Syscall.Word.{failed}
use p.Syscall.Fd.{Fd, closed, FdTable, at, max_fds, init_fd_table, find_free, opened, allocate_fd}

pub record Ready (t : FdTable) : Type 0 where
  pub set_up : t.initialized ≡ true
  pub size : length t.fds ≡ max_fds

pub init_fd_table-Ready : (t : FdTable) → Ready t → init_fd_table t ≡ t
unfolding init_fd_table
init_fd_table-Ready t r = ground (arith, r.set_up)

abbrev used_at : List Fd → ℕ → Bool
used_at ds i = (get_or ds i closed).used

abbrev Lowest : ℕ → List Fd → ℕ → Type 0
Lowest i ds k =
    (d : ℕ) × (k ≡ i + d)
    × (d < length ds)
    × (used_at ds d ≡ false)
    × ((j : ℕ) → j < d → used_at ds j ≡ true)

find_free-some : (i k : ℕ) (ds : List Fd) → find_free i ds ≡ some k → Lowest i ds k
unfolding find_free
find_free-some i k [] h = cc
find_free-some i k (d ∷ ds) h = elim (Bool-cases d.used) [
  | inr e ↦ (0, ground arith, omega arith, e, λ j lt. absurd (omega arith))
  | inl e ↦
      let (n, place, lt, free, below) = find_free-some (i + 1) k ds (ground arith) in
      (suc n, omega arith, omega arith, free, all_below d ds n e below)
]
  where
    all_below :
        (d : Fd) (ds : List Fd) (n : ℕ)
        → d.used ≡ true
        → ((j : ℕ) → j < n → used_at ds j ≡ true)
        → (j : ℕ) → j < suc n
        → used_at (d ∷ ds) j ≡ true
    all_below d ds n e below zero lt = e
    all_below d ds n e below (suc j) lt = below j (omega arith)

find_free-none :
    (i j : ℕ) (ds : List Fd) → find_free i ds ≡ none → j < length ds → used_at ds j ≡ true
unfolding find_free
find_free-none i j [] h lt = absurd (omega arith)
find_free-none i zero (d ∷ ds) h lt = ground arith
find_free-none i (suc j) (d ∷ ds) h lt = ground (arith, find_free-none (i + 1) j ds)

get_or-drop : (n j : ℕ) (ds : List Fd) → get_or (drop n ds) j closed ≡ get_or ds (n + j) closed
get_or-drop n j ds = sum n j (n + j) ds refl
  where
    sum : (n j k : ℕ) (ds : List Fd) → k ≡ n + j → get_or (drop n ds) j closed ≡ get_or ds k closed
    sum zero j k ds e = ap (λ i. get_or ds i closed) (omega arith)
    sum (suc n) j zero ds e = absurd (omega arith)
    sum (suc n) j (suc k) [] e = refl
    sum (suc n) j (suc k) (d ∷ ds) e = sum n j k ds (omega arith)

abbrev new_fd : ℕ → Fd
new_fd inode = record { used = true; inode = inode; offset = 0 }

-- What `allocate_fd` did: the lowest free descriptor from 3 on, at the start of the file.
pub record Opened (inode : ℕ) (t : FdTable) (fd : ℕ) (t' : FdTable) : Type 0 where
  pub above : 3 ≤ fd
  pub in_table : fd < max_fds
  pub was_free : (at t fd).used ≡ false
  pub lowest : (j : ℕ) → 3 ≤ j → j < fd → (at t j).used ≡ true
  pub here : at t' fd ≡ record { used = true; inode = inode; offset = 0 }
  pub others : (j : ℕ) → j ≢ fd → at t' j ≡ at t j
  pub ready : Ready t'

-- On a table that is set up, `allocate_fd` opens the i-node at the lowest free descriptor from 3
-- on, at offset 0, and leaves the others; or it fails and changes nothing, and then the
-- descriptors from 3 to 31 are all in use.
pub allocate_fd-Opened :
    (inode : ℕ) (t : FdTable)
    → Ready t
    → let (fd, t') = allocate_fd inode t in
      Opened inode t fd t'
      ⊎ ((fd ≡ failed) × (t' ≡ t) × ((j : ℕ) → 3 ≤ j → j < max_fds → (at t j).used ≡ true))
unfolding allocate_fd
allocate_fd-Opened inode t r =
    rw (init_fd_table-Ready t r) (by_case (find_free 3 (drop 3 t.fds)) refl)
  where
    place : (j : ℕ) → 3 ≤ j → (get_or (drop 3 t.fds) (j - 3) closed).used ≡ (at t j).used
    place j le =
        ap (λ (d : Fd). d.used)
          (get_or-drop 3 (j - 3) t.fds ∙ ap (λ i. get_or t.fds i closed) (omega arith))

    by_case :
        (o : Option ℕ)
        → find_free 3 (drop 3 t.fds) ≡ o
        → let (fd, t') = opened inode t o in
          Opened inode t fd t'
          ⊎ ((fd ≡ failed) × (t' ≡ t) × ((j : ℕ) → 3 ≤ j → j < max_fds → (at t j).used ≡ true))
    by_case none e = inr (
      refl,
      refl,
      λ j le lt.
          sym (place j le)
          ∙ find_free-none 3 (j - 3) (drop 3 t.fds) e (omega (arith, length-drop 3 t.fds, r.size)),
    )
    by_case (some k) e =
        let (d, at_d, lt, free, below) = find_free-some 3 k (drop 3 t.fds) e in
        let small : k < max_fds = omega (arith, length-drop 3 t.fds, r.size) in
        inl (record {
          above = omega arith;
          in_table = small;
          was_free =
              sym (place k (omega arith))
              ∙ ap (λ i. used_at (drop 3 t.fds) i) {x = k - 3} {y = d} (omega arith)
              ∙ free;
          lowest = λ j le lt'. sym (place j le) ∙ below (j - 3) (omega arith);
          here = get_or-set_self t.fds k (new_fd inode) closed (omega (arith, r.size));
          others = λ j ne. get_or-set_ne t.fds k j (new_fd inode) closed (λ q. ne (sym q));
          ready = record { set_up = r.set_up; size = length-set t.fds k (new_fd inode) ∙ r.size };
        })
