-- ===== src/Syscall/Process/Entries.antt =====
-- What `fork`, `exit` and the rounds of `waitpid` do to the entries of the process table.
use p.Prelude.{
  ℕ, zero, suc, ◌≤◌, ◌<◌, ◌≡◌, refl, sym, ap, ◌∙◌, subst, ◌≢◌, ◌↔◌, ◌⊎◌, inl, inr, true, false,
  ◌&&◌, Option, none, some, List, [], ◌∷◌, arith, dec_lt, ltb, Bool-cases, length, get_or, set,
  length-set, get_or-set_self, get_or-set_ne,
}
use p.Syscall.Word.{failed, int_of}
use p.Syscall.Process.{
  Entry, vacant, started, Processes, entry, max_processes, init_table, allocate_pid, enter_child,
  fork_entry, exit_entry, refused, reaped, again, wait_turn,
}
use p.Syscall.Process.Alloc.{InRange, allocate_pid_lem}

-- The table is set up.
pub record Ready (ps : Processes) : Type 0 where
  pub set_up : ps.initialized ≡ true
  pub size : length ps.table ≡ max_processes
  pub next : InRange ps.next_pid

pub init_table-Ready : (ps : Processes) → Ready ps → init_table ps ≡ ps
unfolding init_table
init_table-Ready ps r = ground (arith, r.set_up)

module _ (p : ℕ) (ps : Processes) (r : Ready ps) where
  -- The two outcomes of `fork` on a table that is set up.
  pub data Forked (o : ℕ × Processes) : Type 0 where
    no_room : (next : ℕ) → InRange next → o ≡ (failed, record ps { next_pid = next }) → Forked o
    made :
        (c next : ℕ)
        → InRange next
        → InRange c
        → (entry ps c).used ≡ false
        → o ≡ (c, record ps { next_pid = next; table = set ps.table c (started p) })
        → Forked o

  enter_child-Forked :
      (o : Option ℕ) (next : ℕ)
      → InRange next
      → ((pid : ℕ) → o ≡ some pid → InRange pid × ((entry ps pid).used ≡ false))
      → Forked (enter_child p (o, record ps { next_pid = next }))
  enter_child-Forked none next n h = no_room next n refl
  enter_child-Forked (some c) next n h = made c next n (h c refl).0 (h c refl).1 refl

  pub fork-Forked : Forked (fork_entry p ps)
  unfolding fork_entry
  fork-Forked = rw (init_table-Ready ps r) (
      subst (λ t. Forked (enter_child p ((allocate_pid ps).0, t))) (sym a.3)
        (enter_child-Forked (allocate_pid ps).0 (allocate_pid ps).1.next_pid a.2 a.0))
    where
      a :
          let (o, ps') = allocate_pid ps in
          ((pid : ℕ) → o ≡ some pid → InRange pid × ((entry ps pid).used ≡ false))
          × ((o ≡ none) ↔ ((pid : ℕ) → InRange pid → (entry ps pid).used ≡ true))
          × InRange ps'.next_pid
          × (ps' ≡ record ps { next_pid = ps'.next_pid })
      a = allocate_pid_lem ps r.next

-- A table with one entry written, below the size.
pub entry-set_self :
    (ps : Processes) (pid next : ℕ) (e : Entry)
    → Ready ps
    → pid < max_processes
    → entry (record ps { next_pid = next; table = set ps.table pid e }) pid ≡ e
entry-set_self ps pid next e r lt = get_or-set_self ps.table pid e vacant (omega (arith, r.size))

pub entry-set_ne :
    (ps : Processes) (pid other next : ℕ) (e : Entry)
    → other ≢ pid
    → entry (record ps { next_pid = next; table = set ps.table pid e }) other ≡ entry ps other
entry-set_ne ps pid other next e ne = get_or-set_ne ps.table pid other e vacant (λ q. ne (sym q))

pub Ready-set :
    (ps : Processes) (pid next : ℕ) (e : Entry)
    → Ready ps
    → InRange next
    → Ready (record ps { next_pid = next; table = set ps.table pid e })
Ready-set ps pid next e r n = record {
  set_up = r.set_up;
  size = length-set ps.table pid e ∙ r.size;
  next = n;
}

-- An entry in use is not out of range.
pub used-lt :
    (ps : Processes) (pid : ℕ) → Ready ps → (entry ps pid).used ≡ true → pid < max_processes
used-lt ps pid r u = elim (dec_lt pid max_processes) [
  | yes lt ↦ lt
  | no ge ↦ cc (get_or-past ps.table pid (omega (arith, r.size)), u)
]
  where
    get_or-past : (t : List Entry) (i : ℕ) → length t ≤ i → (get_or t i vacant).used ≡ false
    get_or-past [] i le = refl
    get_or-past (x ∷ t) zero le = absurd (omega arith)
    get_or-past (x ∷ t) (suc i) le = get_or-past t i (omega arith)

-- What an event does to an entry in use that is not its own, and to the table's set-up.
pub record Kept (c : ℕ) (ps ps' : Processes) : Type 0 where
  pub ready : Ready ps'
  pub same : entry ps' c ≡ entry ps c

module _ (c : ℕ) (ps : Processes) (r : Ready ps) (u : (entry ps c).used ≡ true) where
  pub fork-Kept : (p : ℕ) → Kept c ps (fork_entry p ps).1
  fork-Kept p = elim (fork-Forked p ps r) [
    | no_room next n e ↦
        rw e (record { ready = record { set_up = r.set_up; size = r.size; next = n }; same = refl })
    | made d next n d_in free e ↦ rw e (record {
      ready = Ready-set ps d next (started p) r n;
      same = entry-set_ne ps d c next (started p) (λ q. cc (ap (λ i. (entry ps i).used) q));
    })
  ]

  pub exit-Kept : (p rdi : ℕ) → p ≢ c → Kept c ps (exit_entry p rdi ps)
  unfolding exit_entry
  exit-Kept p rdi ne =
      rw (init_table-Ready ps r)
        (elim (Bool-cases (ltb 0 p && ltb p max_processes && (entry ps p).used)) [
          | inl e ↦ rw e (record {
            ready =
                Ready-set ps p ps.next_pid
                  (record (entry ps p) { exited = true; status = int_of rdi }) r r.next;
            same =
                entry-set_ne ps p c ps.next_pid
                  (record (entry ps p) { exited = true; status = int_of rdi }) (λ q. ne (sym q));
          })
          | inr e ↦ rw e (record { ready = r; same = refl })
        ])

  pub exit_entry_self :
      (rdi : ℕ)
      → 0 < c
      → exit_entry c rdi ps ≡ record ps {
        table = set ps.table c (record (entry ps c) { exited = true; status = int_of rdi });
      }
  unfolding exit_entry
  exit_entry_self rdi pos =
      let e : (ltb 0 c && ltb c max_processes && (entry ps c).used) ≡ true =
        ground (arith, used-lt ps c r u) in
      rw (init_table-Ready ps r, e)

  -- The child's own exit.
  pub record Exited (rdi : ℕ) (ps' : Processes) : Type 0 where
    pub ready : Ready ps'
    pub result : entry ps' c ≡ record (entry ps c) { exited = true; status = int_of rdi }

  pub exit-Exited : (rdi : ℕ) → 0 < c → Exited rdi (exit_entry c rdi ps)
  exit-Exited rdi pos =
      let e = record (entry ps c) { exited = true; status = int_of rdi } in
      rw (exit_entry_self rdi pos) (record {
        ready = Ready-set ps c ps.next_pid e r r.next;
        result = entry-set_self ps c ps.next_pid e r (used-lt ps c r u);
      })

module _ (p c : ℕ) (ps : Processes) (r : Ready ps) where
  pub wait-refused :
      ((entry ps c).used ≡ false) ⊎ ((entry ps c).parent ≢ p) → wait_turn p c ps ≡ (refused, ps)
  unfolding wait_turn
  wait-refused h = rw (init_table-Ready ps r) (ground arith)

  pub wait-again :
      (entry ps c).used ≡ true
      → (entry ps c).parent ≡ p
      → (entry ps c).exited ≡ false
      → wait_turn p c ps ≡ (again, ps)
  unfolding wait_turn
  wait-again a b e = rw (init_table-Ready ps r) (ground arith)

  abbrev pub collected : Processes
  collected = record ps { table = set ps.table c (record (entry ps c) { used = false }) }

  pub wait-reaped :
      (entry ps c).used ≡ true
      → (entry ps c).parent ≡ p
      → (entry ps c).exited ≡ true
      → wait_turn p c ps ≡ (reaped (entry ps c).status, collected)
  unfolding wait_turn
  wait-reaped a b e = rw (init_table-Ready ps r) (ground arith)

  -- A round of `waitpid` returns in one of the three ways.
  wait-cases :
      (wait_turn p c ps).1 ≡ ps
      ⊎ (((entry ps c).used ≡ true)
          × ((entry ps c).parent ≡ p)
          × ((entry ps c).exited ≡ true)
          × ((wait_turn p c ps).1 ≡ collected))
  unfolding wait_turn
  wait-cases = rw (init_table-Ready ps r) (ground arith)

pub wait-Kept :
    (p x c : ℕ) (ps : Processes)
    → Ready ps
    → (x ≢ c) ⊎ ((entry ps c).parent ≢ p) ⊎ ((entry ps c).exited ≡ false)
    → Kept c ps (wait_turn p x ps).1
wait-Kept p x c ps r h = elim (wait-cases p x ps r) [
  | inl e ↦ rw e (record { ready = r; same = refl })
  | inr (u, of_p, gone, e) ↦
      let v = record (entry ps x) { used = false } in
      rw e (record {
        ready = Ready-set ps x ps.next_pid v r r.next;
        same =
            entry-set_ne ps x c ps.next_pid v (λ q.
              ground (arith, ap (λ i. (entry ps i).parent) q, ap (λ i. (entry ps i).exited) q));
      })
]
