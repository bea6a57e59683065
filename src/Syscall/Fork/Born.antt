-- ===== src/Syscall/Fork/Born.antt =====
-- The child of a `fork` of kernel/syscall.cc.
use p.Prelude.{
  ℕ, ◌+◌, ◌*◌, ◌/◌, ◌%◌, ◌^◌, ◌<◌, ◌≡◌, refl, sym, ap, ◌∙◌, subst, ◌↔◌, inl, inr, true, false, not,
  ◌||◌, ◌&&◌, Option, none, some, List, [], ◌∷◌, ◌++◌, arith, ltb, ◌==◌, take, drop, set,
  Option-cases,
}
use mathlib.Core.Option.{some_inj}
use p.Vmm.Mmap.{Maps}
use p.Vmm.PageTable.{Mmu, translate, translate_at}
use p.Vmm.PageTable.Whole.{snapshot_tables}
use p.Vmm.PageTable.Whole.Copied.{Given}
use p.Vmm.PageTable.Whole.Snapshot.{Apart, Twin}
use p.Vmm.PageTable.Whole.Forked.{snapshot_tables-isolates, snapshot_tables-small}
use p.Vmm.Fork.{
  state_of, snapshot_for_fork, install_fork_state, install-snapshot, snapshot_for_fork-some,
}
use p.Syscall.Word.{is_negative}
use p.Syscall.Process.{
  Processes, entry, started, max_processes, allocate_pid, enter_child, ensure_pid, fork_entry,
}
use p.Syscall.Process.Alloc.{InRange, allocate_pid_lem}
use p.Syscall.Process.Entries.{
  Ready, Forked, no_room, made, fork-Forked, init_table-Ready, entry-set_self,
}
use p.Syscall.Fork.{Child, Kernel, child_of, fork_from, fork, start_child}

-- A child that is made: `maps` is what the variables of vmm.cc hold for its thread at first, and `v`
-- any page of the lower half.
pub record Born (my_pid rsp : ℕ) (frame : List ℕ) (maps : Maps) (v : ℕ) (k : Kernel) (r : ℕ)
    (k' : Kernel) : Type 0 where
  pub child : Child
  pub queued : k'.ready ≡ k.ready ++ child ∷ []
  pub named : child.pid ≡ r
  pub in_range : InRange r
  pub unused : (entry k.processes r).used ≡ false
  pub entered : entry k'.processes r ≡ started my_pid
  pub registers : (start_child child maps k'.mmu).registers ≡ 0 ∷ drop 1 (take 15 frame)
  pub stack_pointer : (start_child child maps k'.mmu).rsp ≡ rsp
  pub mappings :
      (start_child child maps k'.mmu).maps ≡ record k.maps { shared_vmes = maps.shared_vmes }
  pub pages :
      Twin
        (Given k.mmu k'.mmu)
        k'.mmu
        (translate v k.mmu)
        (translate v (start_child child maps k'.mmu).mmu)
  pub parent_maps : k'.maps ≡ k.maps
  pub parent_pages : translate v k'.mmu ≡ translate v k.mmu

room :
    (p c : ℕ) (ps : Processes)
    → Ready ps
    → InRange c
    → (entry ps c).used ≡ false
    → (fork_entry p ps).0 < max_processes
unfolding fork_entry
room p c ps r h free = rw (init_table-Ready ps r) (by_case (allocate_pid ps) refl)
  where
    a :
        let (o, ps') = allocate_pid ps in
        ((pid : ℕ) → o ≡ some pid → InRange pid × ((entry ps pid).used ≡ false))
        × ((o ≡ none) ↔ ((pid : ℕ) → InRange pid → (entry ps pid).used ≡ true))
        × InRange ps'.next_pid
        × (ps' ≡ record ps { next_pid = ps'.next_pid })
    a = allocate_pid_lem ps r.next

    by_case : (o : Option ℕ × Processes) → allocate_pid ps ≡ o → (enter_child p o).0 < max_processes
    by_case (none, ps') e = absurd (cc (a.1.0 (ap (λ x. x.0) e) c h, free))
    by_case (some pid, ps') e = (a.0 pid (ap (λ x. x.0) e)).0.1

pub known_pid : (pid : ℕ) (ps : Processes) → 0 < pid → pid < 2 ^ 31 → ensure_pid pid ps ≡ (pid, ps)
unfolding ensure_pid
known_pid pid ps pos lt =
    let e : (ltb 0 pid && not (is_negative pid)) ≡ true = ground arith in rw e refl

fork-shut :
    (ep pid rsp : ℕ) (frame : List ℕ) (k : Kernel)
    → 0 < pid
    → pid < 2 ^ 31
    → fork ep pid rsp frame k ≡ (pid, fork_from ep pid rsp frame k (snapshot_for_fork k.maps k.mmu))
unfolding fork
fork-shut ep pid rsp frame k pos lt =
    let e : ((pid == 0) || is_negative pid) ≡ false = ground arith in
    rw (known_pid pid k.processes pos lt) (rw e refl)

address-table : (table : ℕ) → table < 2 ^ 40 → table * 2 ^ 12 % 2 ^ 64 / 2 ^ 12 ≡ table
address-table table lt = omega arith

module _ (ep pid rsp c₀ v : ℕ) (frame : List ℕ) (maps : Maps) (k : Kernel)
    (ready : Ready k.processes) (vacancy : InRange c₀) (free : (entry k.processes c₀).used ≡ false)
    (apart : Apart k.mmu) (lower : v < 2 ^ 35) where
  child_made :
      (table : ℕ) (m : Mmu)
      → snapshot_tables k.mmu ≡ some (table, m)
      → (c next : ℕ) → InRange c
      → (entry k.processes c).used ≡ false
      → Born pid rsp frame maps v k c (record k {
        mmu = m;
        processes = record k.processes {
          next_pid = next;
          table = set k.processes.table c (started pid);
        };
        n_active = (k.n_active + 1) % 2 ^ 64;
        ready = k.ready ++ child_of ep c rsp frame (state_of table k.maps) ∷ [];
      })
  unfolding start_child install_fork_state
  child_made table m q c next h unused =
      let (parent, twin, other) =
        snapshot_tables-isolates k.mmu table m v k.mmu.cr3 0 apart q lower apart.top in
      record {
        child = child_of ep c rsp frame (state_of table k.maps);
        queued = refl;
        named = refl;
        in_range = h;
        unused = unused;
        entered = entry-set_self k.processes c next (started pid) ready h.1;
        registers = refl;
        stack_pointer = refl;
        mappings = install-snapshot table k.maps maps;
        pages =
            subst (λ t. Twin (Given k.mmu m) m (translate v k.mmu) (translate_at 3 t v m))
              (sym (address-table table (snapshot_tables-small k.mmu table m apart q))) twin;
        parent_maps = refl;
        parent_pages = parent;
      }

  born :
      (table : ℕ) (m : Mmu) (r : ℕ) (k' : Kernel)
      → snapshot_tables k.mmu ≡ some (table, m)
      → fork_from ep pid rsp frame k (some (state_of table k.maps, m)) ≡ some (r, k')
      → Born pid rsp frame maps v k r k'
  born table m r k' q e = of (fork_entry pid k.processes) refl (fork-Forked pid k.processes ready)
    where
      of :
          (o : ℕ × Processes)
          → fork_entry pid k.processes ≡ o
          → Forked pid k.processes ready o
          → Born pid rsp frame maps v k r k'
      of o eq (no_room next n full) = absurd (
          omega (
            arith,
            room pid c₀ k.processes ready vacancy free,
            ap (λ (x : ℕ × Processes). x.0) (eq ∙ full),
          ))
      of o eq (made c next n h unused here) =
          let small : is_negative c ≡ false = ground arith in
          subst (λ (y : ℕ × Kernel). Born pid rsp frame maps v k y.0 y.1)
            (some_inj.0 (rw small at (rw (eq ∙ here) at e))) (child_made table m q c next h unused)

-- A `fork` that the kernel does not stop, by a process with a pid, on a process table that is set up
-- and has a pid left, and with the tables and pages of the lower half in frames that the allocator
-- does not hold: it returns a pid that was not in use and is now that of a child of the caller. The
-- one thread that it makes ready starts with 0 in rax and the other registers and the stack pointer
-- of the caller, and with the caller's mappings and heap. It translates a page of the lower half
-- exactly if the caller does, with the same flags, to a frame given for it that has the same words.
-- The caller keeps its mappings and its translations.
pub fork-Born :
    (ep pid rsp : ℕ) (frame : List ℕ) (maps : Maps) (c v : ℕ) (k : Kernel) (r : ℕ) (k' : Kernel)
    → 0 < pid
    → pid < 2 ^ 31
    → Ready k.processes
    → InRange c
    → (entry k.processes c).used ≡ false
    → Apart k.mmu
    → v < 2 ^ 35
    → (fork ep pid rsp frame k).1 ≡ some (r, k')
    → Born pid rsp frame maps v k r k'
fork-Born ep pid rsp frame maps c v k r k' pos small ready vacancy free apart lower e =
    elim (Option-cases (snapshot_for_fork k.maps k.mmu)) [
      | inl q ↦ absurd (cc (rw q at shut))
      | inr ((f, m), q) ↦
          let (table, taken, same) = snapshot_for_fork-some k.maps k.mmu m f q in
          born ep pid rsp c v frame maps k ready vacancy free apart lower table m r k' taken
            (ap (λ g. fork_from ep pid rsp frame k (some (g, m))) (sym same) ∙ rw q at shut)
    ]
  where
    shut : fork_from ep pid rsp frame k (snapshot_for_fork k.maps k.mmu) ≡ some (r, k')
    shut =
        ap (λ (x : ℕ × Option (ℕ × Kernel)). x.1) (sym (fork-shut ep pid rsp frame k pos small)) ∙ e
