-- ===== src/Syscall/Process/Life.antt =====
-- The life of a child: made by `fork`, ended by its `exit`, collected by its parent's `waitpid`,
-- while other processes go on.
use p.Prelude.{
  ℕ, ◌<◌, ◌≡◌, refl, sym, ap, ◌∙◌, ◌≢◌, inl, inr, Bool, true, false, not, ◌&&◌, List, [], ◌∷◌,
  arith, ◌==◌,
}
use p.Syscall.Word.{failed, int_of}
use p.Syscall.Process.{
  Wait, Entry, Processes, entry, started, fork_entry, exit_entry, refused, reaped, again, wait_turn,
}
use p.Syscall.Process.Entries.{
  Ready, no_room, made, fork-Forked, Kept, fork-Kept, exit-Kept, Exited, exit-Exited, wait-Kept,
  wait-refused, wait-again, wait-reaped, collected, Ready-set, entry-set_self, used-lt,
}

-- What a process with a pid can do to the table; a `waitpid` counts once for each round.
pub data Event : Type 0 where
  forks : ℕ → Event
  exits : ℕ → ℕ → Event
  waits : ℕ → ℕ → Event

unfoldable pub step : Event → Processes → Processes
step (forks p) ps = (fork_entry p ps).1
step (exits p rdi) ps = exit_entry p rdi ps
step (waits p child) ps = (wait_turn p child ps).1

unfoldable pub run : List Event → Processes → Processes
run [] ps = ps
run (e ∷ es) ps = run es (step e ps)

-- The event does not end the child, and does not collect it.
abbrev pub spares : ℕ → ℕ → Event → Bool
spares child parent (forks p) = true
spares child parent (exits p rdi) = not (p == child)
spares child parent (waits p c) = not (c == child && p == parent)

-- The event does not end the child.
abbrev pub lets_live : ℕ → Event → Bool
lets_live child (forks p) = true
lets_live child (exits p rdi) = not (p == child)
lets_live child (waits p c) = true

abbrev pub All : (Event → Bool) → List Event → Type 0
All test [] = Unit {0}
All test (e ∷ es) = (test e ≡ true) × All test es

-- A process that has exited and is not yet collected.
abbrev pub zombie : ℕ → ℕ → Entry
zombie parent status = record { used = true; parent = parent; exited = true; status = status }

-- Events that let a child be leave its entry as it is.
module _ (c parent : ℕ) where
  step-Kept_live :
      (e : Event) (ps : Processes)
      → Ready ps
      → (entry ps c).used ≡ true
      → (entry ps c).exited ≡ false
      → lets_live c e ≡ true
      → Kept c ps (step e ps)
  unfolding step
  step-Kept_live (forks p) ps r u live ok = fork-Kept c ps r u p
  step-Kept_live (exits p rdi) ps r u live ok = exit-Kept c ps r u p rdi (ground arith)
  step-Kept_live (waits p x) ps r u live ok = wait-Kept p x c ps r (inr (inr live))

  step-Kept_exited :
      (e : Event) (ps : Processes)
      → Ready ps
      → (entry ps c).used ≡ true
      → (entry ps c).parent ≡ parent
      → spares c parent e ≡ true
      → Kept c ps (step e ps)
  unfolding step
  step-Kept_exited (forks p) ps r u of_p ok = fork-Kept c ps r u p
  step-Kept_exited (exits p rdi) ps r u of_p ok = exit-Kept c ps r u p rdi (ground arith)
  step-Kept_exited (waits p x) ps r u of_p ok = wait-Kept p x c ps r (ground arith)

  Kept-trans : (ps qs ts : Processes) → Kept c ps qs → Kept c qs ts → Kept c ps ts
  Kept-trans ps qs ts k l = record { ready = l.ready; same = l.same ∙ k.same }

  run-Kept_live :
      (es : List Event) (ps : Processes)
      → Ready ps
      → (entry ps c).used ≡ true
      → (entry ps c).exited ≡ false
      → All (lets_live c) es
      → Kept c ps (run es ps)
  unfolding run
  run-Kept_live [] ps r u live ok = record { ready = r; same = refl }
  run-Kept_live (e ∷ es) ps r u live ok =
      let k = step-Kept_live e ps r u live ok.0 in
      Kept-trans ps (step e ps) (run es (step e ps)) k
        (run-Kept_live es (step e ps) k.ready (rw k.same u) (rw k.same live) ok.1)

  run-Kept_exited :
      (es : List Event) (ps : Processes)
      → Ready ps
      → (entry ps c).used ≡ true
      → (entry ps c).parent ≡ parent
      → All (spares c parent) es
      → Kept c ps (run es ps)
  unfolding run
  run-Kept_exited [] ps r u of_p ok = record { ready = r; same = refl }
  run-Kept_exited (e ∷ es) ps r u of_p ok =
      let k = step-Kept_exited e ps r u of_p ok.0 in
      Kept-trans ps (step e ps) (run es (step e ps)) k
        (run-Kept_exited es (step e ps) k.ready (rw k.same u) (rw k.same of_p) ok.1)

-- A `fork` that succeeds: the child's entry, and the table still set up.
fork-started :
    (p : ℕ) (ps : Processes)
    → Ready ps
    → let (c, ps') = fork_entry p ps in
      c ≢ failed → Ready ps' × (entry ps' c ≡ started p) × (0 < c) × ((entry ps c).used ≡ false)
fork-started p ps r ok = elim (fork-Forked p ps r) [
  | no_room next n e ↦ absurd (ok (ap (λ (o : ℕ × Processes). o.0) e))
  | made c next n c_in free e ↦ rw e (
    Ready-set ps c next (started p) r n,
    entry-set_self ps c next (started p) r c_in.1,
    omega arith,
    free,
  )
]

-- From a child that has just been made.
module _ (p c st : ℕ) (ps : Processes) (r : Ready ps) (new : entry ps c ≡ started p) (pos : 0 < c)
    (before after : List Event) (live : All (lets_live c) before)
    (spared : All (spares c p) after) where
  abbrev running : Processes
  running = run before ps

  running-Kept : Kept c ps running
  running-Kept =
      run-Kept_live c p before ps r (ap (λ (e : Entry). e.used) new)
        (ap (λ (e : Entry). e.exited) new) live

  running-entry : entry running c ≡ started p
  running-entry = running-Kept.same ∙ new

  running-used : (entry running c).used ≡ true
  running-used = ap (λ (e : Entry). e.used) running-entry

  at_exit : Exited c running running-Kept.ready running-used st (exit_entry c st running)
  at_exit = exit-Exited c running running-Kept.ready running-used st pos

  exited-entry : entry (exit_entry c st running) c ≡ zombie p (int_of st)
  exited-entry =
      at_exit.result
      ∙ ap (λ (e : Entry). record e { exited = true; status = int_of st }) running-entry

  abbrev ended : Processes
  ended = run after (exit_entry c st running)

  ended-Kept : Kept c (exit_entry c st running) ended
  ended-Kept =
      run-Kept_exited c p after (exit_entry c st running) at_exit.ready
        (ap (λ (e : Entry). e.used) exited-entry) (ap (λ (e : Entry). e.parent) exited-entry) spared

  ended-entry : entry ended c ≡ zombie p (int_of st)
  ended-entry = ended-Kept.same ∙ exited-entry

  abbrev after_wait : Processes
  after_wait = collected p c ended ended-Kept.ready

  reaps : wait_turn p c ended ≡ (reaped (int_of st), after_wait)
  reaps =
      wait-reaped p c ended ended-Kept.ready (ap (λ (e : Entry). e.used) ended-entry)
        (ap (λ (e : Entry). e.parent) ended-entry) (ap (λ (e : Entry). e.exited) ended-entry)
      ∙ ap (λ (e : Entry). (reaped e.status, after_wait)) ended-entry

  freed_entry : entry after_wait c ≡ record (entry ended c) { used = false }
  freed_entry =
      entry-set_self ended c ended.next_pid (record (entry ended c) { used = false })
        ended-Kept.ready (used-lt ended c ended-Kept.ready (ap (λ (e : Entry). e.used) ended-entry))

  after_wait-Ready : Ready after_wait
  after_wait-Ready =
      Ready-set ended c ended.next_pid (record (entry ended c) { used = false }) ended-Kept.ready
        ended-Kept.ready.next

  others-refused :
      (q : ℕ) → q ≢ p → ((wait_turn q c running).0 ≡ refused) × ((wait_turn q c ended).0 ≡ refused)
  others-refused q ne = (
    ap (λ (w : Wait × Processes). w.0)
        (wait-refused q c running running-Kept.ready
          (inr (λ e. ne (sym e ∙ ap (λ (x : Entry). x.parent) running-entry)))),
    ap (λ (w : Wait × Processes). w.0)
        (wait-refused q c ended ended-Kept.ready
          (inr (λ e. ne (sym e ∙ ap (λ (x : Entry). x.parent) ended-entry)))),
  )

  -- The whole course.
  course :
      (wait_turn p c running ≡ (again, running))
      × ((wait_turn p c ended).0 ≡ reaped (int_of st))
      × ((entry (wait_turn p c ended).1 c).used ≡ false)
      × ((wait_turn p c (wait_turn p c ended).1).0 ≡ refused)
      × ((q : ℕ)
          → q ≢ p
          → ((wait_turn q c running).0 ≡ refused) × ((wait_turn q c ended).0 ≡ refused))
  course = rw reaps (
    wait-again p c running running-Kept.ready running-used
        (ap (λ (e : Entry). e.parent) running-entry) (ap (λ (e : Entry). e.exited) running-entry),
    refl,
    ap (λ (e : Entry). e.used) freed_entry,
    ap (λ (w : Wait × Processes). w.0)
        (wait-refused p c after_wait after_wait-Ready
          (inl (ap (λ (e : Entry). e.used) freed_entry))),
    others-refused,
  )

-- A parent's `waitpid` gets its child's status, once. On a table that is set up, let `fork` make
-- the child `c` of `p`, any processes then do what they like but let `c` live, `c` exit with a
-- status, and again any processes do what they like, but `c` does not exit twice and `p` does not
-- wait for it. A round of `waitpid` by `p` before the exit yields; one by anybody else fails,
-- before the exit and after it; one by `p` after the exit gives the status, and frees the entry,
-- so that a further one fails.
pub waitpid-status :
    (p st : ℕ) (ps : Processes) (before after : List Event)
    → Ready ps
    → let (c, ps') = fork_entry p ps in
      let running' = run before ps' in
      let ended' = run after (exit_entry c st running') in
      c ≢ failed
      → All (lets_live c) before
      → All (spares c p) after
      → (wait_turn p c running' ≡ (again, running'))
        × ((wait_turn p c ended').0 ≡ reaped (int_of st))
        × ((entry (wait_turn p c ended').1 c).used ≡ false)
        × ((wait_turn p c (wait_turn p c ended').1).0 ≡ refused)
        × ((q : ℕ)
            → q ≢ p
            → ((wait_turn q c running').0 ≡ refused) × ((wait_turn q c ended').0 ≡ refused))
waitpid-status p st ps before after r ok live spared =
    let (ready, new, pos, _) = fork-started p ps r ok in
    course p (fork_entry p ps).0 st (fork_entry p ps).1 ready new pos before after live spared
