-- ===== src/Threads/Tests.antt =====
-- Two threads of kernel/thread.cc on two cores.
use p.Prelude.{ℕ, ◌≡◌, refl, true, false, arith, Option, none, some, List, [], ◌∷◌}
use p.Threads.{
  Core, Threads, Event, announces, adds, idles, yields, post_switches, action_ready, action_stop,
  stops, reaps, put, step, run, start,
}
use p.Threads.Once.{places, run-places}
use p.Threads.Shutdown.{run-shutdown}

-- Core 0 runs thread 0 and yields to thread 1; core 1 takes thread 0.
abbrev steps : List Event
steps =
    announces ∷ adds ∷ announces ∷ adds ∷ idles 0 ∷ yields 0 ∷ post_switches 0 false ∷ idles 1 ∷ []

abbrev running_on : Option ℕ → Core
running_on t = record { current = t; leaving = none }

abbrev both_run : Threads
both_run = record start {
  cores = put 1 (running_on (some 0)) (
      put 0 (running_on (some 1)) (
        put 0 (record { current = some 1; leaving = some (0, action_ready) })
          (put 0 (running_on (some 0)) start.cores)));
  created = 2;
  n_active = 2;
}

run-steps : run 2 steps start ≡ some both_run
unfolding run step
run-steps = refl

run-places_example : places 0 2 both_run ≡ 1
run-places_example = run-places 2 steps both_run 0 run-steps

-- A thread that a core has left, and that has not got to a queue yet, does not run elsewhere.
not_yet :
    run 2 (announces ∷ adds ∷ announces ∷ adds ∷ idles 0 ∷ yields 0 ∷ idles 1 ∷ yields 1 ∷ []) start
    ≡ none
unfolding run step
not_yet = refl

-- One thread, from its start to its end.
abbrev life : List Event
life = announces ∷ adds ∷ idles 0 ∷ stops 0 ∷ post_switches 0 false ∷ reaps ∷ []

abbrev shut_down : Threads
shut_down = record start {
  cores = put 0 (running_on none) (
      put 0 (record { current = none; leaving = some (0, action_stop) })
        (put 0 (running_on (some 0)) start.cores));
  dead = 0 ∷ [];
  created = 1;
  n_active = 0;
  off = true;
}

run-life : run 1 life start ≡ some shut_down
unfolding run step
run-life = refl

run-shutdown_example :
    (shut_down.ready ≡ [])
    × (shut_down.reaper ≡ [])
    × (shut_down.waiting ≡ [])
    × (shut_down.hand ≡ [])
    × ((shut_down.cores 0).current ≡ none)
    × ((shut_down.cores 0).leaving ≡ none)
    × (shut_down.announced ≡ 0)
run-shutdown_example = run-shutdown 1 life shut_down 0 run-life (omega arith) refl (omega arith)
