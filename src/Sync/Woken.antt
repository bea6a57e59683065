-- ===== src/Sync/Woken.antt =====
-- Threads that go to sleep, and threads that are woken up: kernel/condition.h, and the epoch that
-- `post_switch` of kernel/thread.cc tests again.
use p.Prelude.{
  ℕ, ◌+◌, ◌*◌, ◌^◌, ◌≤◌, ◌<◌, ◌≡◌, refl, sym, ap, ◌∙◌, subst, inl, inr, some, List, [], ◌∷◌, ◌++◌,
  arith, ℕ_discrete, ◌==◌, Bool-cases, add64,
}
use mathlib.Core.Option.{some_inj}
use p.Prelude.{==_iff}
use p.Sync.{
  Pc, outside, wants, captured, asleep, Signal, silent, one, all, Gate, Monitor, at, wake_all,
  notify_one, notify_all, notify, wake_first, post_switch_wait,
}
use p.Sync.Awake.{
  asleep01, awake, count, count-append, at_self, at_ne, awake-at, Queued, head_asleep, asleep-awake,
  wake-Queued, wake_all-Queued, wake_all-captured, wake_all-outside,
}
use p.Sync.Invariant.{Sound, Inv, within, goes_on, more}

module _ {Op State : Type 0} (g : Gate Op State) (sound : Sound g) (threads : ℕ) where
  woken :
      (m : Monitor State) (t : ℕ)
      → t < threads
      → asleep01 (m.pc t) ≡ 1
      → sound.share * awake threads (at t wants m.pc)
        ≡ sound.share * awake threads m.pc + sound.share
  woken m t ht first =
      let q = awake-at threads t wants m.pc ht in
      let q' : awake threads (at t wants m.pc) ≡ awake threads m.pc + 1 =
        omega (arith, q, asleep-awake (m.pc t) first) in
      grind (arith, ap (λ k. sound.share * k) q')

  sleeps :
      (m : Monitor State) (t e : ℕ)
      → Inv g sound threads m
      → m.pc t ≡ captured e
      → m.epoch ≡ e
      → Inv g sound threads (record m { pc = at t asleep m.pc; waiting = m.waiting ++ (t ∷ []) })
  unfolding count
  sleeps m t e inv h now =
      let ht = within g sound threads m inv t (λ q. absurd (cc (sym h ∙ q))) in
      record {
        queued = λ u. elim (ℕ_discrete u t) [
          | yes q ↦ grind (
            arith,
            count-append u m.waiting (t ∷ []),
            inv.queued u,
            ap (λ k. asleep01 (m.pc k)) q,
            ap asleep01 h,
            ap (λ k. asleep01 (at t asleep m.pc k)) q,
            ap asleep01 (at_self t asleep m.pc),
          )
          | no ne ↦ grind (
            arith,
            count-append u m.waiting (t ∷ []),
            inv.queued u,
            ap asleep01 (at_ne t u asleep m.pc ne),
          )
        ];
        bounded = λ u hu.
            at_ne t u asleep m.pc (λ q. absurd (omega (arith, hu, ht, q))) ∙ inv.bounded u hu;
        past = λ u e' q. elim (ℕ_discrete u t) [
          | yes d ↦ absurd (cc (sym (at_self t asleep m.pc) ∙ ap (at t asleep m.pc) (sym d) ∙ q))
          | no ne ↦ inv.past u e' (sym (at_ne t u asleep m.pc ne) ∙ q)
        ];
        current = λ u e' q now'. inv.current t e h (sym now);
        enough = λ w. omega (arith, inv.current t e h (sym now));
      }

  pub switches-Inv :
      (t : ℕ) (m m' : Monitor State)
      → Inv g sound threads m
      → post_switch_wait t m (m.pc t) ≡ some m'
      → Inv g sound threads m'
  switches-Inv t m m' inv e = by_pc (m.pc t) refl e
    where
      by_pc : (x : Pc) → m.pc t ≡ x → post_switch_wait t m x ≡ some m' → Inv g sound threads m'
      by_pc outside h e = absurd (cc e)
      by_pc wants h e = absurd (cc e)
      by_pc asleep h e = absurd (cc e)
      by_pc (captured x) h e = elim (Bool-cases (m.epoch == x)) [
        | inl q ↦
            subst (Inv g sound threads) (some_inj.0 (rw q at e))
              (sleeps m t x inv h ((==_iff m.epoch x).0 q))
        | inr q ↦
            let ht = within g sound threads m inv t (λ q. absurd (cc (sym h ∙ q))) in
            subst (Inv g sound threads) (some_inj.0 (rw q at e)) (
              goes_on g sound threads m inv t wants m.state ht (ap asleep01 h) refl
                (λ e' q'. absurd (cc q')) (omega arith)
                (λ w. omega (
                  arith,
                  inv.enough w,
                  more g sound threads m inv t wants ht (rw h (omega arith)),
                )))
      ]

  first_woken :
      (m : Monitor State) (s : State) (ws : List ℕ)
      → m.waiting ≡ ws
      → Inv g sound threads m
      → m.epoch + 1 < 2 ^ 64
      → sound.room s ≤ sound.room m.state + sound.share
      → Inv g sound threads
          (record (wake_first ws (record m { state = s })) { epoch = add64 m.epoch 1 })
  unfolding wake_all
  first_woken m s [] e inv h ho = record {
    queued = inv.queued;
    bounded = inv.bounded;
    past = λ t x q. omega (arith, h, inv.past t x q);
    current = λ t x q now. absurd (omega (arith, h, now, inv.past t x q));
    enough = λ w. absurd (w e);
  }
  first_woken m s (t ∷ ts) e inv h ho =
      let queued : Queued (t ∷ ts) m.pc = subst (λ ws. Queued ws m.pc) e inv.queued in
      let first = head_asleep t ts m.pc queued in
      let ht = within g sound threads m inv t (λ q. absurd (omega (arith, first, ap asleep01 q))) in
      record {
        queued = wake-Queued t ts m.pc queued;
        bounded = λ u hu.
            at_ne t u wants m.pc (λ q. absurd (omega (arith, hu, ht, q))) ∙ inv.bounded u hu;
        past = λ u x q. omega (arith, h, inv.past u x (wake_all-captured (t ∷ []) m.pc u x q));
        current = λ u x q now.
            absurd (omega (arith, h, now, inv.past u x (wake_all-captured (t ∷ []) m.pc u x q)));
        enough =
            λ w. omega (arith, ho, woken m t ht first, inv.enough (λ q. absurd (cc (sym e ∙ q))));
      }

  pub notify-Inv :
      (m : Monitor State) (s : State) (signal : Signal)
      → Inv g sound threads m
      → m.epoch + 1 < 2 ^ 64
      → (signal ≡ silent → sound.room s ≤ sound.room m.state)
      → (signal ≡ one → sound.room s ≤ sound.room m.state + sound.share)
      → Inv g sound threads (notify signal (record m { state = s }))
  unfolding notify_one notify_all
  notify-Inv m s silent inv h hs ho = record {
    queued = inv.queued;
    bounded = inv.bounded;
    past = inv.past;
    current = λ u e q now. omega (arith, hs refl, inv.current u e q now);
    enough = λ w. omega (arith, hs refl, inv.enough w);
  }
  notify-Inv m s one inv h hs ho = first_woken m s m.waiting refl inv h (ho refl)
  notify-Inv m s all inv h hs ho = record {
    queued = wake_all-Queued m.waiting m.pc inv.queued;
    bounded = wake_all-outside m.waiting m.pc threads inv.queued inv.bounded;
    past = λ t e q. omega (arith, h, inv.past t e (wake_all-captured m.waiting m.pc t e q));
    current = λ t e q now.
        absurd (omega (arith, h, now, inv.past t e (wake_all-captured m.waiting m.pc t e q)));
    enough = λ w. absurd (w refl);
  }
