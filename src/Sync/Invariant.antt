-- ===== src/Sync/Invariant.antt =====
-- What holds of a condition between its critical sections: kernel/condition.h.
use p.Prelude.{
  ℕ, ◌+◌, ◌*◌, ◌^◌, ◌≤◌, ◌<◌, ◌≡◌, refl, sym, ap, ◌∙◌, subst, ◌≢◌, inl, inr, none, some, [], arith,
  dec_lt, ℕ_discrete, ltb, Bool-cases, Option-cases,
}
use mathlib.Core.Option.{some_inj}
use p.Prelude.{ltb→lt}
use p.Sync.{
  Pc, outside, wants, captured, asleep, Signal, silent, one, Gate, Monitor, at, enter, give_up,
  test_round,
}
use p.Sync.Awake.{awake01, asleep01, epoch_of, awake, count, at_self, at_ne, awake-at, Queued}

-- What a gate promises. `room` is how many more tests succeed now; each takes `share` of it. An
-- operation that wakes one thread makes room for one, and one that wakes none makes no room, as
-- long as the number `size` does not wrap around.
pub record Sound {Op State : Type 0} (g : Gate Op State) : Type 0 where
  pub room : State → ℕ
  pub share : ℕ
  pub size : State → ℕ
  pub shrinks : (s s' : State) → g.test s ≡ some s' → size s' ≤ size s
  pub grows :
      (o : Op) (s s' : State) (signal : Signal)
      → g.op o s ≡ some (s', signal)
      → size s' ≤ size s + 1
  pub waits : (s : State) → g.test s ≡ none → room s ≡ 0
  pub passes : (s s' : State) → g.test s ≡ some s' → room s' + share ≤ room s
  pub wakes :
      (o : Op) (s s' : State) (signal : Signal)
      → size s + 1 < 2 ^ 64
      → g.op o s ≡ some (s', signal)
      → ((signal ≡ silent → room s' ≤ room s) × (signal ≡ one → room s' ≤ room s + share))

module _ {Op State : Type 0} (g : Gate Op State) (sound : Sound g) (threads : ℕ) where
  pub record Inv (m : Monitor State) : Type 0 where
    pub queued : Queued m.waiting m.pc
    pub bounded : (t : ℕ) → threads ≤ t → m.pc t ≡ outside
    pub past : (t e : ℕ) → m.pc t ≡ captured e → e ≤ m.epoch
    pub current : (t e : ℕ) → m.pc t ≡ captured e → e ≡ m.epoch → sound.room m.state ≡ 0
    pub enough : m.waiting ≢ [] → sound.room m.state ≤ sound.share * awake threads m.pc

  module _ (m : Monitor State) (inv : Inv m) where
    pub within : (t : ℕ) → m.pc t ≢ outside → t < threads
    within t ne = elim (dec_lt t threads) [
      | yes h ↦ h
      | no h ↦ absurd (ne (inv.bounded t (omega arith)))
    ]

    -- One thread goes on, without the queue.
    pub goes_on :
        (t : ℕ) (y : Pc) (s : State)
        → t < threads
        → asleep01 (m.pc t) ≡ 0
        → asleep01 y ≡ 0
        → ((e : ℕ) → y ≡ captured e → (e ≡ m.epoch) × (sound.room s ≡ 0))
        → sound.room s ≤ sound.room m.state
        → (m.waiting ≢ [] → sound.room s ≤ sound.share * awake threads (at t y m.pc))
        → Inv (record m { state = s; pc = at t y m.pc })
    goes_on t y s ht hx hy captures less still = record {
      queued = λ u. elim (ℕ_discrete u t) [
        | yes e ↦ omega (
          arith,
          inv.queued t,
          hx,
          hy,
          ap (λ k. count k m.waiting) e,
          ap (λ k. asleep01 (at t y m.pc k)) e,
          ap asleep01 (at_self t y m.pc),
        )
        | no ne ↦ inv.queued u ∙ sym (ap asleep01 (at_ne t u y m.pc ne))
      ];
      bounded = λ u h. at_ne t u y m.pc (λ e. absurd (omega (arith, h, ht, e))) ∙ inv.bounded u h;
      past = λ u e h. elim (ℕ_discrete u t) [
        | yes q ↦
            omega (arith, (captures e (sym (at_self t y m.pc) ∙ ap (at t y m.pc) (sym q) ∙ h)).0)
        | no ne ↦ inv.past u e (sym (at_ne t u y m.pc ne) ∙ h)
      ];
      current = λ u e h now. elim (ℕ_discrete u t) [
        | yes q ↦ (captures e (sym (at_self t y m.pc) ∙ ap (at t y m.pc) (sym q) ∙ h)).1
        | no ne ↦ omega (arith, less, inv.current u e (sym (at_ne t u y m.pc ne) ∙ h) now)
      ];
      enough = still;
    }

    -- One more thread that is awake.
    pub more :
        (t : ℕ) (y : Pc)
        → t < threads
        → awake01 (m.pc t) ≤ awake01 y
        → sound.share * awake threads m.pc ≤ sound.share * awake threads (at t y m.pc)
    more t y ht h = let q = awake-at threads t y m.pc ht in grind (arith, q, h)

    -- A test that passed.
    pub fewer :
        (t : ℕ)
        → t < threads
        → awake01 (m.pc t) ≡ 1
        → sound.share * awake threads m.pc
          ≡ sound.share * awake threads (at t outside m.pc) + sound.share
    fewer t ht h =
        let q = awake-at threads t outside m.pc ht in
        let q' : awake threads m.pc ≡ awake threads (at t outside m.pc) + 1 = omega (arith, q, h) in
        grind (arith, ap (λ k. sound.share * k) q')

  pub enters-Inv :
      (t : ℕ) (m m' : Monitor State) → Inv m → enter threads t m (m.pc t) ≡ some m' → Inv m'
  enters-Inv t m m' inv e = by_pc (m.pc t) refl e
    where
      by_pc : (x : Pc) → m.pc t ≡ x → enter threads t m x ≡ some m' → Inv m'
      by_pc outside h e = elim (Bool-cases (ltb t threads)) [
        | inr q ↦ absurd (cc (rw q at e))
        | inl q ↦
            let ht = ltb→lt t threads q in
            subst Inv (some_inj.0 (rw q at e)) (
              goes_on m inv t wants m.state ht (ap asleep01 h) refl (λ e' q'. absurd (cc q'))
                (omega arith)
                (λ w. omega (arith, inv.enough w, more m inv t wants ht (rw h (omega arith)))))
      ]
      by_pc wants h e = absurd (cc e)
      by_pc (captured x) h e = absurd (cc e)
      by_pc asleep h e = absurd (cc e)

  pub gives_up-Inv :
      (t : ℕ) (m m' : Monitor State) → Inv m → give_up t m (m.pc t) ≡ some m' → Inv m'
  gives_up-Inv t m m' inv e = by_pc (m.pc t) refl e
    where
      by_pc : (x : Pc) → m.pc t ≡ x → give_up t m x ≡ some m' → Inv m'
      by_pc outside h e = absurd (cc e)
      by_pc wants h e = absurd (cc e)
      by_pc asleep h e = absurd (cc e)
      by_pc (captured x) h e =
          let ht = within m inv t (λ q. absurd (cc (sym h ∙ q))) in
          subst Inv (some_inj.0 e) (
            goes_on m inv t wants m.state ht (ap asleep01 h) refl (λ e' q'. absurd (cc q'))
              (omega arith)
              (λ w. omega (arith, inv.enough w, more m inv t wants ht (rw h (omega arith)))))

  pub tests-Inv :
      (t : ℕ) (m m' : Monitor State) → Inv m → test_round g t m (m.pc t) ≡ some m' → Inv m'
  tests-Inv t m m' inv e = by_pc (m.pc t) refl e
    where
      by_pc : (x : Pc) → m.pc t ≡ x → test_round g t m x ≡ some m' → Inv m'
      by_pc outside h e = absurd (cc e)
      by_pc asleep h e = absurd (cc e)
      by_pc (captured x) h e = absurd (cc e)
      by_pc wants h e =
          let ht = within m inv t (λ q. absurd (cc (sym h ∙ q))) in
          elim (Option-cases (g.test m.state)) [
            | inl q ↦
                let r = sound.waits m.state q in
                subst Inv (some_inj.0 (rw q at e)) (
                  goes_on m inv t (captured m.epoch) m.state ht (ap asleep01 h) refl
                    (λ e' q'. (sym (ap epoch_of q'), r)) (omega arith) (λ w. omega (arith, r)))
            | inr (s, q) ↦
                let r = sound.passes m.state s q in
                subst Inv (some_inj.0 (rw q at e)) (
                  goes_on m inv t outside s ht (ap asleep01 h) refl (λ e' q'. absurd (cc q'))
                    (omega (arith, r))
                    (λ w. omega (arith, inv.enough w, r, fewer m inv t ht (ap awake01 h))))
          ]
