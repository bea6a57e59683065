-- ===== src/Sync/Awake.antt =====
-- Threads that will test again, and threads in the queue of a condition: kernel/condition.h.
use p.Prelude.{
  ℕ, zero, suc, ◌+◌, ◌≤◌, ◌<◌, ◌≡◌, refl, sym, ap, ◌∙◌, ◌≢◌, List, [], ◌∷◌, ◌++◌, arith, ℕ_discrete,
  ◌==◌, if◌then◌else◌,
}
use p.Sync.{Pc, outside, wants, captured, asleep, at, wake_all}

-- A thread in the loop that is not in the queue.
abbrev pub awake01 : Pc → ℕ
awake01 wants = 1
awake01 (captured e) = 1
awake01 outside = 0
awake01 asleep = 0

abbrev pub asleep01 : Pc → ℕ
asleep01 asleep = 1
asleep01 wants = 0
asleep01 (captured e) = 0
asleep01 outside = 0

-- The epoch that a thread has captured.
abbrev pub epoch_of : Pc → ℕ
epoch_of (captured e) = e
epoch_of outside = 0
epoch_of wants = 0
epoch_of asleep = 0

-- How many of the first threads are awake.
unfoldable pub awake : ℕ → (ℕ → Pc) → ℕ
awake zero pc = 0
awake (suc n) pc = awake01 (pc n) + awake n pc

unfoldable pub count : ℕ → List ℕ → ℕ
count t [] = 0
count t (u ∷ us) = (if u == t then 1 else 0) + count t us

pub count-append : (t : ℕ) (us vs : List ℕ) → count t (us ++ vs) ≡ count t us + count t vs
unfolding count
count-append t [] vs = omega arith
count-append t (u ∷ us) vs = omega (arith, count-append t us vs)

pub at_self : (t : ℕ) (x : Pc) (pc : ℕ → Pc) → at t x pc t ≡ x
at_self t x pc = ground arith

pub at_ne : (t u : ℕ) (x : Pc) (pc : ℕ → Pc) → u ≢ t → at t x pc u ≡ pc u
at_ne t u x pc ne = ground arith

asleep01_le : (x : Pc) → asleep01 x ≤ 1
asleep01_le asleep = omega arith
asleep01_le wants = omega arith
asleep01_le (captured e) = omega arith
asleep01_le outside = omega arith

awake-beyond : (n t : ℕ) (x : Pc) (pc : ℕ → Pc) → n ≤ t → awake n (at t x pc) ≡ awake n pc
unfolding awake
awake-beyond zero t x pc h = refl
awake-beyond (suc n) t x pc h = ground (arith, awake-beyond n t x pc (omega (arith, h)))

pub awake-at :
    (n t : ℕ) (x : Pc) (pc : ℕ → Pc)
    → t < n
    → awake n (at t x pc) + awake01 (pc t) ≡ awake n pc + awake01 x
unfolding awake
awake-at zero t x pc h = absurd (omega (arith, h))
awake-at (suc n) t x pc h = elim (ℕ_discrete t n) [
  | yes e ↦ omega (
    arith,
    awake-beyond n t x pc (omega (arith, e)),
    ap (λ k. awake01 (pc k)) e,
    ap (λ k. awake01 (at t x pc k)) e,
    ap awake01 (at_self t x pc),
  )
  | no ne ↦ omega (
    arith,
    ap awake01 (at_ne t n x pc (λ e. ne (sym e))),
    awake-at n t x pc (omega (arith, h, ne)),
  )
]

-- Every thread that sleeps stands in the queue, once, and no other thread does.
abbrev pub Queued : List ℕ → (ℕ → Pc) → Type 0
Queued ws pc = (t : ℕ) → count t ws ≡ asleep01 (pc t)

pub wake-Queued :
    (t : ℕ) (ts : List ℕ) (pc : ℕ → Pc) → Queued (t ∷ ts) pc → Queued ts (at t wants pc)
unfolding count
wake-Queued t ts pc q u = elim (ℕ_discrete u t) [
  | yes e ↦ grind (
    arith,
    q t,
    asleep01_le (pc t),
    ap (λ k. count k ts) e,
    ap (λ k. asleep01 (at t wants pc k)) e,
    ap asleep01 (at_self t wants pc),
  )
  | no ne ↦ grind (arith, q u, ap asleep01 (at_ne t u wants pc ne))
]

pub wake_all-Queued : (ws : List ℕ) (pc : ℕ → Pc) → Queued ws pc → Queued [] (wake_all ws pc)
unfolding wake_all
wake_all-Queued [] pc q = q
wake_all-Queued (t ∷ ts) pc q = wake_all-Queued ts (at t wants pc) (wake-Queued t ts pc q)

-- A thread that is woken up is not one that has captured an epoch, or one outside.
pub wake_all-captured :
    (ws : List ℕ) (pc : ℕ → Pc) (t e : ℕ) → wake_all ws pc t ≡ captured e → pc t ≡ captured e
unfolding wake_all
wake_all-captured [] pc t e h = h
wake_all-captured (w ∷ ws) pc t e h =
    let r = wake_all-captured ws (at w wants pc) t e h in
    elim (ℕ_discrete t w) [
      | yes e' ↦ absurd (cc (sym (at_self w wants pc) ∙ ap (at w wants pc) (sym e') ∙ r))
      | no ne ↦ sym (at_ne w t wants pc ne) ∙ r
    ]

pub wake_all-outside :
    (ws : List ℕ) (pc : ℕ → Pc) (n : ℕ)
    → Queued ws pc
    → ((t : ℕ) → n ≤ t → pc t ≡ outside)
    → (t : ℕ) → n ≤ t
    → wake_all ws pc t ≡ outside
unfolding wake_all count
wake_all-outside [] pc n q h t ht = h t ht
wake_all-outside (w ∷ ws) pc n q h t ht =
    wake_all-outside ws (at w wants pc) n (wake-Queued w ws pc q)
      (λ u hu.
        at_ne w u wants pc
          (λ e. absurd (grind (arith, q w, ap (λ k. asleep01 (pc k)) e, ap asleep01 (h u hu))))
        ∙ h u hu)
      t ht

pub asleep-awake : (x : Pc) → asleep01 x ≡ 1 → awake01 x ≡ 0
asleep-awake asleep h = refl
asleep-awake wants h = omega (arith, h)
asleep-awake (captured e) h = omega (arith, h)
asleep-awake outside h = refl

pub head_asleep : (t : ℕ) (ts : List ℕ) (pc : ℕ → Pc) → Queued (t ∷ ts) pc → asleep01 (pc t) ≡ 1
unfolding count
head_asleep t ts pc q = grind (arith, q t, asleep01_le (pc t))
