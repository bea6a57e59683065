-- ===== src/Print/Decimal.antt =====
-- The digits of Dec: kernel/print.h.
use p.Prelude.{
  ℕ, zero, suc, ◌+◌, ◌-◌, ◌*◌, ◌/◌, ◌%◌, ◌^◌, ◌<◌, ◌≡◌, refl, ap, ◌∙◌, ◌≢◌, inl, inr, false, ◌&&◌,
  Option, none, some, List, [], ◌∷◌, ◌++◌, arith, dec_lt, leb, ◌==◌, if◌then◌else◌, Bool-cases,
  leb→le,
}
use p.Print.{lt_wf, quotient-lt, unsigned_digits, print_unsigned, print_signed}
use mathlib.Core.Logic.{dif_pos, dif_neg}
use native.Mathlib.Bridge.{le_prop}
use native.Mathlib.Nat.{one-le-pow}
use mathlib.Core.WellFounded.{Acc}

-- A reader of decimal digits, with what is read already.
unfoldable pub read_from : ℕ → List ℕ → Option ℕ
read_from acc [] = some acc
read_from acc (c ∷ cs) =
    if leb b'0' c && leb c b'9' then read_from (acc * 10 + (c - b'0')) cs else none

-- A reader of decimal numbers: at least a digit, and no leading zero but that of 0 itself.
unfoldable pub read_decimal : List ℕ → Option ℕ
unfolding read_from
read_decimal [] = none
read_decimal (c ∷ []) = read_from 0 (c ∷ [])
read_decimal (c ∷ d ∷ cs) = if c == b'0' then none else read_from 0 (c ∷ d ∷ cs)

-- A reader of signed ones, which gives the pattern of `w` bits.
unfoldable pub read_signed : ℕ → List ℕ → Option ℕ
unfolding read_decimal
read_signed w [] = none
read_signed w (c ∷ cs) =
    if c == b'-'
    then elim (read_decimal cs) [ none ↦ none | some m ↦ some ((2 ^ w - m) % 2 ^ w) ]
    else read_decimal (c ∷ cs)

read_from-digit :
    (acc : ℕ) (cs : List ℕ) (m r : ℕ)
    → r < 10
    → read_from acc cs ≡ some m
    → read_from acc (cs ++ (b'0' + r) ∷ []) ≡ some (m * 10 + r)
unfolding read_from
read_from-digit acc [] m r h e = ground arith
read_from-digit acc (c ∷ cs) m r h e =
    ground (arith, read_from-digit (acc * 10 + (c - b'0')) cs m r)

-- No leading zero.
abbrev Leads : List ℕ → Type 0
Leads [] = ⊥
Leads (c ∷ cs) = c ≢ b'0'

Leads-append : (l m : List ℕ) → Leads l → Leads (l ++ m)
Leads-append [] m h = absurd h
Leads-append (c ∷ cs) m h = h

digits_read :
    (n : ℕ) (a : Acc ◌<◌ n)
    → 0 < n
    → (read_from 0 (unsigned_digits n a) ≡ some n) × Leads (unsigned_digits n a)
unfolding unsigned_digits read_from
digits_read n (Acc.intro _ smaller) pos = rw nonzero (elim (dec_lt 0 (n / 10)) [
  | yes h ↦ rw (dif_pos (dec_lt 0 (n / 10)) le_prop h) (
      let (read, leads) = digits_read (n / 10) (smaller (n / 10) (quotient-lt n h)) h in
      (
        read_from-digit 0 (unsigned_digits (n / 10) (smaller (n / 10) (quotient-lt n h))) (n / 10)
              (n % 10) (omega arith) read
            ∙ ap some (omega arith),
        Leads-append _ _ leads,
      ))
  | no h ↦ rw (dif_neg (dec_lt 0 (n / 10)) h) (ground arith, λ e. omega arith)
])
  where
    nonzero : (n == 0) ≡ false
    nonzero = ground arith

zero_read : (a : Acc ◌<◌ 0) → read_decimal (unsigned_digits 0 a) ≡ some 0
unfolding read_decimal unsigned_digits
zero_read (Acc.intro _ smaller) = refl

read_of_Leads : (l : List ℕ) → Leads l → read_decimal l ≡ read_from 0 l
unfolding read_decimal
read_of_Leads [] h = absurd h
read_of_Leads (c ∷ []) h = refl
read_of_Leads (c ∷ d ∷ cs) h = ground arith

-- Reading what is printed for an unsigned number gives the number back. The reader wants at least
-- one digit, nothing but digits, and no leading zero but that of 0.
pub read_decimal-print_unsigned : (n : ℕ) → read_decimal (print_unsigned n) ≡ some n
unfolding print_unsigned
read_decimal-print_unsigned zero = zero_read (lt_wf.apply 0)
read_decimal-print_unsigned (suc n) =
    let (read, leads) = digits_read (suc n) (lt_wf.apply (suc n)) (omega arith) in
    read_of_Leads _ leads ∙ read

no_sign : (w : ℕ) (l : List ℕ) (m : ℕ) → read_decimal l ≡ some m → read_signed w l ≡ some m
unfolding read_signed read_from
no_sign w [] m e = ground arith
no_sign w (c ∷ []) m e = ground arith
no_sign w (c ∷ d ∷ cs) m e = ground arith

minus :
    (w : ℕ) (l : List ℕ) (m : ℕ)
    → read_decimal l ≡ some m
    → read_signed w (b'-' ∷ l) ≡ some ((2 ^ w - m) % 2 ^ w)
unfolding read_signed
minus w l m e = rw e refl

negated_twice : (p n : ℕ) → 0 < n → n < p → (p - (p - n) % p) % p ≡ n
negated_twice p n pos lt = grind arith

-- Reading what is printed for a signed number of `w` bits gives its pattern back.
pub read_signed-print_signed :
    (w n : ℕ) → 0 < w → n < 2 ^ w → read_signed w (print_signed w n) ≡ some n
unfolding print_signed
read_signed-print_signed w n pos lt = elim (Bool-cases (leb (2 ^ (w - 1)) n)) [
  | inl e ↦ rw e (
      minus w _ _ (read_decimal-print_unsigned _)
      ∙ ap some (
          negated_twice (2 ^ w) n
            (omega (arith, one-le-pow (w - 1) 2 (omega arith), leb→le (2 ^ (w - 1)) n e)) lt))
  | inr e ↦ rw e (no_sign w (print_unsigned n) n (read_decimal-print_unsigned n))
]
