-- ===== src/Print/Hex.antt =====
-- The numbers that are printed in hexadecimal: kernel/print.h.
use p.Prelude.{
  ℕ, zero, suc, ◌+◌, ◌-◌, ◌*◌, ◌/◌, ◌%◌, ◌^◌, ◌<◌, ◌≡◌, refl, ap, ◌∙◌, Bool, true, false, ◌&&◌,
  Option, none, some, List, [], ◌∷◌, ◌++◌, arith, leb, ◌==◌, if◌then◌else◌, length, get_or,
}
use p.Print.{hex_digits, print_u8, print_u16, print_u32, print_u64}
use mathlib.Core.List.{append_assoc}

-- A reader of hexadecimal digits, with what is read already.
hex_value : ℕ → Option ℕ
hex_value c =
    if leb b'0' c && leb c b'9'
    then some (c - b'0')
    else if leb b'a' c && leb c b'f'
    then some (10 + (c - b'a'))
    else none

unfoldable pub read_hex : ℕ → List ℕ → Option ℕ
unfolding hex_value
read_hex acc [] = some acc
read_hex acc (c ∷ cs) = elim (hex_value c) [ none ↦ none | some d ↦ read_hex (acc * 16 + d) cs ]

all_below : ℕ → (ℕ → Bool) → Bool
all_below zero q = true
all_below (suc n) q = q n && all_below n q

all_below_sound : (n : ℕ) (q : ℕ → Bool) (x : ℕ) → all_below n q ≡ true → x < n → q x ≡ true
unfolding all_below
all_below_sound zero q x h lt = absurd (omega arith)
all_below_sound (suc n) q x h lt = ground (arith, all_below_sound n q x)

is_value : ℕ → Option ℕ → Bool
is_value d none = false
is_value d (some e) = d == e

is_value_sound : (d : ℕ) (o : Option ℕ) → is_value d o ≡ true → o ≡ some d
unfolding is_value
is_value_sound d none h = cc
is_value_sound d (some e) h = ground arith

digit_table : all_below 16 (λ d. is_value d (hex_value (get_or hex_digits d 0))) ≡ true
unfolding all_below is_value hex_value hex_digits
digit_table = refl

hex_value-digit : (d : ℕ) → d < 16 → hex_value (get_or hex_digits d 0) ≡ some d
hex_value-digit d h =
    is_value_sound d _
      (all_below_sound 16 (λ d. is_value d (hex_value (get_or hex_digits d 0))) d digit_table h)

read_digit :
    (acc d : ℕ) (l : List ℕ)
    → d < 16
    → read_hex acc (get_or hex_digits d 0 ∷ l) ≡ read_hex (acc * 16 + d) l
unfolding read_hex
read_digit acc d l h = rw (hex_value-digit d h, read_hex) refl

-- Reading a number of each size and then what follows it.
read_u8 :
    (acc v : ℕ) (l : List ℕ)
    → v < 2 ^ 8
    → read_hex acc (print_u8 v ++ l) ≡ read_hex (acc * 2 ^ 8 + v) l
unfolding print_u8
read_u8 acc v l h =
    read_digit acc (v / 2 ^ 4) _ (omega arith)
    ∙ read_digit (acc * 16 + v / 2 ^ 4) (v % 2 ^ 4) l (omega arith)
    ∙ ap (λ a. read_hex a l) (omega arith)

read_u16 :
    (acc v : ℕ) (l : List ℕ)
    → v < 2 ^ 16
    → read_hex acc (print_u16 v ++ l) ≡ read_hex (acc * 2 ^ 16 + v) l
unfolding print_u16
read_u16 acc v l h =
    ap (read_hex acc) (append_assoc (print_u8 (v / 2 ^ 8 % 2 ^ 8)) (print_u8 (v % 2 ^ 8)) l)
    ∙ read_u8 acc _ _ (omega arith)
    ∙ read_u8 _ _ l (omega arith)
    ∙ ap (λ a. read_hex a l) (omega arith)

read_u32 :
    (acc v : ℕ) (l : List ℕ)
    → v < 2 ^ 32
    → read_hex acc (print_u32 v ++ l) ≡ read_hex (acc * 2 ^ 32 + v) l
unfolding print_u32
read_u32 acc v l h =
    ap (read_hex acc) (append_assoc (print_u16 (v / 2 ^ 16 % 2 ^ 16)) (print_u16 (v % 2 ^ 16)) l)
    ∙ read_u16 acc _ _ (omega arith)
    ∙ read_u16 _ _ l (omega arith)
    ∙ ap (λ a. read_hex a l) (omega arith)

-- What is printed for a number of 64 bits is sixteen characters long, and reading them as
-- hexadecimal digits, before any text, gives the number back and goes on with the text.
pub read_hex-print_u64 :
    (v acc : ℕ) (l : List ℕ)
    → v < 2 ^ 64
    → (read_hex acc (print_u64 v ++ l) ≡ read_hex (acc * 2 ^ 64 + v) l)
      × (length (print_u64 v) ≡ 16)
unfolding print_u64
read_hex-print_u64 v acc l h = (
  ap (read_hex acc) (append_assoc (print_u32 (v / 2 ^ 32 % 2 ^ 32)) (print_u32 (v % 2 ^ 32)) l)
      ∙ read_u32 acc _ _ (omega arith)
      ∙ read_u32 _ _ l (omega arith)
      ∙ ap (λ a. read_hex a l) (omega arith),
  refl,
)
