-- ===== src/Print.antt =====
-- Printing: kernel/print.h, with puts of kernel/debug.cc. What is printed is the list of the
-- characters that putch is called with. A format is its characters up to the closing null.
pub mod Decimal
pub mod Hex
pub mod Format
mod Tests
use p.Prelude.{
  ℕ, zero, suc, ◌+◌, ◌-◌, ◌/◌, ◌%◌, ◌^◌, ◌<◌, Bool, true, false, ◌&&◌, Option, none, some, List, [],
  ◌∷◌, ◌++◌, arith, dec_lt, leb, ◌==◌, if◌then◌else◌, get_or,
}
use mathlib.Core.Logic.{dite}
use mathlib.Core.Option
use mathlib.Core.WellFounded.{Acc, WellFounded}

below-Acc : (k n : ℕ) → n < k → Acc ◌<◌ n
below-Acc zero n h = elim h [ ]
below-Acc (suc k) n h = Acc.intro n (λ m hm. below-Acc k m (omega arith))

unfoldable pub lt_wf : WellFounded ◌<◌
unfolding below-Acc
lt_wf = record { apply = λ n. below-Acc (suc n) n (omega arith) }

pub quotient-lt : (n : ℕ) → 0 < n / 10 → n / 10 < n
quotient-lt n h = omega arith

-- `do_print(Dec<T>)` for an unsigned type: `r` after the digits of `q`, which is smaller.
unfoldable pub unsigned_digits : (n : ℕ) → Acc ◌<◌ n → List ℕ
unfolding dec_lt quotient-lt
unsigned_digits n (Acc.intro _ smaller) =
    if n == 0
    then b'0' ∷ []
    else (let r = n % 10 in
        let q = n / 10 in
        dite (dec_lt 0 q) (λ h. unsigned_digits q (smaller q (quotient-lt n h)) ++ (b'0' + r) ∷ [])
          (λ _. (b'0' + r) ∷ []))

unfoldable pub print_unsigned : ℕ → List ℕ
unfolding unsigned_digits lt_wf
print_unsigned n = unsigned_digits n (lt_wf.apply n)

-- `do_print(Dec<T>)` for a signed type of `w` bits, at the value with the pattern `n`.
unfoldable pub print_signed : ℕ → ℕ → List ℕ
unfolding print_unsigned
print_signed w n =
    if leb (2 ^ (w - 1)) n then b'-' ∷ print_unsigned ((2 ^ w - n) % 2 ^ w) else print_unsigned n

unfoldable pub print_bool : Bool → List ℕ
print_bool true = b't' ∷ b'r' ∷ b'u' ∷ b'e' ∷ []
print_bool false = b'f' ∷ b'a' ∷ b'l' ∷ b's' ∷ b'e' ∷ []

unfoldable pub hex_digits : List ℕ
hex_digits =
    b'0' ∷ b'1' ∷ b'2' ∷ b'3' ∷ b'4' ∷ b'5' ∷ b'6' ∷ b'7' ∷ b'8' ∷ b'9' ∷ b'a' ∷ b'b' ∷ b'c' ∷ b'd'
    ∷ b'e' ∷ b'f' ∷ []

-- A number of 8 bits, and those of 16, 32 and 64 bits by their halves.
unfoldable pub print_u8 : ℕ → List ℕ
unfolding hex_digits
print_u8 v = get_or hex_digits (v / 2 ^ 4) 0 ∷ get_or hex_digits (v % 2 ^ 4) 0 ∷ []

unfoldable pub print_u16 : ℕ → List ℕ
unfolding print_u8
print_u16 v = print_u8 (v / 2 ^ 8 % 2 ^ 8) ++ print_u8 (v % 2 ^ 8)

unfoldable pub print_u32 : ℕ → List ℕ
unfolding print_u16
print_u32 v = print_u16 (v / 2 ^ 16 % 2 ^ 16) ++ print_u16 (v % 2 ^ 16)

unfoldable pub print_u64 : ℕ → List ℕ
unfolding print_u32
print_u64 v = print_u32 (v / 2 ^ 32 % 2 ^ 32) ++ print_u32 (v % 2 ^ 32)

-- An argument, by the `do_print` that its type selects.
pub data Arg : Type 0 where
  dec_unsigned : ℕ → Arg
  dec_signed : ℕ → ℕ → Arg
  boolean : Bool → Arg
  u8 : ℕ → Arg
  u16 : ℕ → Arg
  u32 : ℕ → Arg
  u64 : ℕ → Arg
  pointer : ℕ → Arg
  text : List ℕ → Arg
  character : ℕ → Arg

unfoldable pub do_print : Arg → List ℕ
unfolding print_unsigned print_signed print_bool print_u8 print_u16 print_u32 print_u64
do_print (dec_unsigned n) = print_unsigned n
do_print (dec_signed w n) = print_signed w n
do_print (boolean b) = print_bool b
do_print (u8 v) = print_u8 v
do_print (u16 v) = print_u16 v
do_print (u32 v) = print_u32 v
do_print (u64 v) = print_u64 v
do_print (pointer v) = print_u64 v
do_print (text s) = s
do_print (character c) = (c % 2 ^ 8) ∷ []

-- `print`: each `{}` is replaced by the next argument. A format that ends with arguments left is
-- followed by dots, and with none left the rest of it is put out as it is.
unfoldable pub print : List ℕ → List Arg → List ℕ
unfolding do_print
print msg [] = msg
print [] (a ∷ args) = b' ' ∷ b'.' ∷ b'.' ∷ b'.' ∷ []
print (c ∷ []) (a ∷ args) = c ∷ b' ' ∷ b'.' ∷ b'.' ∷ b'.' ∷ []
print (c ∷ d ∷ msg) (a ∷ args) = elim (c == b'{' && d == b'}') [
  | true ↦ do_print a ++ print msg args
  | false ↦ c ∷ print (d ∷ msg) (a ∷ args)
]

-- `xprint`: each `?` is replaced by the next argument. A format that ends with arguments left does
-- not compile, which is `none`.
unfoldable pub xprint : List ℕ → List Arg → Option (List ℕ)
unfolding do_print
xprint msg [] = some msg
xprint [] (a ∷ args) = none
xprint (c ∷ msg) (a ∷ args) = elim (c == b'?') [
  | true ↦ Option.map (λ out. do_print a ++ out) (xprint msg args)
  | false ↦ Option.map (λ out. c ∷ out) (xprint msg (a ∷ args))
]
