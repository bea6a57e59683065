-- ===== src/Print/Tests.antt =====
-- Tests of printing.
use p.Prelude.{
  ℕ, ◌*◌, ◌+◌, ◌^◌, ◌≡◌, refl, true, some, none, List, [], ◌∷◌, ◌++◌, arith, length, if◌then◌else◌,
}
use p.Print.{
  do_print, print_unsigned, print_signed, print_u64, Arg, dec_unsigned, dec_signed, boolean, u8,
  print, xprint,
}
use p.Print.Decimal.{read_signed, read_signed-print_signed}
use p.Print.Hex.{read_hex, read_hex-print_u64}
use p.Print.Format.{format, filled, fits, query, xprint-format}

zero_printed : print_unsigned 0 ≡ b'0' ∷ []
unfolding print_unsigned
zero_printed = refl

number_printed : print_unsigned 1203 ≡ b'1' ∷ b'2' ∷ b'0' ∷ b'3' ∷ []
unfolding print_unsigned
number_printed = refl

lowest_printed : print_signed 8 128 ≡ b'-' ∷ b'1' ∷ b'2' ∷ b'8' ∷ []
unfolding print_signed
lowest_printed = refl

one_left_over :
    print (b'{' ∷ b'}' ∷ b',' ∷ []) (dec_unsigned 7 ∷ boolean true ∷ [])
    ≡ b'7' ∷ b',' ∷ b' ' ∷ b'.' ∷ b'.' ∷ b'.' ∷ []
unfolding print
one_left_over = refl

read_signed-print_signed_example : read_signed 32 (print_signed 32 0xffff_fff6) ≡ some 0xffff_fff6
read_signed-print_signed_example =
    read_signed-print_signed 32 0xffff_fff6 (omega arith) (omega arith)

read_hex-print_u64_example :
    (read_hex 0 (print_u64 0xfee0_0000 ++ b'h' ∷ [])
      ≡ read_hex (0 * 2 ^ 64 + 0xfee0_0000) (b'h' ∷ []))
    × (length (print_u64 0xfee0_0000) ≡ 16)
read_hex-print_u64_example = read_hex-print_u64 0xfee0_0000 0 (b'h' ∷ []) (omega arith)

abbrev values : List Arg
values = u8 31 ∷ dec_signed 16 65535 ∷ []

abbrev between : List (List ℕ)
between = (b':' ∷ []) ∷ [] ∷ []

xprint-format_example :
    xprint (format query (b'a' ∷ []) between) values
    ≡ (if fits between values then some (filled query (b'a' ∷ []) between values) else none)
xprint-format_example = xprint-format (b'a' ∷ []) between values (omega arith) (omega arith)

filled_printed :
    filled query (b'a' ∷ []) between values ≡ b'a' ∷ b'1' ∷ b'f' ∷ b':' ∷ b'-' ∷ b'1' ∷ []
unfolding filled do_print
filled_printed = refl
