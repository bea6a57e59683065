-- ===== src/Print/Format.antt =====
-- The formats of print and xprint: kernel/print.h.
use p.Prelude.{
  ℕ, ◌≡◌, refl, sym, ap, ◌∙◌, ◌≢◌, Bool, true, false, Option, none, some, List, [], ◌∷◌, ◌++◌,
  arith, if◌then◌else◌,
}
use p.Print.{Arg, do_print, print, xprint}
use mathlib.Core.List.{append-nil}
use mathlib.Core.Option
use mathlib.Core.Option.{map-map}

-- A text without a character.
abbrev pub Without : ℕ → List ℕ → Type 0
Without c [] = Unit
Without c (x ∷ xs) = (x ≢ c) × Without c xs

abbrev pub AllWithout : ℕ → List (List ℕ) → Type 0
AllWithout c [] = Unit
AllWithout c (l ∷ ls) = Without c l × AllWithout c ls

-- The format that has a placeholder between each two texts.
unfoldable pub format : List ℕ → List ℕ → List (List ℕ) → List ℕ
format hole first [] = first
format hole first (l ∷ ls) = first ++ (hole ++ format hole l ls)

-- What a format stands for: the arguments between the texts, placeholders that are left as they
-- are, and dots for arguments that are left.
unfoldable pub filled : List ℕ → List ℕ → List (List ℕ) → List Arg → List ℕ
unfolding format
filled hole first ls [] = format hole first ls
filled hole first [] (a ∷ args) = first ++ (b' ' ∷ b'.' ∷ b'.' ∷ b'.' ∷ [])
filled hole first (l ∷ ls) (a ∷ args) = first ++ (do_print a ++ filled hole l ls args)

-- There is a placeholder for every argument.
abbrev pub fits : List (List ℕ) → List Arg → Bool
fits ls [] = true
fits [] (a ∷ args) = false
fits (l ∷ ls) (a ∷ args) = fits ls args

abbrev pub braces : List ℕ
braces = b'{' ∷ b'}' ∷ []

abbrev pub query : List ℕ
query = b'?' ∷ []

print_other :
    (c : ℕ) (msg : List ℕ) (a : Arg) (args : List Arg)
    → c ≢ b'{'
    → print (c ∷ msg) (a ∷ args) ≡ c ∷ print msg (a ∷ args)
unfolding print
print_other c [] a args h = refl
print_other c (d ∷ msg) a args h = ground arith

print_text :
    (l msg : List ℕ) (a : Arg) (args : List Arg)
    → Without b'{' l
    → print (l ++ msg) (a ∷ args) ≡ l ++ print msg (a ∷ args)
print_text [] msg a args h = refl
print_text (c ∷ l) msg a args h =
    print_other c (l ++ msg) a args h.0 ∙ ap (λ t. c ∷ t) (print_text l msg a args h.1)

print_rest : (msg : List ℕ) → print msg [] ≡ msg
unfolding print
print_rest [] = refl
print_rest (c ∷ []) = refl
print_rest (c ∷ d ∷ msg) = refl

print_end : (a : Arg) (args : List Arg) → print [] (a ∷ args) ≡ b' ' ∷ b'.' ∷ b'.' ∷ b'.' ∷ []
unfolding print
print_end a args = refl

print_hole :
    (msg : List ℕ) (a : Arg) (args : List Arg)
    → print (braces ++ msg) (a ∷ args) ≡ do_print a ++ print msg args
unfolding print
print_hole msg a args = refl

-- Printing a format whose texts have no brace `{` puts out the texts with the arguments between them.
-- Placeholders without an argument are put out as they are, and dots stand for the arguments
-- without a placeholder.
print-format :
    (first : List ℕ) (ls : List (List ℕ)) (args : List Arg)
    → Without b'{' first
    → AllWithout b'{' ls
    → print (format braces first ls) args ≡ filled braces first ls args
unfolding format filled
print-format first ls [] h hs = print_rest (format braces first ls)
print-format first [] (a ∷ args) h hs =
    ap (λ m. print m (a ∷ args)) (sym (append-nil first))
    ∙ print_text first [] a args h
    ∙ ap (λ m. first ++ m) (print_end a args)
print-format first (l ∷ ls) (a ∷ args) h hs =
    print_text first (braces ++ format braces l ls) a args h
    ∙ ap (λ m. first ++ m)
        (print_hole (format braces l ls) a args
          ∙ ap (λ m. do_print a ++ m) (print-format l ls args hs.0 hs.1))

map-id_lem : (o : Option (List ℕ)) → Option.map (λ out. out) o ≡ o
map-id_lem none = refl
map-id_lem (some out) = refl

xprint_other :
    (c : ℕ) (msg : List ℕ) (a : Arg) (args : List Arg)
    → c ≢ b'?'
    → xprint (c ∷ msg) (a ∷ args) ≡ Option.map (λ out. c ∷ out) (xprint msg (a ∷ args))
unfolding xprint
xprint_other c msg a args h = ground arith

xprint_text :
    (l msg : List ℕ) (a : Arg) (args : List Arg)
    → Without b'?' l
    → xprint (l ++ msg) (a ∷ args) ≡ Option.map (λ out. l ++ out) (xprint msg (a ∷ args))
xprint_text [] msg a args h = sym (map-id_lem (xprint msg (a ∷ args)))
xprint_text (c ∷ l) msg a args h =
    xprint_other c (l ++ msg) a args h.0
    ∙ ap (Option.map (λ out. c ∷ out)) (xprint_text l msg a args h.1)
    ∙ map-map (λ out. c ∷ out) (λ out. l ++ out) (xprint msg (a ∷ args))

xprint_rest : (msg : List ℕ) → xprint msg [] ≡ some msg
unfolding xprint
xprint_rest [] = refl
xprint_rest (c ∷ msg) = refl

xprint_end : (a : Arg) (args : List Arg) → xprint [] (a ∷ args) ≡ none
unfolding xprint
xprint_end a args = refl

xprint_hole :
    (msg : List ℕ) (a : Arg) (args : List Arg)
    → xprint (query ++ msg) (a ∷ args) ≡ Option.map (λ out. do_print a ++ out) (xprint msg args)
unfolding xprint
xprint_hole msg a args = refl

-- A format of texts without a `?` compiles exactly when it has a placeholder for every argument,
-- and it then puts out the texts with the arguments between them, and the placeholders that are
-- left as they are.
pub xprint-format :
    (first : List ℕ) (ls : List (List ℕ)) (args : List Arg)
    → Without b'?' first
    → AllWithout b'?' ls
    → xprint (format query first ls) args
      ≡ (if fits ls args then some (filled query first ls args) else none)
unfolding format filled
xprint-format first ls [] h hs = xprint_rest (format query first ls)
xprint-format first [] (a ∷ args) h hs =
    ap (λ m. xprint m (a ∷ args)) (sym (append-nil first))
    ∙ xprint_text first [] a args h
    ∙ ap (Option.map (λ out. first ++ out)) (xprint_end a args)
xprint-format first (l ∷ ls) (a ∷ args) h hs =
    xprint_text first (query ++ format query l ls) a args h
    ∙ ap (Option.map (λ out. first ++ out)) (
        xprint_hole (format query l ls) a args
        ∙ ap (Option.map (λ out. do_print a ++ out)) (xprint-format l ls args hs.0 hs.1))
    ∙ joined (fits ls args)
  where
    joined :
        (b : Bool)
        → Option.map
            (λ out. first ++ out)
            (Option.map
              (λ out. do_print a ++ out)
              (if b then some (filled query l ls args) else none))
          ≡ (if b then some (first ++ (do_print a ++ filled query l ls args)) else none)
    joined true = refl
    joined false = refl
