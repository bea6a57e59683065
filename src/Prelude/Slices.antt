-- ===== src/Prelude/Slices.antt =====
-- Pieces of lists.
use Prim.Native.Nat.{ℕ, zero, suc, ◌+◌, ◌≤◌}
use mathlib.Core.Path.{◌≡◌, refl, sym, ap}
use mathlib.Core.List.{List, [], ◌∷◌, ◌++◌}
use native.Mathlib.Omega.{arith}
use p.Prelude.Lists.{length, take, drop}

module _ {ℓ} {A : Type ℓ} where
  pub take-take : (m n : ℕ) (xs : List A) → m ≤ n → take m (take n xs) ≡ take m xs
  take-take zero n xs h = refl
  take-take (suc m) zero xs h = absurd (omega arith)
  take-take (suc m) (suc n) [] h = refl
  take-take (suc m) (suc n) (x ∷ xs) h = ap (λ t. x ∷ t) (take-take m n xs (omega arith))

  pub take-nil : (n : ℕ) → take {A = A} n [] ≡ []
  take-nil zero = refl
  take-nil (suc n) = refl

  -- The sum is a variable with an equation, so that it can be matched.
  pub drop-take : (k n m : ℕ) (xs : List A) → m ≡ k + n → drop k (take m xs) ≡ take n (drop k xs)
  drop-take zero n m xs e = ap (λ t. take t xs) (omega arith)
  drop-take (suc k) n zero xs e = absurd (omega arith)
  drop-take (suc k) n (suc m) [] e = sym (take-nil n)
  drop-take (suc k) n (suc m) (x ∷ xs) e = drop-take k n m xs (omega arith)

  pub drop-nil : (n : ℕ) → drop {A = A} n [] ≡ []
  drop-nil zero = refl
  drop-nil (suc n) = refl

  pub drop-drop : (j k m : ℕ) (xs : List A) → m ≡ k + j → drop j (drop k xs) ≡ drop m xs
  drop-drop j zero m xs e = ap (λ t. drop t xs) (omega arith)
  drop-drop j (suc k) zero xs e = absurd (omega arith)
  drop-drop j (suc k) (suc m) [] e = drop-nil j
  drop-drop j (suc k) (suc m) (x ∷ xs) e = drop-drop j k m xs (omega arith)

  pub take-append_left : (n : ℕ) (xs ys : List A) → n ≤ length xs → take n (xs ++ ys) ≡ take n xs
  take-append_left zero xs ys h = refl
  take-append_left (suc n) [] ys h = absurd (omega arith)
  take-append_left (suc n) (x ∷ xs) ys h = ap (λ t. x ∷ t) (take-append_left n xs ys (omega arith))

  pub take-drop-append_left :
      (k n : ℕ) (xs ys : List A)
      → k + n ≤ length xs
      → take n (drop k (xs ++ ys)) ≡ take n (drop k xs)
  take-drop-append_left zero n xs ys h = take-append_left n xs ys (omega arith)
  take-drop-append_left (suc k) n [] ys h = absurd (omega arith)
  take-drop-append_left (suc k) n (x ∷ xs) ys h = take-drop-append_left k n xs ys (omega arith)

  pub take-append-take-drop :
      (m n k : ℕ) (xs : List A) → k ≡ m + n → take m xs ++ take n (drop m xs) ≡ take k xs
  take-append-take-drop zero n k xs e = ap (λ t. take t xs) (omega arith)
  take-append-take-drop (suc m) n zero xs e = absurd (omega arith)
  take-append-take-drop (suc m) n (suc k) [] e = take-nil n
  take-append-take-drop (suc m) n (suc k) (x ∷ xs) e =
      ap (λ t. x ∷ t) (take-append-take-drop m n k xs (omega arith))

-- The `n` items from an offset on, or as many as there are.
abbrev pub slice {ℓ} : {A : Type ℓ} → ℕ → ℕ → List A → List A
slice offset n xs = take n (drop offset xs)
