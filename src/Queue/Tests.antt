-- ===== src/Queue/Tests.antt =====
-- A queue of two.
use p.Prelude.{◌≡◌, refl, none, some, [], ◌∷◌, arith, ◌==◌, if◌then◌else◌}
use p.Queue.{Queue, add, remove}
use p.Queue.Fifo.{Represents, add-Represents, remove-Represents}

abbrev two : Queue
two = record {
  first = some 5;
  last = some 9;
  size_count = 2;
  next = λ k. if k == 5 then some 9 else none;
}

two-Represents : Represents two (5 ∷ 9 ∷ [])
two-Represents = record {
  chain = (refl, (refl, refl));
  distinct = (((λ e. absurd (omega arith)), tt), (tt, tt));
  last = refl;
  count = refl;
}

add-Represents_example : (q : Queue) × (add 7 two ≡ some q) × Represents q (5 ∷ 9 ∷ 7 ∷ [])
add-Represents_example =
    add-Represents 7 two (5 ∷ 9 ∷ []) two-Represents
      ((λ e. absurd (omega arith)), ((λ e. absurd (omega arith)), tt)) (omega arith)

remove-Represents_example : ((remove two).0 ≡ some 5) × Represents (remove two).1 (9 ∷ [])
remove-Represents_example = remove-Represents two 5 (9 ∷ []) two-Represents (omega arith)
