-- ===== src/Vmm/Vme.antt =====
-- The mapping records of kernel/vmm.cc (struct VME), the lists that hold them, and what a list
-- says about an address.
use p.Prelude.{
  ℕ, ◌-◌, ◌*◌, ◌/◌, ◌%◌, ◌^◌, ◌≤◌, ◌<◌, ◌≡◌, Bool, ◌&&◌, Option, none, some, List, [], ◌∷◌, ltb,
  leb, if◌then◌else◌, arith, add64, sub64, refl,
}

abbrev pub frame_size : ℕ
frame_size = 4096

-- The first address above user space, 0x0000800000000000.
abbrev pub user_top : ℕ
user_top = 2 ^ 47

-- `roundUpPage`
unfoldable pub round_up_page : ℕ → ℕ
round_up_page n = add64 n (frame_size - 1) / frame_size * frame_size

-- `struct VME`. A reference to a file is its i-number, and the null reference is `none`. The list
-- is owned by its head, so `next` is the list's own tail.
pub record Vme : Type 0 where
  pub start : ℕ
  pub end : ℕ
  pub shared : Bool
  pub node : Option ℕ
  pub offset : ℕ

-- The test of both loops of `ensureMappedPage`.
abbrev pub covers : Vme → ℕ → Bool
covers v va = leb v.start va && ltb va v.end

-- The walk of `ensureMappedPage`: the first record that covers the address.
unfoldable pub find_vme : ℕ → List Vme → Option Vme
find_vme va [] = none
find_vme va (v ∷ vs) = if covers v va then some v else find_vme va vs

-- Where the bytes of an address come from: shared or not, which file, which offset in it.
pub record Source : Type 0 where
  pub shared : Bool
  pub node : Option ℕ
  pub offset : ℕ

abbrev pub source_of : Vme → ℕ → Source
source_of v va = record {
  shared = v.shared;
  node = v.node;
  offset = add64 v.offset (sub64 va v.start);
}

unfoldable pub backing : ℕ → List Vme → Option Source
backing va [] = none
backing va (v ∷ vs) = if covers v va then some (source_of v va) else backing va vs

-- In order from `lo` on, apart, not empty, and on page boundaries.
abbrev pub Layout : ℕ → List Vme → Type 0
Layout lo [] = Unit {0}
Layout lo (v ∷ vs) =
    (lo ≤ v.start)
    × (v.start < v.end)
    × (v.end < 2 ^ 64)
    × (v.start % 4096 ≡ 0)
    × (v.end % 4096 ≡ 0)
    × Layout v.end vs

pub Layout-weaken : (lo lo' : ℕ) (vs : List Vme) → lo' ≤ lo → Layout lo vs → Layout lo' vs
Layout-weaken lo lo' [] h l = tt
Layout-weaken lo lo' (v ∷ vs) h l = ground arith

-- Nothing is mapped below a layout.
pub backing-below : (va lo : ℕ) (vs : List Vme) → Layout lo vs → va < lo → backing va vs ≡ none
unfolding backing
backing-below va lo [] l h = refl
backing-below va lo (v ∷ vs) l h = ground (arith, backing-below va v.end vs)
