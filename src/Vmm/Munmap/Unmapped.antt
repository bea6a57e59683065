-- ===== src/Vmm/Munmap/Unmapped.antt =====
-- What `VMM::munmap` does to the list of private mappings and to the pages.
use p.Prelude.{
  ℕ, ◌+◌, ◌-◌, ◌%◌, ◌^◌, ◌≤◌, ◌<◌, ◌≡◌, refl, ◌↔◌, ◌⊎◌, inl, inr, Bool, true, false, not, ◌&&◌,
  none, List, [], ◌∷◌, arith, ltb, leb, ◌==◌, if◌then◌else◌, Bool-cases, length, add64,
}
use p.Vmm.Vme.{Vme, round_up_page, backing, Layout, backing-below}
use p.Vmm.Mmap.{Maps, is_shared_address}
use p.Vmm.Mmap.Placed.{round_up_page_lem}
use p.Vmm.Munmap.{Cut, keep, overlap_start, overlap_end, cut_record, munmap}
use p.Vmm.Munmap.Steps.{
  Private, Meets, Met, os, oe, loop, loop_induction, cut_record-Layout, cut_record-backing,
}

cut_record-Private :
    (os oe : ℕ) (v : Vme) (rest : List Vme)
    → v.shared ≡ false
    → Private rest
    → Private (cut_record os oe v rest)
unfolding cut_record
cut_record-Private os oe v rest h r = elim (Bool-cases (os == v.start && oe == v.end)) [
  | inl e ↦ rw e r
  | inr e ↦ rw e (elim (Bool-cases (os == v.start)) [
    | inl f ↦ rw f (h, r)
    | inr f ↦
        rw f (elim (Bool-cases (oe == v.end)) [ inl g ↦ rw g (h, r) | inr g ↦ rw g (h, (h, r)) ])
  ])
]

module _ {ℓ} {S : Type ℓ} (unmap_range : ℕ → ℕ → S → S) (start end : ℕ) where
  -- The ranges that are given back, in order: the overlap of each record that the range meets.
  abbrev pub overlaps : List Vme → List (ℕ × ℕ)
  overlaps [] = []
  overlaps (v ∷ vs) =
      if ltb v.start end && ltb start v.end
      then (overlap_start start v, overlap_end end v) ∷ overlaps vs
      else overlaps vs

  abbrev pub unmap_all : List (ℕ × ℕ) → S → S
  unmap_all [] s = s
  unmap_all ((a, b) ∷ r) s = unmap_all r (unmap_range a b s)

  -- What one run has done.
  pub record Done (touched : Bool) (lo : ℕ) (vs : List Vme) (s : S) (c : Cut S) : Type ℓ where
    pub refused : c.refused ≡ false
    pub layout : Layout lo c.vmes
    pub private_list : Private c.vmes
    pub backed :
        (va : ℕ) → backing va c.vmes ≡ (if leb start va && ltb va end then none else backing va vs)
    pub pages : c.pages ≡ unmap_all (overlaps vs) s
    pub touches : (c.touched ≡ true) ↔ ((touched ≡ true) ⊎ Meets start end vs)

  overlaps-above :
      (lo : ℕ) (vs : List Vme) → Layout lo vs → end ≤ lo → (overlaps vs ≡ []) × ¬ Meets start end vs
  overlaps-above lo [] l h = (refl, λ m. m)
  overlaps-above lo (v ∷ vs) l h = ground (arith, overlaps-above v.end vs l.5)

  nil-Done :
      (touched : Bool) (lo : ℕ) (s : S)
      → Done touched lo [] s (record { refused = false; touched = touched; vmes = []; pages = s })
  unfolding backing
  nil-Done touched lo s = record {
    refused = refl;
    layout = tt;
    private_list = tt;
    backed = λ va. ground arith;
    pages = refl;
    touches = (inl, ground arith);
  }

  stop-Done :
      (touched : Bool) (lo : ℕ) (v : Vme) (vs : List Vme) (s : S)
      → Layout lo (v ∷ vs)
      → Private (v ∷ vs)
      → end ≤ v.start
      → Done touched lo
          (v ∷ vs)
          s
          (record { refused = false; touched = touched; vmes = v ∷ vs; pages = s })
  stop-Done touched lo v vs s l pr h = record {
    refused = refl;
    layout = l;
    private_list = pr;
    backed = λ va. ground (arith, backing-below va v.start (v ∷ vs));
    pages = ground (arith, overlaps-above v.end vs l.5);
    touches = ground (arith, overlaps-above v.end vs l.5);
  }

  kept-Done :
      (touched : Bool) (lo : ℕ) (v : Vme) (vs : List Vme) (s : S) (c : Cut S)
      → Layout lo (v ∷ vs)
      → Private (v ∷ vs)
      → v.start < end
      → v.end ≤ start
      → Done touched v.end vs s c
      → Done touched lo (v ∷ vs) s (keep unmap_range v c)
  unfolding backing
  kept-Done touched lo v vs s c l pr h k d = record {
    refused = d.refused;
    layout = ground (arith, d.layout);
    private_list = (pr.0, d.private_list);
    backed = λ va. ground (arith, d.backed va);
    pages = ground (arith, d.pages);
    touches = ground (arith, d.touches);
  }

  cuts-Done :
      (touched : Bool) (lo : ℕ) (v : Vme) (vs : List Vme) (s : S) (c : Cut S)
      → start % 4096 ≡ 0
      → end % 4096 ≡ 0
      → Layout lo (v ∷ vs)
      → Private (v ∷ vs)
      → v.start < end
      → start < v.end
      → Met unmap_range start end v
      → Done true v.end vs (unmap_range (overlap_start start v) (overlap_end end v) s) c
      → Done touched lo
          (v ∷ vs)
          s
          (record c { vmes = cut_record (overlap_start start v) (overlap_end end v) v c.vmes })
  unfolding backing
  cuts-Done touched lo v vs s c a b l pr h k m d = record {
    refused = d.refused;
    layout =
        cut_record-Layout lo o e v c.vmes (ground arith) d.layout m.left m.inner m.right
          (ground arith) (ground arith);
    private_list = cut_record-Private o e v c.vmes pr.0 d.private_list;
    backed = λ va.
        ground (arith, cut_record-backing va o e v c.vmes, d.backed va, backing-below va v.end vs);
    pages = ground (arith, d.pages);
    touches = ground (arith, d.touches);
  }
    where
      o : ℕ
      o = overlap_start start v

      e : ℕ
      e = overlap_end end v

  -- Every run over a layout of private records does this.
  loop-Done :
      (touched : Bool) (lo : ℕ) (vs : List Vme) (s : S)
      → start < end
      → start % 4096 ≡ 0
      → end % 4096 ≡ 0
      → Layout lo vs
      → Private vs
      → Done touched lo vs s (loop unmap_range start end touched vs s)
  loop-Done touched lo vs s lt a b =
      loop_induction unmap_range start end Done nil-Done stop-Done kept-Done
        (λ t l v r u c. cuts-Done t l v r u c a b) touched lo vs s lt

module _ {ℓ} {S : Type ℓ} (unmap_range : ℕ → ℕ → S → S) (hhdm_offset start length : ℕ) where
  abbrev pub run : ℕ → Maps → S → Cut S
  run end m s = loop unmap_range start end false m.private_vmes s

  munmap-runs :
      (m : Maps) (s : S)
      → start % 4096 ≡ 0
      → 0 < length
      → start + round_up_page length < 2 ^ 64
      → is_shared_address hhdm_offset start ≡ false
      → munmap unmap_range hhdm_offset start length m s ≡ (
          let c = run (start + round_up_page length) m s in
          (not c.refused && c.touched, record m { private_vmes = c.vmes }, c.pages))
  unfolding munmap
  munmap-runs m s a pos fits priv =
      let e : add64 start (round_up_page length) ≡ start + round_up_page length = omega arith in
      let f : (start % 4096 == 0) ≡ true = ground arith in
      let g : (length == 0) ≡ false = ground arith in
      let h : ltb (start + round_up_page length) start ≡ false = ground arith in
      simp (e, f, g, h, priv)

-- `munmap` of whole pages: for an aligned start, a length that is not 0 and whose end does not
-- pass 2 ^ 64, a start outside the shared window, and a list of private records in order,
-- afterwards nothing in the range is mapped and every other address has the backing that it had;
-- the list stays in order and private; the result is 0 exactly when the range met a mapping; the
-- pages given back are those of each mapping's overlap with the range, in order; and nothing else
-- changes.
pub munmap_lem {ℓ} :
    {S : Type ℓ} (unmap_range : ℕ → ℕ → S → S) (hhdm_offset start length lo : ℕ) (m : Maps) (s : S)
    → start % 4096 ≡ 0
    → 0 < length
    → length ≤ 2 ^ 64 - 4096
    → start + round_up_page length < 2 ^ 64
    → is_shared_address hhdm_offset start ≡ false
    → Layout lo m.private_vmes
    → Private m.private_vmes
    → let end = start + round_up_page length in
      let (ok, m', s') = munmap unmap_range hhdm_offset start length m s in
      ((va : ℕ)
        → backing va m'.private_vmes
          ≡ (if leb start va && ltb va end then none else backing va m.private_vmes))
      × Layout lo m'.private_vmes
      × Private m'.private_vmes
      × ((ok ≡ true) ↔ Meets start end m.private_vmes)
      × (s' ≡ unmap_all unmap_range start end (overlaps unmap_range start end m.private_vmes) s)
      × (m' ≡ record m { private_vmes = m'.private_vmes })
munmap_lem unmap_range hhdm_offset start length lo m s a pos small fits priv l pr =
    rw (munmap-runs unmap_range hhdm_offset start length m s a pos fits priv)
      (d.backed, d.layout, d.private_list, ground (arith, d.refused, d.touches), d.pages, refl)
  where
    r :
        (length ≤ round_up_page length)
        × (round_up_page length < length + 4096)
        × (round_up_page length % 4096 ≡ 0)
    r = round_up_page_lem length small

    d :
        Done unmap_range start
          (start + round_up_page length)
          false
          lo
          m.private_vmes
          s
          (run unmap_range hhdm_offset start length (start + round_up_page length) m s)
    d =
        loop-Done unmap_range start (start + round_up_page length) false lo m.private_vmes s
          (omega (arith, r)) a (omega (arith, r)) l pr
