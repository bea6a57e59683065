-- ===== src/Vmm/Munmap/Steps.antt =====
-- The loop of `VMM::munmap`, one record at a time, and induction along it.
use p.Prelude.{
  ℕ, ◌%◌, ◌^◌, ◌≤◌, ◌<◌, ◌≡◌, refl, ◌⊎◌, inl, inr, Bool, true, false, ◌&&◌, some, List, [], ◌∷◌,
  arith, dec_le, ltb, leb, ◌==◌, if◌then◌else◌, Bool-cases,
}
use p.Vmm.Vme.{Vme, source_of, backing, Layout, covers, Layout-weaken}
use p.Prelude.{le→leb}
use p.Vmm.Munmap.{Cut, keep, overlap_start, overlap_end, cut_record, cut_loop}

-- No record of a private list is marked shared.
abbrev pub Private : List Vme → Type 0
Private [] = Unit {0}
Private (v ∷ vs) = (v.shared ≡ false) × Private vs

-- Some byte of a range is mapped.
abbrev pub Meets : ℕ → ℕ → List Vme → Type 0
Meets start end [] = ⊥
Meets start end (v ∷ vs) = ((start < v.end) × (v.start < end)) ⊎ Meets start end vs

pub cut_record-Layout :
    (lo os oe : ℕ) (v : Vme) (rest : List Vme)
    → Layout lo (v ∷ [])
    → Layout v.end rest
    → v.start ≤ os
    → os < oe
    → oe ≤ v.end
    → os % 4096 ≡ 0
    → oe % 4096 ≡ 0
    → Layout lo (cut_record os oe v rest)
unfolding cut_record
cut_record-Layout lo os oe v rest l lr h1 h2 h3 a b =
    elim (Bool-cases (os == v.start && oe == v.end)) [
      | inl e ↦ rw e (Layout-weaken v.end lo rest (omega arith) lr)
      | inr e ↦ rw e (elim (Bool-cases (os == v.start)) [
        | inl f ↦ rw f (ground arith)
        | inr f ↦ rw f (elim (Bool-cases (oe == v.end)) [
          | inl g ↦ rw g (ground (arith, Layout-weaken v.end os rest))
          | inr g ↦ rw g (ground arith)
        ])
      ])
    ]

pub cut_record-backing :
    (va os oe : ℕ) (v : Vme) (rest : List Vme)
    → v.start < v.end
    → v.end < 2 ^ 64
    → v.start ≤ os
    → os < oe
    → oe ≤ v.end
    → backing va (cut_record os oe v rest) ≡ (
        if covers v va
        then (if leb os va && ltb va oe then backing va rest else some (source_of v va))
        else backing va rest)
unfolding cut_record backing
cut_record-backing va os oe v rest h0 h64 h1 h2 h3 = ground arith

module _ {ℓ} {S : Type ℓ} (unmap_range : ℕ → ℕ → S → S) (start end : ℕ) where
  abbrev pub loop : Bool → List Vme → S → Cut S
  loop = cut_loop unmap_range start end

  cut_loop-nil :
      (touched : Bool) (s : S)
      → loop touched [] s ≡ record { refused = false; touched = touched; vmes = []; pages = s }
  unfolding cut_loop
  cut_loop-nil touched s = refl

  cut_loop-stop :
      (touched : Bool) (v : Vme) (vs : List Vme) (s : S)
      → end ≤ v.start
      → loop touched (v ∷ vs) s
        ≡ record { refused = false; touched = touched; vmes = v ∷ vs; pages = s }
  unfolding cut_loop
  cut_loop-stop touched v vs s h = rw (le→leb end v.start h)

  cut_loop-keep :
      (touched : Bool) (v : Vme) (vs : List Vme) (s : S)
      → v.start < end
      → v.end ≤ start
      → loop touched (v ∷ vs) s ≡ keep unmap_range v (loop touched vs s)
  unfolding cut_loop
  cut_loop-keep touched v vs s h k =
      let e : leb end v.start ≡ false = ground arith in rw (e, le→leb v.end start k)

  abbrev pub os : Vme → ℕ
  os = overlap_start start

  abbrev pub oe : Vme → ℕ
  oe = overlap_end end

  -- A record that the range meets, with the order that its cut keeps.
  pub record Met (v : Vme) : Type 0 where
    pub left : v.start ≤ os v
    pub inner : os v < oe v
    pub right : oe v ≤ v.end
    pub in_start : start ≤ os v
    pub in_end : oe v ≤ end

  met : (v : Vme) → v.start < end → start < v.end → v.start < v.end → start < end → Met v
  met v h k l m = ground arith

  cut_loop-cut :
      (touched : Bool) (v : Vme) (vs : List Vme) (s : S)
      → v.start < end
      → start < v.end
      → v.shared ≡ false
      → Met v
      → loop touched (v ∷ vs) s ≡ (
          let cut = loop true vs (unmap_range (os v) (oe v) s) in
          record cut { vmes = cut_record (os v) (oe v) v cut.vmes })
  unfolding cut_loop
  cut_loop-cut touched v vs s h k priv m =
      let e : leb end v.start ≡ false = ground arith in
      let f : leb v.end start ≡ false = ground arith in
      let g : leb (oe v) (os v) ≡ false = ground (arith, m.inner) in simp (e, f, priv, g)

  -- Induction along the loop: what holds of the empty list, of a stop, of a record that is kept
  -- and of one that is cut, holds of every run.
  module _ {κ} (P : Bool → ℕ → List Vme → S → Cut S → Type κ)
      (nil : (touched : Bool) (lo : ℕ) (s : S)
        → P touched lo [] s (record { refused = false; touched = touched; vmes = []; pages = s }))
      (stop : (touched : Bool) (lo : ℕ) (v : Vme) (vs : List Vme) (s : S)
        → Layout lo (v ∷ vs)
        → Private (v ∷ vs)
        → end ≤ v.start
        → P touched lo
            (v ∷ vs)
            s
            (record { refused = false; touched = touched; vmes = v ∷ vs; pages = s }))
      (kept : (touched : Bool) (lo : ℕ) (v : Vme) (vs : List Vme) (s : S) (c : Cut S)
        → Layout lo (v ∷ vs)
        → Private (v ∷ vs)
        → v.start < end
        → v.end ≤ start
        → P touched v.end vs s c
        → P touched lo (v ∷ vs) s (keep unmap_range v c))
      (cuts : (touched : Bool) (lo : ℕ) (v : Vme) (vs : List Vme) (s : S) (c : Cut S)
        → Layout lo (v ∷ vs)
        → Private (v ∷ vs)
        → v.start < end
        → start < v.end
        → Met v
        → P true v.end vs (unmap_range (os v) (oe v) s) c
        → P touched lo (v ∷ vs) s (record c { vmes = cut_record (os v) (oe v) v c.vmes })) where
    pub loop_induction :
        (touched : Bool) (lo : ℕ) (vs : List Vme) (s : S)
        → start < end
        → Layout lo vs
        → Private vs
        → P touched lo vs s (loop touched vs s)
    loop_induction touched lo [] s lt l pr = rw (cut_loop-nil touched s) (nil touched lo s)
    loop_induction touched lo (v ∷ vs) s lt l pr = elim (dec_le end v.start) [
      | yes p ↦ rw (cut_loop-stop touched v vs s p) (stop touched lo v vs s l pr p)
      | no p ↦ elim (dec_le v.end start) [
        | yes q ↦ rw (cut_loop-keep touched v vs s (omega arith) q) (
            kept touched lo v vs s (loop touched vs s) l pr (omega arith) q
              (loop_induction touched v.end vs s lt l.5 pr.1))
        | no q ↦
            let m = met v (omega arith) (omega arith) l.1 lt in
            rw (cut_loop-cut touched v vs s (omega arith) (omega arith) pr.0 m) (
              cuts touched lo v vs s (loop true vs (unmap_range (os v) (oe v) s)) l pr (omega arith)
                (omega arith) m
                (loop_induction true v.end vs (unmap_range (os v) (oe v) s) lt l.5 pr.1))
      ]
    ]
