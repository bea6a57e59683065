-- ===== src/Vmm/Fork.antt =====
-- What `fork` copies: `clonePrivateVmes`, `snapshot_for_fork` and `install_fork_state` of
-- kernel/vmm.cc.
use p.Prelude.{
  ℕ, ◌*◌, ◌%◌, ◌^◌, ◌≡◌, refl, ap, ◌∙◌, sym, Option, none, some, List, [], ◌∷◌, Option-cases, inl,
  inr,
}
use mathlib.Core.Option.{some_inj}
use p.Vmm.Vme.{Vme}
use p.Vmm.Mmap.{Maps}
use p.Vmm.PageTable.{Mmu}
use p.Vmm.PageTable.Whole.{snapshot_tables}

-- `clonePrivateVmes`
unfoldable pub clone_vmes : List Vme → List Vme
clone_vmes [] = []
clone_vmes (v ∷ vs) =
    record { start = v.start; end = v.end; shared = v.shared; node = v.node; offset = v.offset }
    ∷ clone_vmes vs

-- `VMM::ForkState`. `cr3` is an address.
pub record ForkState : Type 0 where
  pub cr3 : ℕ
  pub private_vmes : List Vme
  pub heap_start : ℕ
  pub heap_break : ℕ

abbrev pub state_of : ℕ → Maps → ForkState
state_of table maps = record {
  cr3 = table * 2 ^ 12 % 2 ^ 64;
  private_vmes = clone_vmes maps.private_vmes;
  heap_start = maps.heap_start;
  heap_break = maps.heap_break;
}

unfoldable pub snapshot_for_fork : Maps → Mmu → Option (ForkState × Mmu)
snapshot_for_fork maps m = elim (snapshot_tables m) [
  | none ↦ none
  | some (table, m') ↦ some (state_of table maps, m')
]

unfoldable pub install_fork_state : ForkState → Maps → Maps
install_fork_state f m = record m {
  private_vmes = f.private_vmes;
  heap_start = f.heap_start;
  heap_break = f.heap_break;
}

clone_vmes_same : (vs : List Vme) → clone_vmes vs ≡ vs
unfolding clone_vmes
clone_vmes_same [] = refl
clone_vmes_same (v ∷ vs) = ap (λ t. v ∷ t) (clone_vmes_same vs)

-- The child has the mappings and the heap of its parent, and shares the list of shared mappings.
pub install-snapshot :
    (table : ℕ) (parent child : Maps)
    → install_fork_state (state_of table parent) child
      ≡ record parent { shared_vmes = child.shared_vmes }
unfolding install_fork_state
install-snapshot table parent child =
    ap
      (λ (t : List Vme). record child {
        private_vmes = t;
        heap_start = parent.heap_start;
        heap_break = parent.heap_break;
      })
      (clone_vmes_same parent.private_vmes)

-- The outcome of a snapshot, by that of the tables.
pub snapshot_for_fork-some :
    (maps : Maps) (m m' : Mmu) (f : ForkState)
    → snapshot_for_fork maps m ≡ some (f, m')
    → (table : ℕ) × (snapshot_tables m ≡ some (table, m')) × (f ≡ state_of table maps)
unfolding snapshot_for_fork
snapshot_for_fork-some maps m m' f e = elim (Option-cases (snapshot_tables m)) [
  | inl q ↦ absurd (cc (rw (q, snapshot_for_fork) at e))
  | inr ((table, m₁), q) ↦
      let r : (state_of table maps, m₁) ≡ (f, m') = some_inj.0 (rw (q, snapshot_for_fork) at e) in
      (table, q ∙ ap (λ x. some (table, x)) (ap (λ x. x.1) r), sym (ap (λ x. x.0) r))
]
