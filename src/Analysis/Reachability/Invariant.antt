-- ===== src/Analysis/Reachability/Invariant.antt =====
-- The invariant of the search for blocks.
use burnout_3_recompiled.Common.{
  ℕ, true, false, Option, some, none, List, [], ◌∷◌, ◌++◌, ◌≡◌, refl, sym, ◌∙◌, ◌||◌, arith,
  Bool-cases, inl, inr, contains, distinct, contains-append, distinct-concat, All, All-append,
}
use mathlib.Core.List.{append_assoc}
use burnout_3_recompiled.Runtime.MemoryMap.{Ps2MemoryMap}
use burnout_3_recompiled.Analysis.ControlFlow.{
  R5900BasicBlock, R5900ControlFlowEdge, R5900ControlFlowError, R5900BasicBlockResult,
  analyze_r5900_basic_block,
}
use burnout_3_recompiled.Analysis.Reachability.{R5900ReachabilityOptions}
use burnout_3_recompiled.Analysis.Reachability.View.{
  View, starts, followed_target, add_target, add_targets,
}

All-contains_cons :
    (sch xs : List ℕ) (x : ℕ)
    → All (λ t. contains t sch ≡ true) xs
    → All (λ t. contains t (x ∷ sch) ≡ true) xs
All-contains_cons sch [] x h = tt
All-contains_cons sch (y ∷ xs) x h = (ground (arith, h.0), All-contains_cons sch xs x h.1)

not_contained :
    (sch xs : List ℕ) (t : ℕ)
    → All (λ u. contains u sch ≡ true) xs
    → contains t sch ≡ false
    → contains t xs ≡ false
not_contained sch [] t h new = refl
not_contained sch (y ∷ xs) t h new = ground (arith, h.0, not_contained sch xs t h.1 new)

abbrev pub ScheduledIn : List ℕ → Option ℕ → Type 0
ScheduledIn sch none = Unit
ScheduledIn sch (some t) = contains t sch ≡ true

module _ (memory : Ps2MemoryMap) (options : R5900ReachabilityOptions) (entry : ℕ) where
  abbrev pub IsBlockAt : ℕ → R5900BasicBlock → Type 0
  IsBlockAt pc block =
      analyze_r5900_basic_block memory pc options.block_options
      ≡ R5900BasicBlockResult.succeed block

  -- The addresses that the followed edges lead to from the entry point.
  pub data Reaches : ℕ → Type 0 where
    at_entry : Reaches entry
    along :
        {pc : ℕ} {block : R5900BasicBlock}
        → Reaches pc
        → IsBlockAt pc block
        → (before : List R5900ControlFlowEdge) (edge : R5900ControlFlowEdge)
          (after : List R5900ControlFlowEdge)
        → block.edges ≡ before ++ edge ∷ after
        → (target : ℕ) → followed_target options.follow_direct_calls edge ≡ some target
        → Reaches target

  abbrev pub IsFound : R5900BasicBlock → Type 0
  IsFound block = IsBlockAt block.start_pc block × Reaches block.start_pc

  abbrev pub FailsAt : ℕ → R5900ControlFlowError → Type 0
  FailsAt pc e =
      analyze_r5900_basic_block memory pc options.block_options ≡ R5900BasicBlockResult.fail e

  -- An address that is reached, at which there is no block.
  abbrev pub IsUnfounded : ℕ → Type 0
  IsUnfounded pc = ((e : R5900ControlFlowError) × FailsAt pc e) × Reaches pc

  -- Every followed target of the block was scheduled.
  abbrev pub IsClosed : List ℕ → R5900BasicBlock → Type 0
  IsClosed sch block =
      All
        (λ (edge : R5900ControlFlowEdge).
          ScheduledIn sch (followed_target options.follow_direct_calls edge))
        block.edges

  -- What was scheduled is a block, or waits, or failed.
  abbrev pub IsCovered : View → ℕ → Type 0
  IsCovered v t =
      contains t (starts v.blocks) || (contains t v.waiting || contains t v.failed) ≡ true

  pub record Inv (v : View) : Type 0 where
    pub known : All (λ t. contains t v.scheduled ≡ true) (starts v.blocks ++ v.waiting)
    pub apart : distinct (starts v.blocks ++ v.waiting) ≡ true
    pub covered : (t : ℕ) → contains t v.scheduled ≡ true → IsCovered v t
    pub entered : contains entry v.scheduled ≡ true
    pub all_found : All IsFound v.blocks
    pub reached : All Reaches v.waiting
    pub all_failed : All IsUnfounded v.failed

  abbrev pub Reaches? : Option ℕ → Type 0
  Reaches? none = Unit
  Reaches? (some t) = Reaches t

  add_target-Inv : (t : Option ℕ) (v : View) → Reaches? t → Inv v → Inv (add_target t v)
  unfolding add_target
  add_target-Inv none v r h = h
  add_target-Inv (some t) v r h = elim (Bool-cases (contains t v.scheduled)) [
    | inl old ↦ rw old h
    | inr new ↦ rw new (record {
      known = rw (← append_assoc (starts v.blocks) v.waiting (t ∷ [])) (
          All-append _ (starts v.blocks ++ v.waiting) (t ∷ [])
            (All-contains_cons v.scheduled _ t h.known) (ground arith, tt));
      apart =
          rw (← append_assoc (starts v.blocks) v.waiting (t ∷ []))
            (distinct-concat _ t h.apart (not_contained v.scheduled _ t h.known new));
      covered = λ u k. ground (arith, h.covered u, contains-append u v.waiting (t ∷ []));
      entered = ground (arith, h.entered);
      all_found = h.all_found;
      reached = All-append Reaches v.waiting (t ∷ []) h.reached (r, tt);
      all_failed = h.all_failed;
    })
  ]

  pub add_targets-Inv :
      (edges : List R5900ControlFlowEdge) (v : View)
      → All
          (λ (edge : R5900ControlFlowEdge).
            Reaches? (followed_target options.follow_direct_calls edge))
          edges
      → Inv v
      → Inv (add_targets options.follow_direct_calls edges v)
  unfolding add_targets
  add_targets-Inv [] v r h = h
  add_targets-Inv (edge ∷ rest) v r h =
      add_targets-Inv rest _ r.1
        (add_target-Inv (followed_target options.follow_direct_calls edge) v r.0 h)

  Reaches?-if : (t : Option ℕ) → ((u : ℕ) → t ≡ some u → Reaches u) → Reaches? t
  Reaches?-if none f = tt
  Reaches?-if (some t) f = f t refl

  pub targets-Reaches :
      {pc : ℕ} {block : R5900BasicBlock} (before edges : List R5900ControlFlowEdge)
      → Reaches pc
      → IsBlockAt pc block
      → block.edges ≡ before ++ edges
      → All
          (λ (edge : R5900ControlFlowEdge).
            Reaches? (followed_target options.follow_direct_calls edge))
          edges
  targets-Reaches before [] r is e = tt
  targets-Reaches before (edge ∷ rest) r is e = (
    Reaches?-if (followed_target options.follow_direct_calls edge)
        (λ t f. along r is before edge rest e t f),
    targets-Reaches (before ++ edge ∷ []) rest r is
        (e ∙ sym (append_assoc before (edge ∷ []) rest)),
  )
