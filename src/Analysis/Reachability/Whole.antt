-- ===== src/Analysis/Reachability/Whole.antt =====
-- When no target waits, what the entry point reaches is known.
use burnout_3_recompiled.Common.{
  ℕ, true, List, [], ◌∷◌, ◌≡◌, sym, ap, ◌∙◌, ◌==◌, arith, Bool-cases, inl, inr, contains, All,
  All-middle, All-contains, subst,
}
use burnout_3_recompiled.Runtime.MemoryMap.{Ps2MemoryMap}
use burnout_3_recompiled.Analysis.ControlFlow.{
  R5900BasicBlock, R5900ControlFlowEdge, R5900BasicBlockResult,
}
use burnout_3_recompiled.Analysis.Reachability.{R5900ReachabilityOptions, Search}
use burnout_3_recompiled.Analysis.Reachability.View.{
  view, starts, pcs, failed_targets, followed_target,
}
use burnout_3_recompiled.Analysis.Reachability.Invariant.{
  Reaches, IsBlockAt, IsFound, IsClosed, IsUnfounded, ScheduledIn,
}
use burnout_3_recompiled.Analysis.Reachability.Rounds.{IsView}
use burnout_3_recompiled.Analysis.Reachability.Graph.{Known}

module _ (memory : Ps2MemoryMap) (options : R5900ReachabilityOptions) (entry : ℕ) where
  covered-Known :
      (s : Search) (t : ℕ)
      → IsView memory options entry (view s)
      → s.worklist ≡ []
      → contains t s.scheduled ≡ true
      → Known s.graph t
  covered-Known s t h e k = ground (arith, h.inv.covered t k, ap (λ ws. contains t (pcs ws)) e)

  -- The block of an address that is a start.
  contains-IsClosed :
      (blocks : List R5900BasicBlock) (sch : List ℕ) (pc : ℕ)
      → All (IsFound memory options entry) blocks
      → All (IsClosed memory options entry sch) blocks
      → contains pc (starts blocks) ≡ true
      → (b : R5900BasicBlock) × IsBlockAt memory options entry pc b
        × IsClosed memory options entry sch b
  contains-IsClosed [] sch pc found closed k = absurd (ground (arith, k))
  contains-IsClosed (b ∷ rest) sch pc found closed k = elim (Bool-cases (b.start_pc == pc)) [
    | inl here ↦ (
      b,
      subst (λ q. IsBlockAt memory options entry q b) (ground (arith, here)) found.0.0,
      closed.0,
    )
    | inr there ↦ contains-IsClosed rest sch pc found.1 closed.1 (ground (arith, k))
  ]

  block_of : R5900BasicBlock → R5900BasicBlockResult → R5900BasicBlock
  block_of d (R5900BasicBlockResult.succeed b) = b
  block_of d (R5900BasicBlockResult.fail e) = d

  -- What the entry point reaches is known when no target waits.
  pub IsView-Known :
      (s : Search)
      → IsView memory options entry (view s)
      → s.worklist ≡ []
      → {t : ℕ} → Reaches memory options entry t
      → Known s.graph t
  unfolding block_of
  IsView-Known s h e Reaches.at_entry = covered-Known s entry h e h.inv.entered
  IsView-Known s h e
        (Reaches.along {pc = pc} {block = block} r is before edge after edges target follows) =
      elim (Bool-cases (contains pc (starts s.graph.blocks))) [
        | inl start ↦
            let at =
              contains-IsClosed s.graph.blocks s.scheduled pc h.inv.all_found h.closed start in
            let same : at.0 ≡ block = ap (block_of block) (sym at.1 ∙ is) in
            let closed = All-middle _ before edge after (
              subst
                (All (λ (x : R5900ControlFlowEdge).
                  ScheduledIn s.scheduled (followed_target options.follow_direct_calls x)))
                (ap (λ (b : R5900BasicBlock). b.edges) same ∙ edges) at.2) in
            covered-Known s target h e (subst (ScheduledIn s.scheduled) follows closed)
        | inr unfounded ↦
            let fails =
              All-contains (IsUnfounded memory options entry) (failed_targets s.graph.issues) pc
                h.inv.all_failed (ground (arith, IsView-Known s h e r)) in
            absurd (cc (fails.0.1, is))
      ]
