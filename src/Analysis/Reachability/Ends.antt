-- ===== src/Analysis/Reachability/Ends.antt =====
-- The search ends: every round takes a target off the worklist, and only a new block adds any.
use burnout_3_recompiled.Common.{
  ℕ, zero, suc, Option, some, none, ap, leb→le, contains, if_both, Bool, true, false, List, [], ◌∷◌,
  ◌++◌, ◌≡◌, refl, ◌+◌, ◌-◌, ◌*◌, ◌≤◌, ◌<◌, ◌==◌, arith, leb, length, length-append, Bool-cases,
  List-cases, inl, inr,
}
use burnout_3_recompiled.Runtime.MemoryMap.{Ps2MemoryMap}
use burnout_3_recompiled.Runtime.MemoryMap.Spans.{IsMap}
use burnout_3_recompiled.Analysis.ControlFlow.{
  R5900BasicBlock, R5900ControlFlowEdge, R5900BasicBlockResult, R5900ControlFlowError,
  R5900EdgeKind, analyze_r5900_basic_block,
}
use burnout_3_recompiled.Analysis.ControlFlow.Found.{
  Result-cases, IsBlock-edges, analyze_r5900_basic_block-IsBlock,
}
use burnout_3_recompiled.Analysis.Reachability.{
  R5900ReachabilityOptions, R5900ReachabilityResult, PendingTarget, Search, add_call, schedule,
  visit_edge, visit_edges, add_block, search_loop, search_start, analyze_r5900_reachability,
  add_issue, detect_overlapping_leaders, terminator_pc, R5900ReachabilityGraph,
  R5900ReachabilityError, R5900ReachabilityIssueKind as Issue,
}

-- An edge adds at most one target and leaves the blocks as they are.
abbrev Grows : ℕ → Search → Search → Type 0
Grows n s t = (length t.worklist ≤ length s.worklist + n) × (t.graph.blocks ≡ s.graph.blocks)

schedule-Grows :
    (source : ℕ) (target : Option ℕ) (s : Search) → Grows 1 s (schedule source target s)
unfolding schedule
schedule-Grows source none s = (omega arith, refl)
schedule-Grows source (some t) s = elim (Bool-cases (contains t s.scheduled)) [
  | inl old ↦ rw old (omega arith, refl)
  | inr new ↦ rw new (
    omega (
      arith,
      length-append s.worklist (record { pc = t; source_block = source; is_entry = false } ∷ []),
    ),
    refl,
  )
]

visit_edge-Grows :
    (follow : Bool) (source call_pc : ℕ) (k : R5900EdgeKind) (edge : R5900ControlFlowEdge)
    (s : Search)
    → edge.kind ≡ k
    → Grows 1 s (visit_edge follow source call_pc edge s)
unfolding visit_edge
visit_edge-Grows follow source call_pc R5900EdgeKind.direct_call edge s e = rw e (
    if_both (Grows 1 s) follow
      (schedule-Grows source edge.target (add_call source call_pc false edge.target s))
      (omega arith, refl))
visit_edge-Grows follow source call_pc R5900EdgeKind.indirect_call edge s e =
    rw e (omega arith, refl)
visit_edge-Grows follow source call_pc R5900EdgeKind.indirect_jump edge s e =
    rw e (omega arith, refl)
visit_edge-Grows follow source call_pc _ edge s e = rw e (schedule-Grows source edge.target s)

visit_edges-Grows :
    (follow : Bool) (source call_pc : ℕ) (edges : List R5900ControlFlowEdge) (s : Search)
    → Grows (length edges) s (visit_edges follow source call_pc edges s)
unfolding visit_edges
visit_edges-Grows follow source call_pc [] s = (omega arith, refl)
visit_edges-Grows follow source call_pc (edge ∷ rest) s = ground (
  arith,
  visit_edge-Grows follow source call_pc edge.kind edge s refl,
  visit_edges-Grows follow source call_pc rest (visit_edge follow source call_pc edge s),
)

-- The search returns a graph or an error with a property; it does not run out of fuel.
pub data Ends (Q : R5900ReachabilityGraph → Type 0) (F : R5900ReachabilityError → Type 0)
    : R5900ReachabilityResult → Type 0 where
  ended :
      {graph : R5900ReachabilityGraph} → Q graph → Ends Q F (R5900ReachabilityResult.succeed graph)
  refused : {e : R5900ReachabilityError} → F e → Ends Q F (R5900ReachabilityResult.fail e)

abbrev pub limit_issue : Search → PendingTarget → R5900ReachabilityGraph
limit_issue s pending =
    add_issue s.graph Issue.block_limit_reached pending.source_block (some pending.pc) none
      R5900ControlFlowError.none

abbrev pub failed_target :
    Search → PendingTarget → List PendingTarget → R5900ControlFlowError → Search
failed_target s pending rest e = record s {
  worklist = rest;
  graph =
      add_issue s.graph Issue.target_analysis_failed pending.source_block (some pending.pc) none e;
}

module _ (memory : Ps2MemoryMap) (options : R5900ReachabilityOptions) where
  -- A round keeps `P`; at an end it gives `Q`, or `F` of the error.
  pub record Keeps (P : Search → Type 0) (Q : R5900ReachabilityGraph → Type 0)
      (F : R5900ReachabilityError → Type 0) : Type 0 where
    pub empty : (s : Search) → P s → s.worklist ≡ [] → Q (detect_overlapping_leaders s.graph)
    pub full :
        (s : Search) (pending : PendingTarget) (rest : List PendingTarget)
        → P s
        → s.worklist ≡ pending ∷ rest
        → options.max_blocks ≤ length s.graph.blocks
        → Q (detect_overlapping_leaders (limit_issue s pending))
    pub found :
        (s : Search) (pending : PendingTarget) (rest : List PendingTarget) (block : R5900BasicBlock)
        → P s
        → s.worklist ≡ pending ∷ rest
        → length s.graph.blocks < options.max_blocks
        → analyze_r5900_basic_block memory pending.pc options.block_options
          ≡ R5900BasicBlockResult.succeed block
        → P (add_block options.follow_direct_calls block (record s { worklist = rest }))
    pub missing :
        (s : Search) (pending : PendingTarget) (rest : List PendingTarget)
        (e : R5900ControlFlowError)
        → P s
        → s.worklist ≡ pending ∷ rest
        → analyze_r5900_basic_block memory pending.pc options.block_options
          ≡ R5900BasicBlockResult.fail e
        → pending.is_entry ≡ false
        → P (failed_target s pending rest e)
    pub entry :
        (s : Search) (pending : PendingTarget) (rest : List PendingTarget)
        (e : R5900ControlFlowError)
        → P s
        → s.worklist ≡ pending ∷ rest
        → analyze_r5900_basic_block memory pending.pc options.block_options
          ≡ R5900BasicBlockResult.fail e
        → pending.is_entry ≡ true
        → F R5900ReachabilityError.entry_analysis_failed

  -- The targets that are waiting, and two for each block that there is room for.
  abbrev pub work : Search → ℕ
  work s = length s.worklist + 2 * (options.max_blocks - length s.graph.blocks)

  module _ (valid : IsMap memory) where
    work-add_block :
        (s : Search) (pending : PendingTarget) (rest : List PendingTarget) (block : R5900BasicBlock)
        → s.worklist ≡ pending ∷ rest
        → length s.graph.blocks < options.max_blocks
        → analyze_r5900_basic_block memory pending.pc options.block_options
          ≡ R5900BasicBlockResult.succeed block
        → work (add_block options.follow_direct_calls block (record s { worklist = rest })) < work s
    unfolding add_block
    work-add_block s pending rest block e room analysed =
        let graph = s.graph in
        let grows =
          visit_edges-Grows options.follow_direct_calls block.start_pc (terminator_pc block)
            block.edges
            (record s {
              worklist = rest;
              graph = record graph { blocks = graph.blocks ++ block ∷ [] };
            }) in
        omega (
          arith,
          grows.0,
          ap length grows.1,
          ap length e,
          length-append graph.blocks (block ∷ []),
          IsBlock-edges _ _ _ _ (
              analyze_r5900_basic_block-IsBlock memory pending.pc options.block_options valid
                analysed),
        )

    module _ {P : Search → Type 0} {Q : R5900ReachabilityGraph → Type 0}
        {F : R5900ReachabilityError → Type 0} (keeps : Keeps P Q F) where
      pub search_loop-Ends :
          (fuel : ℕ) (s : Search)
          → work s < fuel
          → P s
          → Ends Q F (search_loop memory options fuel s)
      unfolding search_loop
      search_loop-Ends zero s h p = absurd (omega arith)
      search_loop-Ends (suc fuel) s h p = elim (List-cases s.worklist) [
        | inl none_left ↦ rw (none_left, search_loop) (ended (keeps.empty s p none_left))
        | inr (pending, rest, e) ↦
            elim (Bool-cases (leb options.max_blocks (length s.graph.blocks))) [
              | inl reached ↦
                  rw (e, search_loop)
                    (rw (reached) (ended (keeps.full s pending rest p e (leb→le _ _ reached))))
              | inr room ↦
                  let below : length s.graph.blocks < options.max_blocks = ground arith in
                  elim (Result-cases
                    (analyze_r5900_basic_block memory pending.pc options.block_options)) [
                      | inl (block, analysed) ↦
                          rw (e, search_loop)
                            (rw (room) (
                              rw (analysed) (
                                search_loop-Ends fuel
                                  (add_block options.follow_direct_calls block
                                    (record s { worklist = rest }))
                                  (omega
                                    (arith, work-add_block s pending rest block e below analysed))
                                  (keeps.found s pending rest block p e below analysed))))
                      | inr (why, failed) ↦ elim (Bool-cases pending.is_entry) [
                        | inl first ↦
                            rw (e, search_loop)
                              (rw (room) (
                                rw (failed) (
                                  rw (first)
                                    (refused (keeps.entry s pending rest why p e failed first)))))
                        | inr later ↦
                            rw (e, search_loop)
                              (rw (room) (
                                rw (failed) (
                                  rw (later) (
                                    search_loop-Ends fuel (failed_target s pending rest why)
                                      (omega (arith, ap length e))
                                      (keeps.missing s pending rest why p e failed later)))))
                      ]
                    ]
            ]
      ]

      -- The fuel that the search is given is enough.
      pub analyze_r5900_reachability-Ends :
          (entry_pc : ℕ)
          → P (search_start entry_pc)
          → (options.max_blocks ≡ 0 → F R5900ReachabilityError.invalid_block_limit)
          → Ends Q F (analyze_r5900_reachability memory options entry_pc)
      unfolding analyze_r5900_reachability
      analyze_r5900_reachability-Ends entry_pc p f = elim (Bool-cases (options.max_blocks == 0)) [
        | inl none_allowed ↦ rw none_allowed (refused (f (ground arith)))
        | inr some_allowed ↦
            rw some_allowed (
              search_loop-Ends (2 * options.max_blocks + 2) (search_start entry_pc) (omega arith) p)
      ]
