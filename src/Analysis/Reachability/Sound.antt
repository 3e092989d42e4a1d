-- ===== src/Analysis/Reachability/Sound.antt =====
-- The search of src/analysis/r5900_reachability.cpp finds what the entry point reaches.
use burnout_3_recompiled.Common.{
  ℕ, Bool, true, false, Option, some, none, List, [], ◌∷◌, ◌++◌, ◌≡◌, ◌≢◌, refl, ap, ◌∙◌,
  distinct-append, ◌≤◌, ◌<◌, ◌⊎◌, if_both, arith, Bool-cases, inl, inr, contains, All, All-append,
  any-append, length, length-append, subst,
}
use mathlib.Core.List.{append-nil}
use burnout_3_recompiled.Runtime.MemoryMap.{Ps2MemoryMap}
use burnout_3_recompiled.Runtime.MemoryMap.Spans.{IsMap}
use burnout_3_recompiled.Analysis.ControlFlow.{
  R5900BasicBlock, R5900ControlFlowError, R5900ControlFlowEdge, R5900EdgeKind,
}
use burnout_3_recompiled.Analysis.Reachability.{
  R5900ReachabilityGraph, R5900ReachabilityOptions, R5900ReachabilityError, R5900ReachabilityResult,
  PendingTarget, Search, add_block, schedule, visit_edge, visit_edges, add_call, terminator_pc,
  analyze_r5900_reachability,
}
use burnout_3_recompiled.Analysis.Reachability.Ends.{
  Keeps, Ends, limit_issue, failed_target, analyze_r5900_reachability-Ends,
}
use burnout_3_recompiled.Analysis.Reachability.View.{
  View, view, starts, pcs, failed_targets, failed_targets-append, view-add_block,
  view-failed_target,
}
use burnout_3_recompiled.Analysis.Reachability.Invariant.{Reaches, IsBlockAt, FailsAt}
use burnout_3_recompiled.Analysis.Reachability.Rounds.{
  IsView, found-IsView, missing-IsView, start-IsView, add_targets-blocks,
}
use burnout_3_recompiled.Analysis.Reachability.Whole.{IsView-Known}
use burnout_3_recompiled.Analysis.Reachability.Graph.{
  is_limit, limit_reached, Known, IsGraph, IsWhole, detect_overlapping_leaders-IsGraph,
}

module _ (memory : Ps2MemoryMap) (options : R5900ReachabilityOptions) (entry : ℕ) where
  abbrev IsEntry : PendingTarget → Type 0
  IsEntry pending = (pending.is_entry ≡ false) ⊎ (pending.pc ≡ entry)

  schedule-IsEntry :
      (source : ℕ) (t : Option ℕ) (s : Search)
      → All IsEntry s.worklist
      → All IsEntry (schedule source t s).worklist
  unfolding schedule
  schedule-IsEntry source none s h = h
  schedule-IsEntry source (some t) s h = elim (Bool-cases (contains t s.scheduled)) [
    | inl old ↦ rw old h
    | inr new ↦ rw new (
        All-append IsEntry s.worklist
          (record { pc = t; source_block = source; is_entry = false } ∷ []) h (inl refl, tt))
  ]

  visit_edge-IsEntry :
      (follow : Bool) (source call_pc : ℕ) (k : R5900EdgeKind) (edge : R5900ControlFlowEdge)
      (s : Search)
      → edge.kind ≡ k
      → All IsEntry s.worklist
      → All IsEntry (visit_edge follow source call_pc edge s).worklist
  unfolding visit_edge
  visit_edge-IsEntry follow source call_pc R5900EdgeKind.direct_call edge s e h = rw e (
      if_both (λ (t : Search). All IsEntry t.worklist) follow
        (schedule-IsEntry source edge.target (add_call source call_pc false edge.target s) h) h)
  visit_edge-IsEntry follow source call_pc R5900EdgeKind.indirect_call edge s e h = rw e h
  visit_edge-IsEntry follow source call_pc R5900EdgeKind.indirect_jump edge s e h = rw e h
  visit_edge-IsEntry follow source call_pc _ edge s e h =
      rw e (schedule-IsEntry source edge.target s h)

  visit_edges-IsEntry :
      (follow : Bool) (source call_pc : ℕ) (edges : List R5900ControlFlowEdge) (s : Search)
      → All IsEntry s.worklist
      → All IsEntry (visit_edges follow source call_pc edges s).worklist
  unfolding visit_edges
  visit_edges-IsEntry follow source call_pc [] s h = h
  visit_edges-IsEntry follow source call_pc (edge ∷ rest) s h =
      visit_edges-IsEntry follow source call_pc rest (visit_edge follow source call_pc edge s)
        (visit_edge-IsEntry follow source call_pc edge.kind edge s refl h)

  -- The errors, each with what it says.
  abbrev pub IsRefusal : R5900ReachabilityError → Type 0
  IsRefusal R5900ReachabilityError.none = ⊥
  IsRefusal R5900ReachabilityError.invalid_block_limit = options.max_blocks ≡ 0
  IsRefusal R5900ReachabilityError.entry_analysis_failed =
      (e : R5900ControlFlowError) × FailsAt memory options entry entry e

  record IsRound (s : Search) : Type 0 where
    is_view : IsView memory options entry (view s)
    room : length s.graph.blocks ≤ options.max_blocks
    entries : All IsEntry s.worklist

  IsRound-IsGraph : (s : Search) → IsRound s → IsGraph memory options entry s.graph
  IsRound-IsGraph s p = record {
    all_found = p.is_view.inv.all_found;
    apart = distinct-append (starts s.graph.blocks) (pcs s.worklist) p.is_view.inv.apart;
    limited = p.room;
    all_failed = p.is_view.inv.all_failed;
  }

  limit_issue-IsGraph :
      (s : Search) (pending : PendingTarget)
      → IsGraph memory options entry s.graph
      → IsGraph memory options entry (limit_issue s pending)
  limit_issue-IsGraph s pending h = record {
    all_found = h.all_found;
    apart = h.apart;
    limited = h.limited;
    all_failed =
        rw (failed_targets-append s.graph.issues _, append-nil (failed_targets s.graph.issues))
          h.all_failed;
  }

  found-IsRound :
      (s : Search) (pending : PendingTarget) (rest : List PendingTarget) (block : R5900BasicBlock)
      → IsMap memory
      → IsRound s
      → s.worklist ≡ pending ∷ rest
      → length s.graph.blocks < options.max_blocks
      → IsBlockAt memory options entry pending.pc block
      → IsRound (add_block options.follow_direct_calls block (record s { worklist = rest }))
  unfolding add_block
  found-IsRound s pending rest block valid p e below is =
      let follow = options.follow_direct_calls in
      let blocks : (add_block follow block (record s { worklist = rest })).graph.blocks
          ≡ s.graph.blocks ++ block ∷ [] =
        ap (λ (v : View). v.blocks) (view-add_block follow block s rest)
        ∙ add_targets-blocks follow block.edges _ in
      record {
        is_view = rw (view-add_block follow block s rest) (
            found-IsView memory options entry pending.pc (pcs rest) block (view s) valid (ap pcs e)
              is p.is_view);
        room = omega (arith, below, ap length blocks, length-append s.graph.blocks (block ∷ []));
        entries =
            visit_edges-IsEntry follow block.start_pc (terminator_pc block) block.edges _
              (subst (All IsEntry) e p.entries).1;
      }

  failed_target-IsRound :
      (s : Search) (pending : PendingTarget) (rest : List PendingTarget)
      (why : R5900ControlFlowError)
      → IsRound s
      → s.worklist ≡ pending ∷ rest
      → FailsAt memory options entry pending.pc why
      → IsRound (failed_target s pending rest why)
  failed_target-IsRound s pending rest why p e fails = record {
    is_view = rw (view-failed_target s pending rest why) (
        missing-IsView memory options entry pending.pc (pcs rest) why (view s) (ap pcs e) fails
          p.is_view);
    room = p.room;
    entries = (subst (All IsEntry) e p.entries).1;
  }

  entry-IsRefusal :
      (pending : PendingTarget) (why : R5900ControlFlowError)
      → IsEntry pending
      → pending.is_entry ≡ true
      → FailsAt memory options entry pending.pc why
      → IsRefusal R5900ReachabilityError.entry_analysis_failed
  entry-IsRefusal pending why (inl later) first fails = absurd (ground arith)
  entry-IsRefusal pending why (inr at) first fails =
      (why, subst (λ q. FailsAt memory options entry q why) at fails)

  IsRound-Keeps :
      IsMap memory
      → Keeps memory options IsRound
          (λ graph. IsGraph memory options entry graph × IsWhole memory options entry graph)
          IsRefusal
  IsRound-Keeps valid = record {
    empty = λ s p e.
        detect_overlapping_leaders-IsGraph memory options entry s.graph (IsRound-IsGraph s p)
          (inr (λ t r. IsView-Known memory options entry s p.is_view e r));
    full = λ s pending rest p e full.
        detect_overlapping_leaders-IsGraph memory options entry (limit_issue s pending)
          (limit_issue-IsGraph s pending (IsRound-IsGraph s p))
          (inl (rw (any-append is_limit s.graph.issues _) (ground arith)));
    found =
        λ s pending rest block p e room is. found-IsRound s pending rest block valid p e room is;
    missing =
        λ s pending rest why p e fails later. failed_target-IsRound s pending rest why p e fails;
    entry = λ s pending rest why p e fails first.
        entry-IsRefusal pending why (subst (All IsEntry) e p.entries).0 first fails;
  }

  search-Ends :
      IsMap memory
      → Ends
          (λ graph. IsGraph memory options entry graph × IsWhole memory options entry graph)
          IsRefusal
          (analyze_r5900_reachability memory options entry)
  search-Ends valid =
      analyze_r5900_reachability-Ends memory options valid (IsRound-Keeps valid) entry
        (record {
          is_view = start-IsView memory options entry;
          room = omega arith;
          entries = (inr refl, tt);
        })
        (λ e. e)

-- The property of a graph, of an error, and of neither.
abbrev Ended : (R5900ReachabilityGraph → Type 0) → R5900ReachabilityResult → Type 0
Ended Q (R5900ReachabilityResult.succeed graph) = Q graph
Ended Q (R5900ReachabilityResult.fail e) = Unit
Ended Q R5900ReachabilityResult.out_of_fuel = ⊥

Ends-Ended :
    {Q R : R5900ReachabilityGraph → Type 0} {F : R5900ReachabilityError → Type 0}
    {result : R5900ReachabilityResult}
    → ((graph : R5900ReachabilityGraph) → Q graph → R graph)
    → Ends Q F result
    → Ended R result
Ends-Ended f (Ends.ended q) = f _ q
Ends-Ended f (Ends.refused _) = tt

Ends-map :
    {Q R : R5900ReachabilityGraph → Type 0} {F : R5900ReachabilityError → Type 0}
    {result : R5900ReachabilityResult}
    → ((graph : R5900ReachabilityGraph) → Q graph → R graph)
    → Ends Q F result
    → Ends R F result
Ends-map f (Ends.ended q) = Ends.ended (f _ q)
Ends-map f (Ends.refused e) = Ends.refused e

-- On a valid map, the search returns a graph or an error. Each block of the graph is the analysis
-- of its start address, which the followed edges reach from the entry point; no two blocks start
-- at one address; there are at most `max_blocks` of them; and every target that an issue reports
-- as failed is reached, and its analysis fails. The error says that the limit is 0 or that the
-- analysis of the entry point fails.
pub analyze_r5900_reachability-IsGraph :
    (memory : Ps2MemoryMap) (options : R5900ReachabilityOptions) (entry : ℕ)
    → IsMap memory
    → Ends
        (IsGraph memory options entry)
        (IsRefusal memory options entry)
        (analyze_r5900_reachability memory options entry)
analyze_r5900_reachability-IsGraph memory options entry valid =
    Ends-map (λ graph q. q.0) (search-Ends memory options entry valid)

-- On a valid map, when the search returns a graph without an issue that the limit was reached,
-- every address that the followed edges reach from the entry point starts a block of the graph or
-- is reported as a target whose analysis failed.
pub analyze_r5900_reachability-Known :
    (memory : Ps2MemoryMap) (options : R5900ReachabilityOptions) (entry : ℕ)
    (graph : R5900ReachabilityGraph)
    → IsMap memory
    → analyze_r5900_reachability memory options entry ≡ R5900ReachabilityResult.succeed graph
    → limit_reached graph ≡ false
    → (t : ℕ) → Reaches memory options entry t
    → Known graph t
analyze_r5900_reachability-Known memory options entry graph valid e within t r =
    elim (subst (Ended (IsWhole memory options entry)) e
      (Ends-Ended (λ g q. q.1) (search-Ends memory options entry valid))) [
        | inl cut ↦ absurd (ground (arith, cut, within))
        | inr known ↦ known t r
      ]

pub analyze_r5900_reachability-terminates :
    (memory : Ps2MemoryMap) (options : R5900ReachabilityOptions) (entry : ℕ)
    → IsMap memory
    → analyze_r5900_reachability memory options entry ≢ R5900ReachabilityResult.out_of_fuel
analyze_r5900_reachability-terminates memory options entry valid e =
    subst (Ended (λ _. Unit)) e (Ends-Ended (λ _ _. tt) (search-Ends memory options entry valid))
