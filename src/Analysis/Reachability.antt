-- ===== src/Analysis/Reachability.antt =====
-- src/analysis/r5900_reachability.cpp: the blocks that are reached from an entry point.
-- The deque and the sets of the source are lists here. Each `while` round takes one unit of fuel.
mod Types
pub mod Ends
pub mod View
pub mod Invariant
pub mod Rounds
pub mod Leaders
pub mod Graph
pub mod Whole
pub mod Sound
pub mod Fuel
pub use Types.{
  R5900ReachabilityError, R5900ReachabilityIssueKind, R5900ReachabilityCall, R5900ReachabilityIssue,
  R5900ReachabilityGraph, R5900ReachabilityOptions, PendingTarget, Search, R5900ReachabilityResult,
}
use burnout_3_recompiled.Common.{
  ℕ, zero, suc, Bool, true, false, Option, some, none, List, [], ◌∷◌, ◌++◌, ◌+◌, ◌*◌, ◌==◌, ◌&&◌,
  ◌||◌, not, leb, if◌then◌else◌, length, contains, any,
}
use burnout_3_recompiled.Runtime.MemoryMap.{Ps2MemoryMap}
use burnout_3_recompiled.Analysis.ControlFlow.{
  R5900InstructionSite, R5900BasicBlock, R5900ControlFlowEdge, R5900EdgeKind, R5900BasicBlockResult,
  R5900ControlFlowError, analyze_r5900_basic_block,
}
use Types.{R5900ReachabilityError as Error, R5900ReachabilityIssueKind as Issue}
use Types.R5900ReachabilityResult.{succeed, fail, out_of_fuel}

abbrev pub add_issue :
    R5900ReachabilityGraph
    → Issue
    → ℕ
    → Option ℕ
    → Option ℕ
    → R5900ControlFlowError
    → R5900ReachabilityGraph
add_issue graph kind source_block target related_block analysis_error = record graph {
  issues =
      graph.issues
      ++ record {
        kind = kind;
        source_block = source_block;
        target = target;
        related_block = related_block;
        analysis_error = analysis_error;
      }
        ∷ [];
}

unfoldable pub last_pc : ℕ → List R5900InstructionSite → ℕ
last_pc start_pc [] = start_pc
last_pc start_pc (site ∷ rest) = last_pc site.pc rest

unfoldable pub terminator_pc : R5900BasicBlock → ℕ
unfolding last_pc
terminator_pc block = last_pc block.start_pc block.instructions

-- `if (target.has_value() && scheduled.insert(*target).second) worklist.push_back(...)`.
unfoldable pub schedule : ℕ → Option ℕ → Search → Search
schedule source none search = search
schedule source (some target) search =
    if contains target search.scheduled then search else record search {
      worklist =
          search.worklist ++ record { pc = target; source_block = source; is_entry = false } ∷ [];
      scheduled = target ∷ search.scheduled;
    }

abbrev pub add_call : ℕ → ℕ → Bool → Option ℕ → Search → Search
add_call source call_pc indirect target search =
    let graph = search.graph in
    record search {
      graph = record graph {
        calls =
            graph.calls
            ++ record {
              source_block = source;
              call_pc = call_pc;
              indirect = indirect;
              target = target;
            }
              ∷ [];
      };
    }

abbrev pub add_indirect_exit : ℕ → Search → Search
add_indirect_exit source search = record search {
  graph =
      add_issue search.graph Issue.unresolved_indirect_exit source none none
        R5900ControlFlowError.none;
}

-- The switch on an edge's kind.
unfoldable pub visit_edge : Bool → ℕ → ℕ → R5900ControlFlowEdge → Search → Search
unfolding schedule
visit_edge follow_direct_calls source call_pc edge search = elim edge.kind [
  | R5900EdgeKind.branch_taken ↦ schedule source edge.target search
  | R5900EdgeKind.branch_not_taken ↦ schedule source edge.target search
  | R5900EdgeKind.direct_jump ↦ schedule source edge.target search
  | R5900EdgeKind.call_continuation ↦ schedule source edge.target search
  | R5900EdgeKind.fallthrough ↦ schedule source edge.target search
  | R5900EdgeKind.direct_call ↦
      let called = add_call source call_pc false edge.target search in
      if follow_direct_calls then schedule source edge.target called else called
  | R5900EdgeKind.indirect_call ↦
      add_indirect_exit source (add_call source call_pc true none search)
  | R5900EdgeKind.indirect_jump ↦ add_indirect_exit source search
]

unfoldable pub visit_edges : Bool → ℕ → ℕ → List R5900ControlFlowEdge → Search → Search
visit_edges follow_direct_calls source call_pc [] search = search
visit_edges follow_direct_calls source call_pc (edge ∷ rest) search =
    visit_edges follow_direct_calls source call_pc rest
      (visit_edge follow_direct_calls source call_pc edge search)

-- A block that was analysed joins the graph, and its edges are visited.
unfoldable pub add_block : Bool → R5900BasicBlock → Search → Search
add_block follow_direct_calls block search =
    let graph = search.graph in
    visit_edges follow_direct_calls block.start_pc (terminator_pc block) block.edges
      (record search { graph = record graph { blocks = graph.blocks ++ block ∷ [] } })

unfoldable pub inside : ℕ → List R5900InstructionSite → Bool
inside leader [] = false
inside leader (first ∷ rest) =
    not (first.pc == leader) && any (λ (site : R5900InstructionSite). site.pc == leader) rest

unfoldable pub in_delay_slot : ℕ → R5900BasicBlock → Bool
in_delay_slot leader block = elim block.delay_slot [ none ↦ false | some slot ↦ slot.pc == leader ]

-- The keys of one kind that were emitted, leader and containing block.
abbrev pub emitted_pair : ℕ → ℕ → List (ℕ × ℕ) → Bool
emitted_pair a b keys = any (λ (key : ℕ × ℕ). key.0 == a && key.1 == b) keys

pub record Overlaps : Type 0 where
  pub overlaps_graph : R5900ReachabilityGraph
  pub emitted_blocks : List (ℕ × ℕ)
  pub emitted_slots : List (ℕ × ℕ)

-- The two tests of the inner loop.
unfoldable pub check_inside : R5900BasicBlock → R5900BasicBlock → Overlaps → Overlaps
unfolding inside
check_inside leader_block containing o =
    let leader = leader_block.start_pc in
    if inside leader containing.instructions
      && not (emitted_pair leader containing.start_pc o.emitted_blocks)
    then record o {
      emitted_blocks = (leader, containing.start_pc) ∷ o.emitted_blocks;
      overlaps_graph =
          add_issue o.overlaps_graph Issue.leader_inside_block leader (some leader)
            (some containing.start_pc) R5900ControlFlowError.none;
    }
    else o

unfoldable pub check_delay_slot : R5900BasicBlock → R5900BasicBlock → Overlaps → Overlaps
unfolding in_delay_slot
check_delay_slot leader_block containing o =
    let leader = leader_block.start_pc in
    if in_delay_slot leader containing
      && not (emitted_pair leader containing.start_pc o.emitted_slots)
    then record o {
      emitted_slots = (leader, containing.start_pc) ∷ o.emitted_slots;
      overlaps_graph =
          add_issue o.overlaps_graph Issue.leader_inside_delay_slot leader (some leader)
            (some containing.start_pc) R5900ControlFlowError.none;
    }
    else o

unfoldable pub check_pair : R5900BasicBlock → R5900BasicBlock → Overlaps → Overlaps
check_pair leader_block containing o =
    if leader_block.start_pc == containing.start_pc
    then o
    else check_delay_slot leader_block containing (check_inside leader_block containing o)

unfoldable pub check_leader : R5900BasicBlock → List R5900BasicBlock → Overlaps → Overlaps
check_leader leader_block [] o = o
check_leader leader_block (containing ∷ rest) o =
    check_leader leader_block rest (check_pair leader_block containing o)

unfoldable pub check_leaders : List R5900BasicBlock → List R5900BasicBlock → Overlaps → Overlaps
check_leaders [] blocks o = o
check_leaders (leader_block ∷ rest) blocks o =
    check_leaders rest blocks (check_leader leader_block blocks o)

unfoldable pub detect_overlapping_leaders : R5900ReachabilityGraph → R5900ReachabilityGraph
detect_overlapping_leaders graph =
    (check_leaders graph.blocks graph.blocks
      (record { overlaps_graph = graph; emitted_blocks = []; emitted_slots = [] })).overlaps_graph

abbrev pub search_start : ℕ → Search
search_start entry_pc = record {
  graph = record { entry_pc = entry_pc; blocks = []; calls = []; issues = [] };
  worklist = record { pc = entry_pc; source_block = entry_pc; is_entry = true } ∷ [];
  scheduled = entry_pc ∷ [];
}

module _ (memory : Ps2MemoryMap) (options : R5900ReachabilityOptions) where
  -- The loop. A `break` goes on to the detection of overlaps, as the loop's own end does.
  unfoldable pub search_loop : ℕ → Search → R5900ReachabilityResult
  search_loop zero search = out_of_fuel
  search_loop (suc fuel) search = elim search.worklist [
    | [] ↦ succeed (detect_overlapping_leaders search.graph)
    | pending ∷ rest ↦
        let popped = record search { worklist = rest } in
        elim (leb options.max_blocks (length search.graph.blocks)) [
          | true ↦ succeed (
              detect_overlapping_leaders (
                add_issue search.graph Issue.block_limit_reached pending.source_block
                  (some pending.pc) none R5900ControlFlowError.none))
          | false ↦ elim (analyze_r5900_basic_block memory pending.pc options.block_options) [
            | R5900BasicBlockResult.succeed block ↦
                search_loop fuel (add_block options.follow_direct_calls block popped)
            | R5900BasicBlockResult.fail e ↦ elim pending.is_entry [
              | true ↦ fail Error.entry_analysis_failed
              | false ↦ search_loop fuel (record popped {
                graph =
                    add_issue search.graph Issue.target_analysis_failed pending.source_block
                      (some pending.pc) none e;
              })
            ]
          ]
        ]
  ]

  -- A block has at most two edges: no search takes more rounds.
  unfoldable pub analyze_r5900_reachability : ℕ → R5900ReachabilityResult
  analyze_r5900_reachability entry_pc =
      if options.max_blocks == 0
      then fail Error.invalid_block_limit
      else search_loop (2 * options.max_blocks + 2) (search_start entry_pc)
