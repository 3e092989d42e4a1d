-- ===== src/Tests/Reachability.antt =====
-- The search for blocks on a small program: a loop of one branch, which the entry point runs into,
-- and a target whose block runs out of the memory.
use burnout_3_recompiled.Common.{
  ℕ, true, some, none, ◌≡◌, ◌≢◌, arith, refl, List, [], ◌∷◌, ◌++◌, switch,
}
use burnout_3_recompiled.Runtime.MemoryMap.{read_u32}
use burnout_3_recompiled.Analysis.ControlFlow.{
  R5900BasicBlock, R5900EdgeKind, R5900BlockEndKind, R5900ControlFlowError, R5900InstructionSite,
  R5900BasicBlockResult, fetch_site, range_status, analyze_r5900_basic_block,
}
use burnout_3_recompiled.Recompiler.Decoder.{decode_r5900, is_branch, is_jump, direct_target}
use burnout_3_recompiled.Analysis.Reachability.{
  R5900ReachabilityOptions, R5900ReachabilityGraph, R5900ReachabilityResult,
  R5900ReachabilityIssueKind as Issue, analyze_r5900_reachability, search_start,
  detect_overlapping_leaders, search_loop, add_block, visit_edges, visit_edge, terminator_pc,
  check_leaders, check_leader, check_pair, check_inside, check_delay_slot,
}
use burnout_3_recompiled.Analysis.Reachability.Ends.{Ends}
use burnout_3_recompiled.Analysis.Reachability.View.{followed_target}
use burnout_3_recompiled.Analysis.Reachability.Invariant.{Reaches}
use burnout_3_recompiled.Analysis.Reachability.Graph.{Known, IsGraph}
use burnout_3_recompiled.Analysis.Reachability.Leaders.{
  overlap_issues, add_issues, leader_issue, detect_overlapping_leaders_lem,
}
use burnout_3_recompiled.Analysis.Reachability.Sound.{
  IsRefusal, analyze_r5900_reachability-IsGraph, analyze_r5900_reachability-Known,
}
use burnout_3_recompiled.Analysis.Reachability.Fuel.{analyze_r5900_reachability-search_loop}
use burnout_3_recompiled.Tests.Image.{memory, memory-IsMap, granted, elf_bytes, elf_bytes-bytes}
use burnout_3_recompiled.Analysis.ElfAnalysis.{analyze_ps2_elf}
use burnout_3_recompiled.Analysis.ElfAnalysis.Sound.{Analyses, analyze_ps2_elf-Analyses}

abbrev options : R5900ReachabilityOptions
options = record {
  max_blocks = 8;
  follow_direct_calls = true;
  block_options = record { max_instructions = 8; require_executable = true };
}

abbrev site : ℕ → ℕ → R5900InstructionSite
site pc word = record { pc = pc; decoded = decode_r5900 word }

-- The blocks end with the branch at 0x10_0004.
abbrev block : ℕ → List R5900InstructionSite → R5900BasicBlock
block start_pc before = record {
  start_pc = start_pc;
  instructions = before ++ site 0x10_0004 0x1000_ffff ∷ [];
  delay_slot = some (site 0x10_0008 0);
  end_kind = R5900BlockEndKind.conditional_branch;
  delay_slot_executes_on_fallthrough = true;
  edges =
      record { kind = R5900EdgeKind.branch_taken; target = some 0x10_0004 }
      ∷ record { kind = R5900EdgeKind.branch_not_taken; target = some 0x10_000c }
      ∷ [];
}

abbrev entry_block : R5900BasicBlock
entry_block = block 0x10_0000 (site 0x10_0000 0x2401_0005 ∷ [])

-- Before the overlaps are looked for.
abbrev searched : R5900ReachabilityGraph
searched = record {
  entry_pc = 0x10_0000;
  blocks = entry_block ∷ block 0x10_0004 [] ∷ [];
  calls = [];
  issues =
      record {
        kind = Issue.target_analysis_failed;
        source_block = 0x10_0000;
        target = some 0x10_000c;
        related_block = none;
        analysis_error = R5900ControlFlowError.unmapped_instruction;
      }
      ∷ [];
}

abbrev graph : R5900ReachabilityGraph
graph = add_issues searched (leader_issue Issue.leader_inside_block 0x10_0004 0x10_0000 ∷ [])

searches :
    analyze_r5900_reachability memory options 0x10_0000 ≡ R5900ReachabilityResult.succeed graph
unfolding analyze_r5900_reachability search_loop add_block visit_edges visit_edge terminator_pc
    analyze_r5900_basic_block fetch_site range_status read_u32 detect_overlapping_leaders
    check_leaders check_leader check_pair check_inside check_delay_slot decode_r5900 switch
    is_branch is_jump direct_target
searches = refl

entry_block-analysis :
    analyze_r5900_basic_block memory 0x10_0000 options.block_options
    ≡ R5900BasicBlockResult.succeed entry_block
unfolding analyze_r5900_basic_block fetch_site range_status read_u32 decode_r5900 switch is_branch
    is_jump direct_target
entry_block-analysis = refl

loop_reached : Reaches memory options 0x10_0000 0x10_0004
unfolding followed_target
loop_reached =
    Reaches.along Reaches.at_entry entry_block-analysis []
      (record { kind = R5900EdgeKind.branch_taken; target = some 0x10_0004 })
      (record { kind = R5900EdgeKind.branch_not_taken; target = some 0x10_000c } ∷ []) refl
      0x10_0004 refl

analyze_r5900_reachability-IsGraph_example :
    Ends
      (IsGraph memory options 0x10_0000)
      (IsRefusal memory options 0x10_0000)
      (analyze_r5900_reachability memory options 0x10_0000)
analyze_r5900_reachability-IsGraph_example =
    analyze_r5900_reachability-IsGraph memory options 0x10_0000 memory-IsMap

analyze_r5900_reachability-Known_example : Known graph 0x10_0004
analyze_r5900_reachability-Known_example =
    analyze_r5900_reachability-Known memory options 0x10_0000 graph memory-IsMap searches refl
      0x10_0004 loop_reached

analyze_r5900_reachability-search_loop_example :
    (search_loop memory options 100 (search_start 0x10_0000)
      ≡ analyze_r5900_reachability memory options 0x10_0000)
    × (search_loop memory options 100 (search_start 0x10_0000)
        ≢ R5900ReachabilityResult.out_of_fuel)
analyze_r5900_reachability-search_loop_example =
    analyze_r5900_reachability-search_loop memory options 0x10_0000 100 memory-IsMap
      (λ e. omega (arith, e)) (omega arith)

detect_overlapping_leaders_lem_example :
    detect_overlapping_leaders searched
    ≡ add_issues searched (overlap_issues searched.blocks searched.blocks)
detect_overlapping_leaders_lem_example = detect_overlapping_leaders_lem searched refl

-- The whole analysis, with the graph itself as the report.
analyze_ps2_elf-Analyses_example :
    Analyses
      (λ graph. graph)
      granted
      options
      elf_bytes
      (analyze_ps2_elf (λ graph. graph) granted options elf_bytes)
analyze_ps2_elf-Analyses_example =
    analyze_ps2_elf-Analyses (λ graph. graph) granted options elf_bytes elf_bytes-bytes
