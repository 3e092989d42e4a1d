-- ===== src/Tests/Analysis.antt =====
-- The block at the entry point of the small executable.
use burnout_3_recompiled.Common.{true, some, switch, [], ◌∷◌, All, arith, ◌≡◌, refl}
use burnout_3_recompiled.Recompiler.Decoder.{decode_r5900, direct_target, is_jump}
use burnout_3_recompiled.Runtime.MemoryMap.{read_u32}
use burnout_3_recompiled.Analysis.ControlFlow.{
  R5900ControlFlowOptions, R5900BasicBlock, R5900BlockEndKind, R5900EdgeKind, R5900ControlFlowError,
  R5900BasicBlockResult, analyze_r5900_basic_block, fetch_site, range_status,
}
use burnout_3_recompiled.Analysis.ControlFlow.Spec.{Outcome}
use burnout_3_recompiled.Analysis.ControlFlow.Sound.{analyze_r5900_basic_block-Outcome}
use burnout_3_recompiled.Analysis.ControlFlow.Aligned.{EdgeFits, analyze_r5900_basic_block-EdgeFits}
use burnout_3_recompiled.Tests.Image.{memory, memory-IsMap}

abbrev options : R5900ControlFlowOptions
options = record { max_instructions = 8; require_executable = true }

-- Two instructions, the second a branch to itself, and its delay slot.
abbrev block : R5900BasicBlock
block = record {
  start_pc = 0x10_0000;
  instructions =
      record { pc = 0x10_0000; decoded = decode_r5900 0x2401_0005 }
      ∷ record { pc = 0x10_0004; decoded = decode_r5900 0x1000_ffff }
      ∷ [];
  delay_slot = some (record { pc = 0x10_0008; decoded = decode_r5900 0 });
  end_kind = R5900BlockEndKind.conditional_branch;
  delay_slot_executes_on_fallthrough = true;
  edges =
      record { kind = R5900EdgeKind.branch_taken; target = some 0x10_0004 }
      ∷ record { kind = R5900EdgeKind.branch_not_taken; target = some 0x10_000c }
      ∷ [];
}

unaligned_fails :
    analyze_r5900_basic_block memory 0x10_0002 options
    ≡ R5900BasicBlockResult.fail R5900ControlFlowError.unaligned_start
unfolding analyze_r5900_basic_block
unaligned_fails = refl

analyze_r5900_basic_block-Outcome_example :
    Outcome memory true 0x10_0000 8 (analyze_r5900_basic_block memory 0x10_0000 options)
analyze_r5900_basic_block-Outcome_example =
    analyze_r5900_basic_block-Outcome memory 0x10_0000 options memory-IsMap

finds : analyze_r5900_basic_block memory 0x10_0000 options ≡ R5900BasicBlockResult.succeed block
unfolding analyze_r5900_basic_block fetch_site range_status decode_r5900 is_jump switch read_u32
    direct_target
finds = refl

analyze_r5900_basic_block-EdgeFits_example : All EdgeFits block.edges
analyze_r5900_basic_block-EdgeFits_example =
    analyze_r5900_basic_block-EdgeFits memory 0x10_0000 options memory-IsMap (refl, omega arith)
      finds
