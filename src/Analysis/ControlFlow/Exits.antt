-- ===== src/Analysis/ControlFlow/Exits.antt =====
-- The edges of a block that ends in a control transfer.
use burnout_3_recompiled.Common.{ℕ, true, some, ◌≡◌, List, [], ◌+◌, not, if◌then◌else◌, u32, arith}
use burnout_3_recompiled.Recompiler.Decoder.{R5900Instruction, is_branch, is_jump, direct_target}
use burnout_3_recompiled.Recompiler.Decoder.Target.{target_of}
use burnout_3_recompiled.Recompiler.Decoder.Attributes.{class_of}
use burnout_3_recompiled.Analysis.ControlFlow.{
  R5900InstructionSite, R5900BasicBlock, R5900BasicBlockResult, with_target, append_edge, ended,
  finish_jump,
}
use burnout_3_recompiled.Analysis.ControlFlow.{R5900BlockEndKind as End, R5900EdgeKind as Edge}
use burnout_3_recompiled.Analysis.ControlFlow.Types.R5900BasicBlockResult.{succeed}
use burnout_3_recompiled.Analysis.ControlFlow.Spec.{transfers, exits}

-- The block that a control transfer ends, with its delay slot.
abbrev pub transfer_block :
    ℕ → List R5900InstructionSite → R5900InstructionSite → R5900InstructionSite → R5900BasicBlock
transfer_block start sites slot site = record {
  start_pc = start;
  instructions = sites;
  delay_slot = some slot;
  end_kind = End.instruction_limit;
  delay_slot_executes_on_fallthrough = not site.decoded.likely;
  edges = [];
}

-- The transfers of the instruction set leave their block as `exits` says.
module _ (start : ℕ) (sites : List R5900InstructionSite) (slot site : R5900InstructionSite)
    (target : direct_target site.decoded site.pc ≡ target_of site.decoded site.pc) where
  abbrev pub finished : R5900BasicBlockResult
  finished =
      let block = transfer_block start sites slot site in
      if is_branch site.decoded
      then with_target (direct_target site.decoded site.pc) (λ target. succeed (
          append_edge
            (append_edge (ended block End.conditional_branch) Edge.branch_taken (some target))
            Edge.branch_not_taken (some (u32 (site.pc + 8)))))
      else finish_jump block site

  pub exits_lem :
      (i : R5900Instruction)
      → site.decoded.instruction ≡ i
      → site.decoded.instruction_class ≡ class_of i
      → transfers i ≡ true
      → finished
        ≡ succeed (record (transfer_block start sites slot site) {
          end_kind = (exits site).0;
          edges = (exits site).1;
        })
  unfolding finish_jump class_of transfers exits direct_target target_of is_branch is_jump
  exits_lem R5900Instruction.jr ei ec h = ground arith
  exits_lem R5900Instruction.jalr ei ec h = ground arith
  exits_lem R5900Instruction.jal ei ec h = ground arith
  exits_lem R5900Instruction.j ei ec h = ground arith
  exits_lem _ ei ec h = ground arith
