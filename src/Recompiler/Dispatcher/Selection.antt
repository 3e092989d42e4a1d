-- ===== src/Recompiler/Dispatcher/Selection.antt =====
-- The instructions of a block that are run, their words and their lowering, in
-- src/recompiler/windows/r5900_block_dispatcher.cpp.
use burnout_3_recompiled.Common.{
  ℕ, Bool, true, false, Option, some, none, List, [], ◌∷◌, ◌++◌, ◌||◌, not, if◌then◌else◌,
}
use burnout_3_recompiled.Runtime.MemoryMap.{Ps2MemoryMap, read_u32}
use burnout_3_recompiled.Recompiler.Decoder.{R5900Instruction, is_branch, is_jump}
use burnout_3_recompiled.Recompiler.Ir.{
  R5900IrInstruction, R5900IrLoweringError, lower_r5900_instruction,
}
use burnout_3_recompiled.Analysis.ControlFlow.{R5900InstructionSite, is_system}
use burnout_3_recompiled.Recompiler.Dispatcher.Types.{R5900DispatchStopReason as Reason}

unfoldable pub is_dispatcher_v0_eligible : R5900Instruction → Bool
is_dispatcher_v0_eligible instruction = elim instruction [
  | R5900Instruction.nop ↦ true
  | R5900Instruction.addu ↦ true
  | R5900Instruction.addiu ↦ true
  | R5900Instruction.ori ↦ true
  | R5900Instruction.andi ↦ true
  | R5900Instruction.lui ↦ true
  | R5900Instruction.mthi ↦ true
  | R5900Instruction.mtlo ↦ true
  | R5900Instruction.mthi1 ↦ true
  | R5900Instruction.mtlo1 ↦ true
  | R5900Instruction.mtsah ↦ true
  | R5900Instruction.padduw ↦ true
  | R5900Instruction.mtc1 ↦ true
  | R5900Instruction.ctc1 ↦ true
  | R5900Instruction.adda_s ↦ true
  | R5900Instruction.sync ↦ true
  | _ ↦ false
]

-- Why the loop over the block's instructions stopped, and where.
pub record Boundary : Type 0 where
  pub boundary_reason : Reason
  pub boundary_pc : ℕ

unfoldable pub stop_at : R5900InstructionSite → Option Reason
stop_at site =
    if is_branch site.decoded || is_jump site.decoded
    then some Reason.control_flow
    else if is_system site.decoded.instruction_class
    then some Reason.trap
    else if not (is_dispatcher_v0_eligible site.decoded.instruction)
    then some Reason.unsupported_instruction
    else none

-- The instructions before the first that stops the loop.
unfoldable pub prefix_of : List R5900InstructionSite → List R5900InstructionSite × Option Boundary
prefix_of [] = ([], none)
prefix_of (site ∷ rest) =
    let later = prefix_of rest in
    elim (stop_at site) [
      | some reason ↦ ([], some (record { boundary_reason = reason; boundary_pc = site.pc }))
      | none ↦ (site ∷ later.0, later.1)
    ]

-- What a loop over the prefix gives, or the reason and the address of its failure.
pub data Stage (A : Type 0) : Type 0 where
  passed : A → Stage A
  refused : Reason → ℕ → Stage A

unfoldable pub guest_words_of : Ps2MemoryMap → List R5900InstructionSite → Stage (List ℕ)
guest_words_of memory [] = Stage.passed []
guest_words_of memory (site ∷ rest) =
    let later = guest_words_of memory rest in
    elim (read_u32 memory site.pc) [
      | none ↦ Stage.refused Reason.analysis_failure site.pc
      | some word ↦ elim later [
        | Stage.passed words ↦ Stage.passed (word ∷ words)
        | Stage.refused reason pc ↦ Stage.refused reason pc
      ]
    ]

-- The lowered instruction, put in front of what the later ones gave.
unfoldable pub join_lowered :
    R5900IrLoweringError
    → List R5900IrInstruction
    → ℕ
    → Stage (List R5900IrInstruction)
    → Stage (List R5900IrInstruction)
join_lowered R5900IrLoweringError.none irs pc (Stage.passed rest) = Stage.passed (irs ++ rest)
join_lowered R5900IrLoweringError.none irs pc (Stage.refused reason at) = Stage.refused reason at
join_lowered R5900IrLoweringError.unsupported_instruction irs pc later =
    Stage.refused Reason.lowering_failure pc

unfoldable pub lower_prefix : List R5900InstructionSite → Stage (List R5900IrInstruction)
lower_prefix [] = Stage.passed []
lower_prefix (site ∷ rest) =
    let lowered = lower_r5900_instruction site.decoded site.pc in
    join_lowered lowered.error lowered.instructions site.pc (lower_prefix rest)
