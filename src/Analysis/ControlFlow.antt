-- ===== src/Analysis/ControlFlow.antt =====
-- src/analysis/r5900_control_flow.cpp: the basic block that begins at an address of the guest's code.
mod Types
pub mod Spec
pub mod Exits
pub mod Fetch
pub mod Sound
pub mod Aligned
pub mod Found
pub use Types.{
  R5900ControlFlowError, R5900BlockEndKind, R5900EdgeKind, RangeStatus, R5900InstructionSite,
  R5900ControlFlowEdge, R5900BasicBlock, R5900ControlFlowOptions, R5900BasicBlockResult,
}
use burnout_3_recompiled.Common.{
  ℕ, zero, suc, Bool, true, false, Option, some, none, List, [], ◌∷◌, ◌++◌, ◌+◌, ◌^◌, ◌==◌, ◌&&◌,
  ◌||◌, not, leb, ltb, if◌then◌else◌, bit_and, u32,
}
use burnout_3_recompiled.Recompiler.Decoder.{
  R5900Instruction, R5900InstructionClass, decode_r5900, is_branch, is_jump, direct_target,
}
use burnout_3_recompiled.Runtime.MemoryMap.{
  Ps2MemoryRegion, Ps2MemoryMap, guest_address_space_size, region_end, read_u32,
}
use Types.{R5900ControlFlowError as Error, R5900BlockEndKind as End, R5900EdgeKind as Edge}
use Types.R5900BasicBlockResult.{succeed, fail}

abbrev pub is_executable : RangeStatus → Bool
is_executable RangeStatus.executable = true
is_executable _ = false

abbrev pub is_non_executable : RangeStatus → Bool
is_non_executable RangeStatus.non_executable = true
is_non_executable _ = false

-- The loop over the regions.
unfoldable pub regions_status : List Ps2MemoryRegion → ℕ → ℕ → RangeStatus
regions_status [] access_begin access_end = RangeStatus.unmapped
regions_status (region ∷ rest) access_begin access_end =
    let later = regions_status rest access_begin access_end in
    if leb region.guest_base access_begin && leb access_end (region_end region)
    then (if not (bit_and region.flags 1 == 0)
        then RangeStatus.executable
        else RangeStatus.non_executable)
    else later

unfoldable pub range_status : Ps2MemoryMap → ℕ → ℕ → RangeStatus
unfolding regions_status
range_status memory address length =
    if ltb guest_address_space_size length
    then RangeStatus.unmapped
    else if ltb guest_address_space_size (address + length)
    then RangeStatus.unmapped
    else regions_status memory.regions address (address + length)

unfoldable pub fetch_site : Ps2MemoryMap → ℕ → Bool → Option R5900InstructionSite
fetch_site memory pc require_executable = elim (read_u32 memory pc) [
  | none ↦ none
  | some word ↦
      if require_executable && not (is_executable (range_status memory pc 4))
      then none
      else some (record { pc = pc; decoded = decode_r5900 word })
]

unfoldable pub fetch_instruction_failure : Ps2MemoryMap → ℕ → Bool → R5900BasicBlockResult
fetch_instruction_failure memory pc require_executable =
    if require_executable && is_non_executable (range_status memory pc 4)
    then fail Error.non_executable_instruction
    else fail Error.unmapped_instruction

unfoldable pub fetch_delay_slot_failure : Ps2MemoryMap → ℕ → Bool → R5900BasicBlockResult
fetch_delay_slot_failure memory pc require_executable =
    if require_executable && is_non_executable (range_status memory pc 4)
    then fail Error.non_executable_delay_slot
    else fail Error.missing_delay_slot

abbrev pub append_edge : R5900BasicBlock → R5900EdgeKind → Option ℕ → R5900BasicBlock
append_edge block kind target = record block {
  edges = block.edges ++ (record { kind = kind; target = target } ∷ []);
}

abbrev pub ended : R5900BasicBlock → R5900BlockEndKind → R5900BasicBlock
ended block kind = record block { end_kind = kind }

-- `const auto target = direct_target(pc); if (!target.has_value()) return fail(...);`
abbrev pub with_target : Option ℕ → (ℕ → R5900BasicBlockResult) → R5900BasicBlockResult
with_target none k = fail Error.unmapped_instruction
with_target (some target) k = k target

unfoldable pub finish_jump : R5900BasicBlock → R5900InstructionSite → R5900BasicBlockResult
finish_jump block terminator =
    let next = u32 (terminator.pc + 8) in
    elim terminator.decoded.instruction [
      | R5900Instruction.j ↦ with_target (direct_target terminator.decoded terminator.pc) λ target.
          succeed (append_edge (ended block End.direct_jump) Edge.direct_jump (some target))
      | R5900Instruction.jal ↦
          with_target (direct_target terminator.decoded terminator.pc) λ target. succeed (
            append_edge (append_edge (ended block End.direct_call) Edge.direct_call (some target))
              Edge.call_continuation (some next))
      | R5900Instruction.jr ↦
          succeed (append_edge (ended block End.indirect_jump) Edge.indirect_jump none)
      | R5900Instruction.jalr ↦ succeed (
          append_edge (append_edge (ended block End.indirect_call) Edge.indirect_call none)
            Edge.call_continuation (some next))
      | _ ↦
          succeed
            (record block { end_kind = End.unsupported_instruction; delay_slot = none; edges = [] })
    ]

unfoldable pub finish_control_transfer :
    Ps2MemoryMap → R5900BasicBlock → R5900InstructionSite → Bool → R5900BasicBlockResult
unfolding finish_jump
finish_control_transfer memory block terminator require_executable =
    let delay_pc = u32 (terminator.pc + 4) in
    elim (fetch_site memory delay_pc require_executable) [
      | none ↦ fetch_delay_slot_failure memory delay_pc require_executable
      | some delay_slot ↦
          let with_slot = record block {
            delay_slot = some delay_slot;
            delay_slot_executes_on_fallthrough = not terminator.decoded.likely;
          } in
          if is_branch terminator.decoded
          then with_target (direct_target terminator.decoded terminator.pc) (λ target. succeed (
              append_edge
                (append_edge (ended with_slot End.conditional_branch) Edge.branch_taken
                  (some target))
                Edge.branch_not_taken (some (u32 (terminator.pc + 8)))))
          else finish_jump with_slot terminator
    ]

abbrev pub is_unknown : R5900Instruction → Bool
is_unknown i = elim i [ R5900Instruction.unknown ↦ true | _ ↦ false ]

abbrev pub is_system : R5900InstructionClass → Bool
is_system c = elim c [ R5900InstructionClass.system ↦ true | _ ↦ false ]

-- The loop, with `left` of its `max_instructions` rounds to go.
unfoldable pub analyze_loop : Ps2MemoryMap → Bool → ℕ → ℕ → R5900BasicBlock → R5900BasicBlockResult
unfolding fetch_instruction_failure finish_control_transfer
analyze_loop memory require_executable zero pc block =
    succeed (append_edge (ended block End.instruction_limit) Edge.fallthrough (some pc))
analyze_loop memory require_executable (suc left) pc block =
    elim (fetch_site memory pc require_executable) [
      | none ↦ fetch_instruction_failure memory pc require_executable
      | some site ↦
          let block₁ = record block { instructions = block.instructions ++ (site ∷ []) } in
          let next = analyze_loop memory require_executable left (u32 (pc + 4)) block₁ in
          if is_unknown site.decoded.instruction
          then succeed (ended block₁ End.unsupported_instruction)
          else if is_system site.decoded.instruction_class
          then succeed (ended block₁ End.trap)
          else if is_branch site.decoded || is_jump site.decoded
          then finish_control_transfer memory block₁ site require_executable
          else next
    ]

unfoldable pub analyze_r5900_basic_block :
    Ps2MemoryMap → ℕ → R5900ControlFlowOptions → R5900BasicBlockResult
unfolding analyze_loop
analyze_r5900_basic_block memory start_pc options =
    if options.max_instructions == 0
    then fail Error.invalid_instruction_limit
    else if not (bit_and start_pc 3 == 0)
    then fail Error.unaligned_start
    else analyze_loop memory options.require_executable options.max_instructions start_pc (record {
      start_pc = start_pc;
      instructions = [];
      delay_slot = none;
      end_kind = End.instruction_limit;
      delay_slot_executes_on_fallthrough = true;
      edges = [];
    })
