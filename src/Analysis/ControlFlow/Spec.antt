-- ===== src/Analysis/ControlFlow/Spec.antt =====
-- What the analysis of a block finds, described without its loop.
use burnout_3_recompiled.Common.{
  ℕ, Bool, true, false, some, none, ◌≡◌, ◌≢◌, ◌⊎◌, List, [], ◌∷◌, ◌++◌, ◌+◌, ◌<◌, ◌≤◌, ◌%◌, ◌&&◌,
  ◌||◌, not, if◌then◌else◌, u32, length,
}
use burnout_3_recompiled.Recompiler.Decoder.{R5900Instruction, R5900InstructionClass, decode_r5900}
use burnout_3_recompiled.Recompiler.Decoder.Attributes.{class_of}
use burnout_3_recompiled.Recompiler.Decoder.Target.{target_of}
use burnout_3_recompiled.Runtime.MemoryMap.{Ps2MemoryMap, Ps2MemoryRegion, read_u32}
use burnout_3_recompiled.Analysis.ControlFlow.{
  R5900InstructionSite, R5900BasicBlock, R5900BasicBlockResult, R5900BlockEndKind,
  R5900ControlFlowEdge, R5900ControlFlowError,
}
use burnout_3_recompiled.Analysis.ControlFlow.{
  R5900BlockEndKind as End, R5900EdgeKind as Edge, R5900ControlFlowError as Error,
}
use burnout_3_recompiled.Analysis.ControlFlow.Types.R5900BasicBlockResult.{succeed, fail}

-- What the class of an instruction means for a block: it ends the block by itself, it transfers
-- control after its delay slot, or the block goes on.
unfoldable pub is_invalid : R5900Instruction → Bool
unfolding class_of
is_invalid i = elim (class_of i) [ R5900InstructionClass.unknown ↦ true | _ ↦ false ]

unfoldable pub traps : R5900Instruction → Bool
unfolding class_of
traps i = elim (class_of i) [ R5900InstructionClass.system ↦ true | _ ↦ false ]

unfoldable pub transfers : R5900Instruction → Bool
unfolding class_of
transfers i = elim (class_of i) [
  | R5900InstructionClass.branch ↦ true
  | R5900InstructionClass.jump ↦ true
  | _ ↦ false
]

abbrev pub is_straight : R5900Instruction → Bool
is_straight i = not (is_invalid i) && not (traps i) && not (transfers i)

-- Some region of the list holds the four bytes at an address, with its executable flag as given.
pub data HoldsWord (pc executable : ℕ) : List Ps2MemoryRegion → Type 0 where
  first :
      {region : Ps2MemoryRegion} {rest : List Ps2MemoryRegion}
      → region.guest_base ≤ pc
      → pc + 4 ≤ region.guest_base + region.size
      → region.flags % 2 ≡ executable
      → HoldsWord pc executable (region ∷ rest)
  later :
      {region : Ps2MemoryRegion} {rest : List Ps2MemoryRegion}
      → HoldsWord pc executable rest
      → HoldsWord pc executable (region ∷ rest)

-- How a control transfer leaves its block: the kind of end, and the edges with their targets.
unfoldable pub exits : R5900InstructionSite → R5900BlockEndKind × List R5900ControlFlowEdge
exits site =
    let target = target_of site.decoded site.pc in
    let next = some (u32 (site.pc + 8)) in
    elim site.decoded.instruction [
      | R5900Instruction.jr ↦
          (End.indirect_jump, record { kind = Edge.indirect_jump; target = none } ∷ [])
      | R5900Instruction.jalr ↦ (
        End.indirect_call,
        record { kind = Edge.indirect_call; target = none }
            ∷ record { kind = Edge.call_continuation; target = next }
            ∷ [],
      )
      | R5900Instruction.j ↦
          (End.direct_jump, record { kind = Edge.direct_jump; target = target } ∷ [])
      | R5900Instruction.jal ↦ (
        End.direct_call,
        record { kind = Edge.direct_call; target = target }
            ∷ record { kind = Edge.call_continuation; target = next }
            ∷ [],
      )
      | _ ↦ (
        End.conditional_branch,
        record { kind = Edge.branch_taken; target = target }
            ∷ record { kind = Edge.branch_not_taken; target = next }
            ∷ [],
      )
    ]

module _ (memory : Ps2MemoryMap) (require : Bool) where
  -- The word in memory at an address, decoded; it lies in an executable region where that is required.
  pub record Fetches (pc : ℕ) (site : R5900InstructionSite) : Type 0 where
    pub word : ℕ
    pub read : read_u32 memory pc ≡ some word
    pub decodes : site ≡ record { pc = pc; decoded = decode_r5900 word }
    pub allowed : require ≡ true → HoldsWord pc 1 memory.regions

  -- Straight-line code from one address to another, one instruction every four bytes.
  pub data Walks : ℕ → List R5900InstructionSite → ℕ → Type 0 where
    here : {pc : ℕ} → Walks pc [] pc
    step :
        {pc end : ℕ} {site : R5900InstructionSite} {sites : List R5900InstructionSite}
        → Fetches pc site
        → is_straight site.decoded.instruction ≡ true
        → Walks (u32 (pc + 4)) sites end
        → Walks pc (site ∷ sites) end

  -- The block at an address: straight-line code, and the instruction that ends it unless the
  -- limit did.
  pub data IsBlock (start limit : ℕ) : R5900BasicBlock → Type 0 where
    limited :
        {sites : List R5900InstructionSite} {end : ℕ}
        → Walks start sites end
        → length sites ≡ limit
        → IsBlock start limit (record {
          start_pc = start;
          instructions = sites;
          delay_slot = none;
          end_kind = End.instruction_limit;
          delay_slot_executes_on_fallthrough = true;
          edges = record { kind = Edge.fallthrough; target = some end } ∷ [];
        })
    stopped :
        {sites : List R5900InstructionSite} {site : R5900InstructionSite} {end : ℕ}
        → Walks start sites end
        → length sites < limit
        → Fetches end site
        → (kind : R5900BlockEndKind)
        → kind
          ≡ (if is_invalid site.decoded.instruction then End.unsupported_instruction else End.trap)
        → is_invalid site.decoded.instruction || traps site.decoded.instruction ≡ true
        → IsBlock start limit (record {
          start_pc = start;
          instructions = sites ++ (site ∷ []);
          delay_slot = none;
          end_kind = kind;
          delay_slot_executes_on_fallthrough = true;
          edges = [];
        })
    transferred :
        {sites : List R5900InstructionSite} {site slot : R5900InstructionSite} {end : ℕ}
        → Walks start sites end
        → length sites < limit
        → Fetches end site
        → transfers site.decoded.instruction ≡ true
        → Fetches (u32 (end + 4)) slot
        → IsBlock start limit (record {
          start_pc = start;
          instructions = sites ++ (site ∷ []);
          delay_slot = some slot;
          end_kind = (exits site).0;
          delay_slot_executes_on_fallthrough = not site.decoded.likely;
          edges = (exits site).1;
        })

  -- Why there is no code to fetch at an address.
  abbrev pub CannotFetch :
      ℕ → R5900ControlFlowError → R5900ControlFlowError → R5900ControlFlowError → Type 0
  CannotFetch pc missing forbidden e =
      ((e ≡ missing) × (read_u32 memory pc ≡ none))
      ⊎ ((e ≡ forbidden) × (require ≡ true) × HoldsWord pc 0 memory.regions)

  pub data Outcome (start limit : ℕ) : R5900BasicBlockResult → Type 0 where
    no_limit : limit ≡ 0 → Outcome start limit (fail Error.invalid_instruction_limit)
    unaligned : start % 4 ≢ 0 → Outcome start limit (fail Error.unaligned_start)
    found :
        {block : R5900BasicBlock} → IsBlock start limit block → Outcome start limit (succeed block)
    no_instruction :
        {sites : List R5900InstructionSite} {end : ℕ} {e : R5900ControlFlowError}
        → Walks start sites end
        → CannotFetch end Error.unmapped_instruction Error.non_executable_instruction e
        → Outcome start limit (fail e)
    no_delay_slot :
        {sites : List R5900InstructionSite} {site : R5900InstructionSite} {end : ℕ}
        {e : R5900ControlFlowError}
        → Walks start sites end
        → Fetches end site
        → transfers site.decoded.instruction ≡ true
        → CannotFetch (u32 (end + 4)) Error.missing_delay_slot Error.non_executable_delay_slot e
        → Outcome start limit (fail e)
