-- ===== src/Analysis/ControlFlow/Sound.antt =====
-- The analysis of a block finds the block that there is, or names the reason that there is none.
use burnout_3_recompiled.Common.{
  ℕ, zero, suc, Bool, true, false, none, some, ◌≡◌, refl, sym, ◌∙◌, ◌||◌, List, [], ◌∷◌, ◌++◌, ◌+◌,
  ◌<◌, ◌==◌, ◌&&◌, not, if◌then◌else◌, bit_and, u32, arith, length, Option-cases, inl, inr,
  length-append, bit_and_mask,
}
use burnout_3_recompiled.Recompiler.Decoder.{direct_target, is_branch, is_jump}
use burnout_3_recompiled.Analysis.ControlFlow.Fetch.{
  fetch_site-Fetches, at_address, decoded_word, classed, CannotFetch-as, is_unknown-invalid,
  is_system-traps, leaves-transfers,
}
use burnout_3_recompiled.Recompiler.Decoder.Target.{target_of, direct_target-decode_r5900}
use burnout_3_recompiled.Runtime.MemoryMap.{Ps2MemoryMap}
use burnout_3_recompiled.Runtime.MemoryMap.Spans.{IsMap}
use burnout_3_recompiled.Analysis.ControlFlow.{
  R5900InstructionSite, R5900ControlFlowOptions, R5900BasicBlockResult, R5900ControlFlowError,
  is_unknown, is_system, is_non_executable, range_status, fetch_site, fetch_instruction_failure,
  fetch_delay_slot_failure, finish_control_transfer, analyze_loop, analyze_r5900_basic_block,
}
use burnout_3_recompiled.Analysis.ControlFlow.{
  R5900BlockEndKind as End, R5900ControlFlowError as Error,
}
use burnout_3_recompiled.Analysis.ControlFlow.Types.R5900BasicBlockResult.{fail}
use burnout_3_recompiled.Analysis.ControlFlow.Exits.{finished, exits_lem}
use burnout_3_recompiled.Analysis.ControlFlow.Spec.{
  transfers, is_straight, Walks, here, step, Fetches, Outcome,
}
use burnout_3_recompiled.Analysis.ControlFlow.Spec.Outcome.{
  no_limit, unaligned, found, no_instruction, no_delay_slot,
}
use burnout_3_recompiled.Analysis.ControlFlow.Spec.IsBlock.{limited, stopped, transferred}

if_fail :
    (b : Bool) (x y : R5900ControlFlowError)
    → (if b then fail x else fail y) ≡ fail (if b then x else y)
if_fail true x y = refl
if_fail false x y = refl

module _ (memory : Ps2MemoryMap) (require : Bool) (valid : IsMap memory) where
  -- One more instruction at the end of straight-line code.
  Walks-snoc :
      {pc end : ℕ} (sites : List R5900InstructionSite) (site : R5900InstructionSite)
      → Walks memory require pc sites end
      → Fetches memory require end site
      → is_straight site.decoded.instruction ≡ true
      → Walks memory require pc (sites ++ (site ∷ [])) (u32 (end + 4))
  Walks-snoc sites site here f s = step f s here
  Walks-snoc (x ∷ sites) site (step fx sx w) f s = step fx sx (Walks-snoc sites site w f s)

  fetch_instruction_failure-Outcome :
      {start limit end : ℕ} {sites : List R5900InstructionSite}
      → Walks memory require start sites end
      → fetch_site memory end require ≡ none
      → Outcome memory require start limit (fetch_instruction_failure memory end require)
  unfolding fetch_instruction_failure
  fetch_instruction_failure-Outcome {end = end} walk h =
      rw (if_fail (require && is_non_executable (range_status memory end 4)) _ _) (
        no_instruction walk (
          CannotFetch-as memory require valid end Error.unmapped_instruction
            Error.non_executable_instruction _ refl h))

  module _ {start limit end : ℕ} {sites : List R5900InstructionSite} {site : R5900InstructionSite}
      (walk : Walks memory require start sites end) (room : length sites < limit)
      (fetches : Fetches memory require end site)
      (leaves : transfers site.decoded.instruction ≡ true) where
    fetch_delay_slot_failure-Outcome :
        fetch_site memory (u32 (end + 4)) require ≡ none
        → Outcome memory require start limit
            (fetch_delay_slot_failure memory (u32 (end + 4)) require)
    unfolding fetch_delay_slot_failure
    fetch_delay_slot_failure-Outcome h =
        rw (if_fail (require && is_non_executable (range_status memory (u32 (end + 4)) 4)) _ _) (
          no_delay_slot walk fetches leaves (
            CannotFetch-as memory require valid (u32 (end + 4)) Error.missing_delay_slot
              Error.non_executable_delay_slot _ refl h))

    finish_control_transfer-Outcome :
        {slot : R5900InstructionSite}
        → fetch_site memory (u32 (end + 4)) require ≡ some slot
        → Outcome memory require start limit (
            finish_control_transfer memory
              (record {
                start_pc = start;
                instructions = sites ++ (site ∷ []);
                delay_slot = none;
                end_kind = End.instruction_limit;
                delay_slot_executes_on_fallthrough = true;
                edges = [];
              })
              site
              require)
    unfolding finish_control_transfer
    finish_control_transfer-Outcome {slot = slot} h =
        let at = at_address memory require fetches in
        let same : direct_target site.decoded site.pc ≡ target_of site.decoded site.pc =
          rw (decoded_word memory require fetches)
            (direct_target-decode_r5900 fetches.word site.pc) in
        let exit =
          exits_lem start (sites ++ (site ∷ [])) slot site same site.decoded.instruction refl
            (classed memory require fetches) leaves in
        let done : Outcome memory require start limit
            (finished start (sites ++ (site ∷ [])) slot site same) =
          rw exit (
            found
              (transferred walk room fetches leaves (fetch_site-Fetches memory require _ _ h))) in
        rw (at, h, finish_control_transfer) done

    finish_missing-Outcome :
        fetch_site memory (u32 (end + 4)) require ≡ none
        → Outcome memory require start limit (
            finish_control_transfer memory
              (record {
                start_pc = start;
                instructions = sites ++ (site ∷ []);
                delay_slot = none;
                end_kind = End.instruction_limit;
                delay_slot_executes_on_fallthrough = true;
                edges = [];
              })
              site
              require)
    unfolding finish_control_transfer
    finish_missing-Outcome h =
        let at = at_address memory require fetches in
        let refused : Outcome memory require start limit
            (fetch_delay_slot_failure memory (u32 (site.pc + 4)) require) =
          rw at (fetch_delay_slot_failure-Outcome h) in
        rw (at, h, finish_control_transfer) refused

  -- Both arms of a conditional, each with the condition's value.
  Outcome-if :
      {start limit : ℕ} (b : Bool) {x y : R5900BasicBlockResult}
      → (b ≡ true → Outcome memory require start limit x)
      → (b ≡ false → Outcome memory require start limit y)
      → Outcome memory require start limit (if b then x else y)
  Outcome-if true hx hy = hx refl
  Outcome-if false hx hy = hy refl

  analyze_loop-Outcome :
      (left start limit pc : ℕ) (sites : List R5900InstructionSite)
      → Walks memory require start sites pc
      → length sites + left ≡ limit
      → Outcome memory require start limit (
          analyze_loop memory require left pc (record {
            start_pc = start;
            instructions = sites;
            delay_slot = none;
            end_kind = End.instruction_limit;
            delay_slot_executes_on_fallthrough = true;
            edges = [];
          }))
  unfolding analyze_loop
  analyze_loop-Outcome zero start limit pc sites walk size = found (limited walk (omega arith))
  analyze_loop-Outcome (suc left) start limit pc sites walk size =
      elim (Option-cases (fetch_site memory pc require)) [
        | inl missing ↦ rw (missing, analyze_loop) (fetch_instruction_failure-Outcome walk missing)
        | inr (site, e) ↦
            let i = site.decoded.instruction in
            let fetches = fetch_site-Fetches memory require pc site e in
            let class = classed memory require fetches in
            let as_invalid = sym (is_unknown-invalid i) in
            let as_trap = sym (is_system-traps site.decoded i class) in
            let as_transfer = sym (leaves-transfers site.decoded i class) in
            rw (e, analyze_loop)
              (Outcome-if (is_unknown i)
                (λ u. found (
                  stopped walk (omega arith) fetches End.unsupported_instruction
                    (rw (as_invalid ∙ u) refl) (rw (as_invalid ∙ u) refl)))
                λ known.
                  Outcome-if (is_system site.decoded.instruction_class)
                    (λ y. found (
                      stopped walk (omega arith) fetches End.trap (rw (as_invalid ∙ known) refl)
                        (rw (as_invalid ∙ known, as_trap ∙ y) refl)))
                    λ quiet.
                      Outcome-if (is_branch site.decoded || is_jump site.decoded)
                        (λ leaves. elim (Option-cases (fetch_site memory (u32 (pc + 4)) require)) [
                          | inl missing ↦
                              finish_missing-Outcome walk (omega arith) fetches
                                (as_transfer ∙ leaves) missing
                          | inr (slot, h) ↦
                              finish_control_transfer-Outcome walk (omega arith) fetches
                                (as_transfer ∙ leaves) h
                        ])
                        λ stays.
                          analyze_loop-Outcome left start limit (u32 (pc + 4))
                            (sites ++ (site ∷ []))
                            (Walks-snoc sites site walk fetches
                              (rw (as_invalid ∙ known, as_trap ∙ quiet, as_transfer ∙ stays) refl))
                            (omega (arith, length-append sites (site ∷ []))))
      ]

-- In a map that satisfies its invariant the analysis of an address finds the block that stands
-- there: straight-line code of at most as many instructions as the limit, with its terminator, the
-- delay slot and the architecture's targets. Otherwise it reports the limit of zero, the unaligned
-- address, or the missing or forbidden fetch that prevents it.
pub analyze_r5900_basic_block-Outcome :
    (memory : Ps2MemoryMap) (start : ℕ) (options : R5900ControlFlowOptions)
    → IsMap memory
    → Outcome memory options.require_executable start options.max_instructions
        (analyze_r5900_basic_block memory start options)
unfolding analyze_r5900_basic_block
analyze_r5900_basic_block-Outcome memory start options valid =
    Outcome-if memory options.require_executable valid (options.max_instructions == 0)
      (λ none. no_limit (ground arith))
      λ _.
        Outcome-if memory options.require_executable valid (not (bit_and start 3 == 0))
          (λ off. unaligned (ground (arith, bit_and_mask 2 start)))
          λ _.
            analyze_loop-Outcome memory options.require_executable valid options.max_instructions
              start options.max_instructions start [] here (omega arith)
