-- ===== src/Recompiler/Dispatcher/Transparent.antt =====
-- The cache and the backend change nothing of what a run says and does.
use burnout_3_recompiled.Common.{
  ℕ, zero, suc, Option, some, none, List, [], ◌∷◌, ◌≡◌, refl, sym, ap, ◌∙◌, ◌==◌, Bool-cases,
  Option-cases, inl, inr, length, subst, All,
}
use burnout_3_recompiled.Runtime.MemoryMap.{Ps2MemoryMap}
use burnout_3_recompiled.Runtime.MemoryMap.Spans.{IsMap}
use burnout_3_recompiled.Recompiler.Ir.{R5900IrInstruction}
use burnout_3_recompiled.Recompiler.Ir.Valid.{IsValid}
use burnout_3_recompiled.Recompiler.Executor.{
  R5900IrExecutionState, R5900IrExecutionResult, R5900IrExecutionError, execute_r5900_ir,
}
use burnout_3_recompiled.Analysis.ControlFlow.{R5900InstructionSite, analyze_r5900_basic_block}
use burnout_3_recompiled.Analysis.ControlFlow.Found.{
  Result-cases, analyze_r5900_basic_block-IsBlock,
}
use burnout_3_recompiled.Recompiler.Dispatcher.{
  Stage, R5900BlockDispatcherOptions, Boundary, Backend, IsBackend, IsGranted, Cache, Run, Round,
  lower_prefix, exact_cache_hit, cache_find, fingerprint_guest_words, compile_and_execute,
  execute_prefix, count_miss, count_recompilation, advance, dispatch_block, run_round, run_loop,
  run, start_run, prefix_of,
}
use burnout_3_recompiled.Recompiler.Dispatcher.Guest.{stays, IsBlock-HasWords}
use burnout_3_recompiled.Recompiler.Dispatcher.Prefix.{
  sites_of, IsPrefix, prefix_of-IsPrefix, Follows-sites_of, guest_words_of-passed,
}
use burnout_3_recompiled.Recompiler.Dispatcher.Lowered.{Stage-cases, lower_prefix-IsValid}
use burnout_3_recompiled.Recompiler.Dispatcher.Cache.{
  IsCache, IsFound, cache_find-IsFound, exact_cache_hit-IsCompiled,
}
use burnout_3_recompiled.Recompiler.Dispatcher.Rounds.{Round-cases, IsRunTo, IsRound, going-IsRunTo}
use burnout_3_recompiled.Recompiler.Dispatcher.Refines.{run_round-IsRound}
use burnout_3_recompiled.Recompiler.Dispatcher.Reference.{
  Outcome, OutcomeRound, stop_with, count_prefix, reference_boundary, executed, reference_lowered,
  reference_prefix, reference_analysed, reference_round, reference_loop, reference_run, outcome,
  round_outcome,
}

module _ (f32_add : ℕ → ℕ → ℕ) (b : Backend) (lawful : IsBackend f32_add b)
    (granted : IsGranted b) where
  executing : Outcome → Stage (List R5900IrInstruction) → OutcomeRound
  executing o (Stage.refused reason at) = stop_with o reason at
  executing o (Stage.passed irs) = OutcomeRound.goes_on (executed f32_add o irs)

  -- The reference executor gives the state that the compiled block gives.
  acts-state :
      (irs : List R5900IrInstruction) (s : R5900IrExecutionState) {t : R5900IrExecutionState}
      → execute_r5900_ir f32_add irs s ≡ record { error = R5900IrExecutionError.none; state = t }
      → t ≡ (execute_r5900_ir f32_add irs s).state
  acts-state irs s h = ap (λ (x : R5900IrExecutionResult). x.state) (sym h)

  compile_and_execute-executing :
      (run : Run b) (pc : ℕ) (prefix : List R5900InstructionSite) (words : List ℕ)
      → ((irs : List R5900IrInstruction) → lower_prefix prefix ≡ Stage.passed irs → All IsValid irs)
      → round_outcome b (compile_and_execute b run pc prefix words)
        ≡ executing (outcome b run) (lower_prefix prefix)
  unfolding compile_and_execute executing
  compile_and_execute-executing run pc prefix words accepted =
      elim (Stage-cases (lower_prefix prefix)) [
        | inr (reason, at, e) ↦ rw (e, compile_and_execute) refl
        | inl (irs, e) ↦
            let native = granted.granted irs run.host (accepted irs e) in
            rw (e, compile_and_execute)
              (rw (native.1) (
                ap
                  (λ (t : R5900IrExecutionState).
                    OutcomeRound.goes_on (record (outcome b run) { state = t }))
                  (acts-state irs run.state (lawful.compiled irs run.host native.1 run.state))))
      ]

  execute_prefix-executing :
      (run : Run b) (pc : ℕ) (prefix : List R5900InstructionSite) (words : List ℕ)
      → ((irs : List R5900IrInstruction) → lower_prefix prefix ≡ Stage.passed irs → All IsValid irs)
      → sites_of pc words ≡ prefix
      → IsCache f32_add b run.cache
      → round_outcome b (execute_prefix b run pc prefix words)
        ≡ executing (outcome b run) (lower_prefix prefix)
  unfolding execute_prefix executing
  execute_prefix-executing run pc prefix words accepted same cache =
      elim (Option-cases (cache_find b pc run.cache)) [
        | inl absent ↦
            rw (absent, execute_prefix)
              (compile_and_execute-executing (count_miss b run) pc prefix words accepted)
        | inr (cached, present) ↦
            let entry =
              subst (IsFound f32_add b) present (cache_find-IsFound f32_add b pc run.cache cache) in
            elim (Bool-cases
              (exact_cache_hit b cached pc (fingerprint_guest_words pc words) words)) [
                | inl hit ↦
                    let h =
                      exact_cache_hit-IsCompiled f32_add b cached pc
                        (fingerprint_guest_words pc words) words hit entry in
                    rw (present, execute_prefix)
                      (rw (hit) (
                        rw (ap lower_prefix (sym same) ∙ h.lowers) (
                          ap
                            (λ (t : R5900IrExecutionState).
                              OutcomeRound.goes_on (record (outcome b run) { state = t }))
                            (acts-state h.irs run.state (h.acts run.state)))))
                | inr stale ↦
                    rw (present, execute_prefix)
                      (rw (stale) (
                        compile_and_execute-executing (count_recompilation b run) pc prefix words
                          accepted))
              ]
      ]

  onward : OutcomeRound → ℕ → ℕ → Option Boundary → OutcomeRound
  unfolding reference_boundary
  onward (OutcomeRound.over o) pc count boundary = OutcomeRound.over o
  onward (OutcomeRound.goes_on o) pc count boundary =
      reference_boundary (count_prefix o pc count) boundary

  round_outcome-advance :
      (round : Round b) (pc count : ℕ) (boundary : Option Boundary)
      → round_outcome b (advance b round pc count boundary)
        ≡ onward (round_outcome b round) pc count boundary
  unfolding advance onward reference_boundary
  round_outcome-advance (Round.halted run) pc count boundary = refl
  round_outcome-advance (Round.going run) pc count none = refl
  round_outcome-advance (Round.going run) pc count (some stop) = refl

  onward-executing :
      (o : Outcome) (stage : Stage (List R5900IrInstruction)) (pc count : ℕ)
      (boundary : Option Boundary)
      → onward (executing o stage) pc count boundary
        ≡ reference_lowered f32_add o pc count boundary stage
  unfolding onward executing reference_lowered
  onward-executing o (Stage.refused reason at) pc count boundary = refl
  onward-executing o (Stage.passed irs) pc count boundary = refl

  dispatch_block-reference_prefix :
      (memory : Ps2MemoryMap) (options : R5900BlockDispatcherOptions) (run : Run b) (pc : ℕ)
      (prefix : List R5900InstructionSite) (boundary : Option Boundary)
      → IsPrefix memory pc prefix boundary
      → IsCache f32_add b run.cache
      → round_outcome b (dispatch_block b memory options run pc prefix boundary)
        ≡ reference_prefix f32_add (outcome b run) pc prefix boundary
  unfolding dispatch_block reference_prefix
  dispatch_block-reference_prefix memory options run pc [] none p cache = refl
  dispatch_block-reference_prefix memory options run pc [] (some stop) p cache = refl
  dispatch_block-reference_prefix memory options run pc (site ∷ rest) boundary p cache =
      let prefix = site ∷ rest in
      rw (guest_words_of-passed memory p.follows, dispatch_block)
        (round_outcome-advance (execute_prefix b run pc prefix p.words) pc (length prefix) boundary
          ∙ ap (λ r. onward r pc (length prefix) boundary)
              (execute_prefix-executing run pc prefix p.words
                (λ irs e. lower_prefix-IsValid memory irs p.follows e)
                (sym (Follows-sites_of memory p.follows)) cache)
          ∙ onward-executing (outcome b run) (lower_prefix prefix) pc (length prefix) boundary)

  module _ (memory : Ps2MemoryMap) (options : R5900BlockDispatcherOptions)
      (valid : IsMap memory) where
    run_round-reference_round :
        (run : Run b) (pc : ℕ)
        → IsCache f32_add b run.cache
        → round_outcome b (run_round b memory options run pc)
          ≡ reference_round f32_add memory options (outcome b run) pc
    unfolding run_round reference_round reference_analysed
    run_round-reference_round run pc cache =
        elim (Result-cases (analyze_r5900_basic_block memory pc options.block_options)) [
          | inr (why, fails) ↦ rw (fails, run_round, reference_round) refl
          | inl (block, analysed) ↦
              let known = IsBlock-HasWords memory options.block_options.require_executable (
                analyze_r5900_basic_block-IsBlock memory pc options.block_options valid analysed) in
              rw (analysed, run_round, reference_round)
                (dispatch_block-reference_prefix memory options run pc
                  (prefix_of block.instructions).0 (prefix_of block.instructions).1
                  (prefix_of-IsPrefix memory known.2) cache)
        ]

    module _ (start_pc : ℕ) (state : R5900IrExecutionState) where
      run_loop-reference_loop :
          (left : ℕ) (run : Run b)
          → IsRunTo f32_add b memory start_pc state run.result.next_pc run
          → outcome b (run_loop b memory options left run run.result.next_pc)
            ≡ reference_loop f32_add memory options left (outcome b run)
      unfolding run_loop reference_loop
      run_loop-reference_loop zero run h = refl
      run_loop-reference_loop (suc left) run h =
          let pc = run.result.next_pc in
          let same = run_round-reference_round run pc h.cached in
          elim (Round-cases b (run_round b memory options run pc)) [
            | inl (stopped, e) ↦
                rw (e, run_loop) (rw (sym same ∙ ap (round_outcome b) e, reference_loop) refl)
            | inr (next, e) ↦
                rw (e, run_loop)
                  (rw (sym same ∙ ap (round_outcome b) e, reference_loop)
                    (run_loop-reference_loop left next (
                      going-IsRunTo f32_add b memory start_pc state (
                        subst (IsRound f32_add b memory start_pc state) e (
                          run_round-IsRound f32_add b lawful memory options start_pc state valid run
                            pc h)))))
          ]

-- On a valid map, with a backend that compiles every accepted list of instructions into a block that
-- acts as the reference executor, a run returns the same reason, address and counts of blocks and
-- instructions, and leaves the same state, as the dispatcher that has no cache and executes the
-- prefix of each block with the reference executor, whatever the cache holds that satisfies its
-- invariant.
pub run-reference_run :
    (f32_add : ℕ → ℕ → ℕ) (b : Backend) (memory : Ps2MemoryMap)
    (options : R5900BlockDispatcherOptions) (start_pc : ℕ) (cache : Cache b) (host : b.Host)
    (state : R5900IrExecutionState) (max_blocks : ℕ)
    → IsBackend f32_add b
    → IsGranted b
    → IsMap memory
    → IsCache f32_add b cache
    → outcome b (run b memory options start_pc cache host state max_blocks)
      ≡ reference_run f32_add memory options start_pc state max_blocks
unfolding run reference_run
run-reference_run f32_add b memory options start_pc cache host state max_blocks lawful granted valid
      h =
    elim (Bool-cases (max_blocks == 0)) [
      | inl nothing ↦ rw nothing refl
      | inr budget ↦ rw budget (
          run_loop-reference_loop f32_add b lawful granted memory options valid start_pc state
            max_blocks (start_run b memory options start_pc cache host state)
            (record { cached = h; executes = stays }))
    ]
