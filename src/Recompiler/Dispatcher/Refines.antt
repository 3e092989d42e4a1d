-- ===== src/Recompiler/Dispatcher/Refines.antt =====
-- The dispatcher runs the guest's program: the state, the count of instructions and the address that
-- it returns are those of the guest's own execution.
use burnout_3_recompiled.Common.{
  ℕ, zero, suc, Option, some, none, List, [], ◌∷◌, ◌≡◌, refl, sym, ap, ◌∙◌, ◌==◌, Bool-cases,
  Option-cases, inl, inr, length, subst,
}
use burnout_3_recompiled.Runtime.MemoryMap.{Ps2MemoryMap}
use burnout_3_recompiled.Runtime.MemoryMap.Spans.{IsMap}
use burnout_3_recompiled.Recompiler.Executor.{R5900IrExecutionState, R5900IrExecutionResult}
use burnout_3_recompiled.Analysis.ControlFlow.{R5900InstructionSite, analyze_r5900_basic_block}
use burnout_3_recompiled.Analysis.ControlFlow.Found.{
  Result-cases, analyze_r5900_basic_block-IsBlock,
}
use burnout_3_recompiled.Recompiler.Dispatcher.{
  R5900DispatchStopReason as Reason, R5900BlockDispatcherOptions, Boundary, Backend, IsBackend,
  Cache, Run, lower_prefix, exact_cache_hit, cache_find, fingerprint_guest_words, replacement,
  compile_and_execute, execute_prefix, count_miss, count_recompilation, dispatch_block, run_round,
  run_loop, run, start_run, prefix_of,
}
use burnout_3_recompiled.Recompiler.Dispatcher.Guest.{stays, IsBlock-HasWords}
use burnout_3_recompiled.Recompiler.Dispatcher.Prefix.{
  sites_of, IsPrefix, prefix_of-IsPrefix, Follows-sites_of, guest_words_of-passed,
}
use burnout_3_recompiled.Recompiler.Dispatcher.Lowered.{Stage-cases, lower_prefix-reason}
use burnout_3_recompiled.Recompiler.Dispatcher.Cache.{
  IsCache, IsFound, cache_find-IsFound, cache_put-IsCache, exact_cache_hit-IsCompiled,
}
use burnout_3_recompiled.Recompiler.Dispatcher.Rounds.{
  Round-cases, Acts, acted, failed, miss-Acts, recompilation-Acts, hit-Acts, IsRunTo, IsRunOf,
  IsRound, halts, advance-IsRound, halt-IsRunOf, halted-IsRunOf, going-IsRunTo, nothing-follows,
}

module _ (f32_add : ℕ → ℕ → ℕ) (b : Backend) (lawful : IsBackend f32_add b) where
  compile_and_execute-Acts :
      (run : Run b) (pc : ℕ) (prefix : List R5900InstructionSite) (words : List ℕ)
      → sites_of pc words ≡ prefix
      → IsCache f32_add b run.cache
      → Acts f32_add b run prefix pc (compile_and_execute b run pc prefix words)
  unfolding compile_and_execute
  compile_and_execute-Acts run pc prefix words same cache =
      elim (Stage-cases (lower_prefix prefix)) [
        | inr (reason, at, e) ↦
            rw (e, compile_and_execute)
              (failed refl refl cache (inr (lower_prefix-reason prefix e)))
        | inl (irs, e) ↦ elim (Option-cases (b.compile irs run.host).0) [
          | inl none_compiled ↦
              rw (e, compile_and_execute) (rw (none_compiled) (failed refl refl cache (inl refl)))
          | inr (native, compiled) ↦
              let acts = lawful.compiled irs run.host compiled in
              rw (e, compile_and_execute)
                (rw (compiled) (
                  acted e (ap (λ (x : R5900IrExecutionResult). x.state) (sym (acts run.state))) refl
                    (cache_put-IsCache f32_add b pc
                      (replacement b pc (length prefix) (fingerprint_guest_words pc words) words
                        native)
                      run.cache
                      (record { irs = irs; lowers = ap lower_prefix same ∙ e; acts = acts })
                      cache)))
        ]
      ]

  execute_prefix-Acts :
      (run : Run b) (pc : ℕ) (prefix : List R5900InstructionSite) (words : List ℕ)
      → sites_of pc words ≡ prefix
      → IsCache f32_add b run.cache
      → Acts f32_add b run prefix pc (execute_prefix b run pc prefix words)
  unfolding execute_prefix
  execute_prefix-Acts run pc prefix words same cache =
      elim (Option-cases (cache_find b pc run.cache)) [
        | inl absent ↦
            rw (absent, execute_prefix)
              (miss-Acts f32_add b
                (compile_and_execute-Acts (count_miss b run) pc prefix words same cache))
        | inr (cached, present) ↦
            let entry =
              subst (IsFound f32_add b) present (cache_find-IsFound f32_add b pc run.cache cache) in
            elim (Bool-cases
              (exact_cache_hit b cached pc (fingerprint_guest_words pc words) words)) [
                | inl hit ↦
                    rw (present, execute_prefix)
                      (rw (hit) (
                        hit-Acts f32_add b run pc prefix words cached same cache (
                          exact_cache_hit-IsCompiled f32_add b cached pc
                            (fingerprint_guest_words pc words) words hit entry)))
                | inr stale ↦
                    rw (present, execute_prefix)
                      (rw (stale) (
                        recompilation-Acts f32_add b (
                          compile_and_execute-Acts (count_recompilation b run) pc prefix words same
                            cache)))
              ]
      ]

  module _ (memory : Ps2MemoryMap) (options : R5900BlockDispatcherOptions) (start_pc : ℕ)
      (state : R5900IrExecutionState) where
    dispatch_block-IsRound :
        {pc : ℕ} (run : Run b) (prefix : List R5900InstructionSite) (boundary : Option Boundary)
        → IsRunTo f32_add b memory start_pc state pc run
        → IsPrefix memory pc prefix boundary
        → IsRound f32_add b memory start_pc state
            (dispatch_block b memory options run pc prefix boundary)
    unfolding dispatch_block
    dispatch_block-IsRound {pc = pc} run [] none h p =
        halts (halt-IsRunOf f32_add b memory start_pc state run pc Reason.unsupported_instruction h)
    dispatch_block-IsRound {pc = pc} run [] (some stop) h p = halts (
        halt-IsRunOf f32_add b memory start_pc state run stop.boundary_pc stop.boundary_reason (
          subst (λ q. IsRunTo f32_add b memory start_pc state q run)
            (nothing-follows f32_add b memory start_pc state p.follows ∙ sym p.stops) h))
    dispatch_block-IsRound {pc = pc} run (site ∷ rest) boundary h p =
        rw (guest_words_of-passed memory p.follows, dispatch_block)
          (advance-IsRound f32_add b memory start_pc state run boundary h p (
            execute_prefix-Acts run pc (site ∷ rest) p.words
              (sym (Follows-sites_of memory p.follows)) h.cached))

    module _ (valid : IsMap memory) where
      pub run_round-IsRound :
          (run : Run b) (pc : ℕ)
          → IsRunTo f32_add b memory start_pc state pc run
          → IsRound f32_add b memory start_pc state (run_round b memory options run pc)
      unfolding run_round
      run_round-IsRound run pc h =
          elim (Result-cases (analyze_r5900_basic_block memory pc options.block_options)) [
            | inr (why, fails) ↦
                rw (fails, run_round)
                  (halts
                    (halt-IsRunOf f32_add b memory start_pc state run pc Reason.analysis_failure h))
            | inl (block, found) ↦
                let known =
                  IsBlock-HasWords memory options.block_options.require_executable (
                    analyze_r5900_basic_block-IsBlock memory pc options.block_options valid
                      found) in
                rw (found, run_round)
                  (dispatch_block-IsRound run (prefix_of block.instructions).0
                    (prefix_of block.instructions).1 h (prefix_of-IsPrefix memory known.2))
          ]

      run_loop-IsRunOf :
          (left : ℕ) (run : Run b)
          → IsRunTo f32_add b memory start_pc state run.result.next_pc run
          → IsRunOf f32_add b memory start_pc state
              (run_loop b memory options left run run.result.next_pc)
      unfolding run_loop
      run_loop-IsRunOf zero run h = record {
        end = run.result.next_pc;
        is_run = record { cached = h.cached; executes = h.executes };
        at_end = inl refl;
      }
      run_loop-IsRunOf (suc left) run h =
          let round = run_round-IsRound run run.result.next_pc h in
          elim (Round-cases b (run_round b memory options run run.result.next_pc)) [
            | inl (stopped, e) ↦
                rw (e, run_loop)
                  (halted-IsRunOf f32_add b memory start_pc state
                    (subst (IsRound f32_add b memory start_pc state) e round))
            | inr (next, e) ↦
                rw (e, run_loop)
                  (run_loop-IsRunOf left next (
                    going-IsRunTo f32_add b memory start_pc state
                      (subst (IsRound f32_add b memory start_pc state) e round)))
          ]

      run-as :
          (cache : Cache b) (host : b.Host) (max_blocks : ℕ)
          → IsCache f32_add b cache
          → IsRunOf f32_add b memory start_pc state
              (run b memory options start_pc cache host state max_blocks)
      unfolding run
      run-as cache host max_blocks h =
          let start = start_run b memory options start_pc cache host state in
          let at_start : IsRunTo f32_add b memory start_pc state start_pc start = record {
            cached = h;
            executes = stays;
          } in
          elim (Bool-cases (max_blocks == 0)) [
            | inl nothing ↦ rw nothing (
                halt-IsRunOf f32_add b memory start_pc state start start_pc
                  Reason.invalid_block_budget at_start)
            | inr budget ↦ rw budget (run_loop-IsRunOf max_blocks start at_start)
          ]

-- On a valid map, with a backend whose blocks act as the reference executor and from a cache that
-- satisfies its invariant, a run executes the guest's own instructions: from the start address on,
-- as many as it reports, each read from the memory, decoded, admitted by the dispatcher, and acting
-- on the state as the architecture says. It leaves the state that this gives and a cache that
-- satisfies the invariant, and returns the address that is reached unless the reason is that an
-- instruction could not be lowered.
pub run-IsRunOf :
    (f32_add : ℕ → ℕ → ℕ) (b : Backend) (memory : Ps2MemoryMap)
    (options : R5900BlockDispatcherOptions) (start_pc : ℕ) (cache : Cache b) (host : b.Host)
    (state : R5900IrExecutionState) (max_blocks : ℕ)
    → IsBackend f32_add b
    → IsMap memory
    → IsCache f32_add b cache
    → IsRunOf f32_add b memory start_pc state
        (run b memory options start_pc cache host state max_blocks)
run-IsRunOf f32_add b memory options start_pc cache host state max_blocks lawful valid h =
    run-as f32_add b lawful memory options start_pc state valid cache host max_blocks h
