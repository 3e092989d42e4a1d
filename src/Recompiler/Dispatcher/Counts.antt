-- ===== src/Recompiler/Dispatcher/Counts.antt =====
-- The counters of a run, and the size of its cache.
use burnout_3_recompiled.Common.{
  ℕ, zero, suc, Option, some, none, List, [], ◌∷◌, ◌≡◌, ◌⊎◌, ◌+◌, ◌==◌, ◌≤◌, arith, Bool-cases, inl,
  inr, length, subst,
}
use burnout_3_recompiled.Runtime.MemoryMap.{Ps2MemoryMap}
use burnout_3_recompiled.Recompiler.Executor.{R5900IrExecutionState}
use burnout_3_recompiled.Analysis.ControlFlow.{R5900InstructionSite, analyze_r5900_basic_block}
use burnout_3_recompiled.Analysis.ControlFlow.Found.{Result-cases}
use burnout_3_recompiled.Recompiler.Dispatcher.{
  R5900DispatchStopReason as Reason, R5900BlockDispatcherOptions, Boundary, Backend, Cache, Run,
  Round, halt, dispatch_block, run_round, run_loop, run, start_run, prefix_of, guest_words_of,
}
use burnout_3_recompiled.Recompiler.Dispatcher.Rounds.{Round-cases}
use burnout_3_recompiled.Recompiler.Dispatcher.Lookups.{
  IsCounted, IsFailed, HasCounts, Counts, on, off, execute_prefix-Looked, advance-Counts,
  Words-cases,
}

module _ (b : Backend) (size : ℕ) where
  module _ (memory : Ps2MemoryMap) (options : R5900BlockDispatcherOptions) where
    halt-Counts :
        (run : Run b) (reason : Reason) (pc : ℕ)
        → IsCounted b size run
        → Counts b size run.result.blocks_executed (Round.halted (halt b run reason pc))
    halt-Counts run reason pc h =
        off (inl (record { counted = h.counted; sized = h.sized; nonempty = h.nonempty }))
          (omega arith)

    dispatch_block-Counts :
        (run : Run b) (pc : ℕ) (prefix : List R5900InstructionSite) (boundary : Option Boundary)
        → IsCounted b size run
        → Counts b size run.result.blocks_executed
            (dispatch_block b memory options run pc prefix boundary)
    unfolding dispatch_block
    dispatch_block-Counts run pc [] none h = halt-Counts run Reason.unsupported_instruction pc h
    dispatch_block-Counts run pc [] (some stop) h =
        halt-Counts run stop.boundary_reason stop.boundary_pc h
    dispatch_block-Counts run pc (site ∷ rest) boundary h =
        elim (Words-cases (guest_words_of memory (site ∷ rest))) [
          | inl (words, e) ↦
              rw (e, dispatch_block)
                (advance-Counts b size run.result.blocks_executed pc (length (site ∷ rest)) boundary
                  (omega arith) (execute_prefix-Looked b size run pc (site ∷ rest) words h))
          | inr (reason, at, e) ↦ rw (e, dispatch_block) (halt-Counts run reason at h)
        ]

    run_round-Counts :
        (run : Run b) (pc : ℕ)
        → IsCounted b size run
        → Counts b size run.result.blocks_executed (run_round b memory options run pc)
    unfolding run_round
    run_round-Counts run pc h =
        elim (Result-cases (analyze_r5900_basic_block memory pc options.block_options)) [
          | inr (why, fails) ↦ rw (fails, run_round) (halt-Counts run Reason.analysis_failure pc h)
          | inl (block, analysed) ↦
              rw (analysed, run_round)
                (dispatch_block-Counts run pc (prefix_of block.instructions).0
                  (prefix_of block.instructions).1 h)
        ]

    going-IsCounted :
        {k : ℕ} {run : Run b}
        → Counts b size k (Round.going run)
        → IsCounted b size run × (run.result.blocks_executed ≡ suc k)
    going-IsCounted (on h e) = (h, e)

    halted-IsCounted :
        {k : ℕ} {run : Run b}
        → Counts b size k (Round.halted run)
        → (IsCounted b size run ⊎ IsFailed b size run) × (run.result.blocks_executed ≤ suc k)
    halted-IsCounted (off h e) = (h, e)

    run_loop-IsCounted :
        (left : ℕ) (run : Run b) (pc : ℕ)
        → IsCounted b size run
        → HasCounts b size
            (run.result.blocks_executed + left)
            (run_loop b memory options left run pc)
    unfolding run_loop
    run_loop-IsCounted zero run pc h =
        (inl (record { counted = h.counted; sized = h.sized; nonempty = h.nonempty }), omega arith)
    run_loop-IsCounted (suc left) run pc h =
        let round = run_round-Counts run pc h in
        elim (Round-cases b (run_round b memory options run pc)) [
          | inl (stopped, e) ↦
              let known =
                halted-IsCounted (subst (Counts b size run.result.blocks_executed) e round) in
              rw (e, run_loop) (known.0, omega (arith, known.1))
          | inr (next, e) ↦
              let known =
                going-IsCounted (subst (Counts b size run.result.blocks_executed) e round) in
              let later = run_loop-IsCounted left next next.result.next_pc known.0 in
              rw (e, run_loop) (later.0, omega (arith, later.1, known.1))
        ]

-- From whatever cache, a run executes at most `max_blocks` blocks, each of at least one instruction.
-- Its hits, misses and recompilations add up to the blocks, and its cache has grown by the misses.
-- When it ends with a failure of the lowering or of the compiler they add up to one more, and the
-- cache has grown by the misses or by one less.
pub run-IsCounted :
    (b : Backend) (memory : Ps2MemoryMap) (options : R5900BlockDispatcherOptions) (start_pc : ℕ)
    (cache : Cache b) (host : b.Host) (state : R5900IrExecutionState) (max_blocks : ℕ)
    → HasCounts b
        (length cache)
        max_blocks
        (run b memory options start_pc cache host state max_blocks)
unfolding run
run-IsCounted b memory options start_pc cache host state max_blocks =
    let start = start_run b memory options start_pc cache host state in
    let fresh : IsCounted b (length cache) start = record {
      counted = omega arith;
      sized = omega arith;
      nonempty = omega arith;
    } in
    elim (Bool-cases (max_blocks == 0)) [
      | inl nothing ↦ rw nothing (
        inl (record { counted = fresh.counted; sized = fresh.sized; nonempty = fresh.nonempty }),
        omega arith,
      )
      | inr budget ↦ rw budget (
          let known =
            run_loop-IsCounted b (length cache) memory options max_blocks start start_pc fresh in
          (known.0, omega (arith, known.1)))
    ]
