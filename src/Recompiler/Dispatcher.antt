-- ===== src/Recompiler/Dispatcher.antt =====
-- src/recompiler/windows/r5900_block_dispatcher.cpp: running guest code block by block.
-- The cache is an association list. A run carries the cache, the backend's host and the guest's state
-- beside the result that it fills in.
mod Types
mod Fingerprint
mod Selection
pub mod Guest
pub mod Prefix
pub mod Lowered
pub mod Cache
pub mod Rounds
pub mod Refines
pub mod Lookups
pub mod Counts
pub mod Reference
pub mod Transparent
pub mod Eligible
pub use Types.{
  R5900DispatchStopReason, R5900DispatchResult, R5900BlockDispatcherOptions, Backend, IsBackend,
  IsGranted, CachedBlock,
}
unfoldable pub use Fingerprint.{
  fnv_byte, fnv_le, fnv_u32_le, fnv_u64_le, fnv_words, fingerprint_guest_words,
}
unfoldable pub use Selection.{
  is_dispatcher_v0_eligible, stop_at, prefix_of, guest_words_of, join_lowered, lower_prefix,
}
pub use Selection.{Boundary, Stage}
use burnout_3_recompiled.Common.{
  ℕ, zero, suc, Bool, true, false, Option, some, none, List, [], ◌∷◌, ◌++◌, ◌+◌, ◌*◌, ◌%◌, ◌^◌,
  ◌==◌, ◌&&◌, ◌||◌, not, if◌then◌else◌, length, bit_and, bit_xor, shr, u32,
}
use burnout_3_recompiled.Runtime.MemoryMap.{Ps2MemoryMap, read_u32}
use burnout_3_recompiled.Recompiler.Decoder.{
  R5900Instruction, R5900InstructionClass, is_branch, is_jump,
}
use burnout_3_recompiled.Recompiler.Ir.{
  R5900IrInstruction, R5900IrLoweringError, lower_r5900_instruction,
}
use burnout_3_recompiled.Recompiler.Executor.{R5900IrExecutionState}
use burnout_3_recompiled.Analysis.ControlFlow.{
  R5900InstructionSite, R5900BasicBlockResult, is_system, analyze_r5900_basic_block,
}
use Types.{R5900DispatchStopReason as Reason}

unfoldable pub words_equal : List ℕ → List ℕ → Bool
words_equal [] [] = true
words_equal (x ∷ xs) (y ∷ ys) = (x == y) && words_equal xs ys
words_equal _ _ = false

module _ (b : Backend) where
  unfoldable pub exact_cache_hit : CachedBlock b → ℕ → ℕ → List ℕ → Bool
  exact_cache_hit cached current_pc fingerprint words =
      (cached.start_pc == current_pc)
      && (cached.guest_instruction_count == length words)
      && (cached.fingerprint == fingerprint)
      && words_equal cached.guest_words words

  -- The cache's keys are start addresses.
  abbrev pub Cache : Type 0
  Cache = List (ℕ × CachedBlock b)

  unfoldable pub cache_find : ℕ → Cache → Option (CachedBlock b)
  cache_find pc [] = none
  cache_find pc (entry ∷ rest) = if entry.0 == pc then some entry.1 else cache_find pc rest

  -- `cache_.emplace(current_pc, ...)`, or `cached->second = ...` where there is an entry.
  unfoldable pub cache_put : ℕ → CachedBlock b → Cache → Cache
  cache_put pc block [] = (pc, block) ∷ []
  cache_put pc block (entry ∷ rest) =
      if entry.0 == pc then (pc, block) ∷ rest else entry ∷ cache_put pc block rest

  abbrev pub clear_cache : Cache → Cache
  clear_cache cache = []

  abbrev pub cache_size : Cache → ℕ
  cache_size cache = length cache

  pub record Run : Type 0 where
    pub result : R5900DispatchResult
    pub cache : Cache
    pub host : b.Host
    pub state : R5900IrExecutionState

  -- A round of the loop returns, or goes on.
  pub data Round : Type 0 where
    halted : Run → Round
    going : Run → Round

  abbrev pub halt : Run → Reason → ℕ → Run
  halt run reason pc = record run { result = record run.result { reason = reason; next_pc = pc } }

  abbrev pub replacement : ℕ → ℕ → ℕ → List ℕ → b.Block → CachedBlock b
  replacement current_pc count fingerprint words native = record {
    start_pc = current_pc;
    end_pc_exclusive = u32 (current_pc + u32 (count * 4));
    fingerprint = fingerprint;
    guest_words = words;
    guest_instruction_count = length words;
    native_block = native;
  }

  -- The path without a cache hit, after the counters.
  unfoldable pub compile_and_execute : Run → ℕ → List R5900InstructionSite → List ℕ → Round
  compile_and_execute run current_pc prefix words = elim (lower_prefix prefix) [
    | Stage.refused reason pc ↦ Round.halted (halt run reason pc)
    | Stage.passed irs ↦
        let compiled = b.compile irs run.host in
        let run₁ = record run { host = compiled.1 } in
        elim compiled.0 [
          | none ↦ Round.halted (halt run₁ Reason.compile_failure current_pc)
          | some native ↦ Round.going (record run₁ {
            cache =
                cache_put current_pc
                  (replacement current_pc (length prefix) (fingerprint_guest_words current_pc words)
                    words native)
                  run.cache;
            state = b.execute native run.state;
          })
        ]
  ]

  abbrev pub count_miss : Run → Run
  count_miss run = record run {
    result = record run.result { cache_misses = run.result.cache_misses + 1 };
  }

  abbrev pub count_recompilation : Run → Run
  count_recompilation run = record run {
    result = record run.result { recompilations = run.result.recompilations + 1 };
  }

  abbrev pub execute_hit : Run → CachedBlock b → Run
  execute_hit run cached = record run {
    result = record run.result { cache_hits = run.result.cache_hits + 1 };
    state = b.execute cached.native_block run.state;
  }

  unfoldable pub execute_prefix : Run → ℕ → List R5900InstructionSite → List ℕ → Round
  execute_prefix run current_pc prefix words = elim (cache_find current_pc run.cache) [
    | none ↦ compile_and_execute (count_miss run) current_pc prefix words
    | some cached ↦
        if exact_cache_hit cached current_pc (fingerprint_guest_words current_pc words) words
        then Round.going (execute_hit run cached)
        else compile_and_execute (count_recompilation run) current_pc prefix words
  ]

  -- After a prefix of `count` instructions was executed.
  abbrev pub count_block : Run → ℕ → ℕ → Run
  count_block run current_pc count =
      let result = run.result in
      record run {
        result = record result {
          blocks_executed = result.blocks_executed + 1;
          instructions_executed = result.instructions_executed + count;
          next_pc = u32 (current_pc + u32 (count * 4));
        };
      }

  unfoldable pub advance : Round → ℕ → ℕ → Option Boundary → Round
  advance (Round.halted run) current_pc count boundary = Round.halted run
  advance (Round.going run) current_pc count none = Round.going (count_block run current_pc count)
  advance (Round.going run) current_pc count (some stop) =
      Round.halted (halt (count_block run current_pc count) stop.boundary_reason stop.boundary_pc)

  module _ (memory : Ps2MemoryMap) (options : R5900BlockDispatcherOptions) where
    -- The prefix of a block that was analysed.
    unfoldable pub dispatch_block : Run → ℕ → List R5900InstructionSite → Option Boundary → Round
    dispatch_block run current_pc [] none =
        Round.halted (halt run Reason.unsupported_instruction current_pc)
    dispatch_block run current_pc [] (some stop) =
        Round.halted (halt run stop.boundary_reason stop.boundary_pc)
    dispatch_block run current_pc (site ∷ rest) boundary =
        let prefix = site ∷ rest in
        elim (guest_words_of memory prefix) [
          | Stage.refused reason pc ↦ Round.halted (halt run reason pc)
          | Stage.passed words ↦
              advance (execute_prefix run current_pc prefix words) current_pc (length prefix)
                boundary
        ]

    unfoldable pub run_round : Run → ℕ → Round
    run_round run current_pc =
        elim (analyze_r5900_basic_block memory current_pc options.block_options) [
          | R5900BasicBlockResult.fail e ↦
              Round.halted (halt run Reason.analysis_failure current_pc)
          | R5900BasicBlockResult.succeed block ↦
              let split = prefix_of block.instructions in
              dispatch_block run current_pc split.0 split.1
        ]

    abbrev pub exhausted : Run → Run
    exhausted run = record run {
      result = record run.result { reason = Reason.block_budget_exhausted };
    }

    -- The loop, with `left` blocks of the budget to go. `next_pc` is the address of the next block.
    unfoldable pub run_loop : ℕ → Run → ℕ → Run
    run_loop zero run current_pc = exhausted run
    run_loop (suc left) run current_pc = elim (run_round run current_pc) [
      | Round.halted stopped ↦ stopped
      | Round.going next ↦ run_loop left next next.result.next_pc
    ]

    abbrev pub start_run : ℕ → Cache → b.Host → R5900IrExecutionState → Run
    start_run start_pc cache host state = record {
      result = record {
        reason = Reason.analysis_failure;
        next_pc = start_pc;
        blocks_executed = 0;
        instructions_executed = 0;
        cache_hits = 0;
        cache_misses = 0;
        recompilations = 0;
      };
      cache = cache;
      host = host;
      state = state;
    }

    unfoldable pub run : ℕ → Cache → b.Host → R5900IrExecutionState → ℕ → Run
    run start_pc cache host state max_blocks =
        let start = start_run start_pc cache host state in
        if max_blocks == 0
        then halt start Reason.invalid_block_budget start_pc
        else run_loop max_blocks start start_pc
