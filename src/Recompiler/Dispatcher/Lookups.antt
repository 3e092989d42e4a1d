-- ===== src/Recompiler/Dispatcher/Lookups.antt =====
-- What a lookup in the cache does to the counters and to the size of the cache.
use burnout_3_recompiled.Common.{
  ℕ, suc, Option, some, none, List, [], ◌∷◌, ◌≡◌, ◌⊎◌, refl, ap, ◌+◌, ◌==◌, ◌≤◌, arith, Bool-cases,
  Option-cases, inl, inr, length,
}
use burnout_3_recompiled.Analysis.ControlFlow.{R5900InstructionSite}
use burnout_3_recompiled.Recompiler.Dispatcher.{
  Stage, R5900DispatchStopReason as Reason, R5900DispatchResult, Boundary, Backend, CachedBlock,
  Cache, Run, Round, lower_prefix, exact_cache_hit, cache_find, cache_put, fingerprint_guest_words,
  compile_and_execute, execute_prefix, count_miss, count_recompilation, advance, run,
}
use burnout_3_recompiled.Recompiler.Dispatcher.Lowered.{Stage-cases, lower_prefix-reason}

abbrev pub lookups : R5900DispatchResult → ℕ
lookups r = r.cache_hits + r.cache_misses + r.recompilations

abbrev pub IsFailure : Reason → Type 0
IsFailure reason = (reason ≡ Reason.lowering_failure) ⊎ (reason ≡ Reason.compile_failure)

-- An entry is added where there is none.
abbrev added : {b : Backend} → Option (CachedBlock b) → ℕ
added none = 1
added (some cached) = 0

length-cache_put :
    (b : Backend) (pc : ℕ) (block : CachedBlock b) (cache : Cache b)
    → length (cache_put b pc block cache) ≡ length cache + added (cache_find b pc cache)
unfolding cache_put cache_find
length-cache_put b pc block [] = omega arith
length-cache_put b pc block (entry ∷ rest) = elim (Bool-cases (entry.0 == pc)) [
  | inl here ↦ rw here (omega arith)
  | inr there ↦ rw there (omega (arith, length-cache_put b pc block rest))
]

pub Words-cases :
    (r : Stage (List ℕ))
    → ((words : List ℕ) × (r ≡ Stage.passed words))
      ⊎ ((reason : Reason) × (pc : ℕ) × (r ≡ Stage.refused reason pc))
Words-cases (Stage.passed words) = inl (words, refl)
Words-cases (Stage.refused reason pc) = inr (reason, pc, refl)

module _ (b : Backend) (size : ℕ) where
  -- Every block that was executed was looked up once, every miss has an entry, and no block is empty.
  pub record IsCounted (run : Run b) : Type 0 where
    pub counted : lookups run.result ≡ run.result.blocks_executed
    pub sized : length run.cache ≡ size + run.result.cache_misses
    pub nonempty : run.result.blocks_executed ≤ run.result.instructions_executed

  -- One block was looked up that was not executed, for one of two reasons. When it was a miss it
  -- has no entry.
  pub record IsFailed (run : Run b) : Type 0 where
    pub counted : lookups run.result ≡ run.result.blocks_executed + 1
    pub nonempty : run.result.blocks_executed ≤ run.result.instructions_executed
    pub failure : IsFailure run.result.reason
    pub at_most : length run.cache ≤ size + run.result.cache_misses
    pub at_least : size + run.result.cache_misses ≤ length run.cache + 1

abbrev pub HasCounts : (b : Backend) → ℕ → ℕ → Run b → Type 0
HasCounts b size bound run =
    (IsCounted b size run ⊎ IsFailed b size run) × (run.result.blocks_executed ≤ bound)

module _ (b : Backend) (size : ℕ) where
  -- A prefix was looked up.
  pub record IsLooked (k : ℕ) (run : Run b) : Type 0 where
    looked : lookups run.result ≡ k + 1
    executed : run.result.blocks_executed ≡ k
    looked_nonempty : k ≤ run.result.instructions_executed

  pub data Looked (k : ℕ) : Round b → Type 0 where
    found :
        {run : Run b}
        → IsLooked k run
        → length run.cache ≡ size + run.result.cache_misses
        → Looked k (Round.going run)
    lost :
        {run : Run b}
        → IsLooked k run
        → IsFailure run.result.reason
        → length run.cache ≤ size + run.result.cache_misses
        → size + run.result.cache_misses ≤ length run.cache + 1
        → Looked k (Round.halted run)

  compile_and_execute-Looked :
      (k : ℕ) (run : Run b) (pc : ℕ) (prefix : List R5900InstructionSite) (words : List ℕ)
      → IsLooked k run
      → ((block : CachedBlock b)
          → length (cache_put b pc block run.cache) ≡ size + run.result.cache_misses)
      → length run.cache ≤ size + run.result.cache_misses
      → size + run.result.cache_misses ≤ length run.cache + 1
      → Looked k (compile_and_execute b run pc prefix words)
  unfolding compile_and_execute
  compile_and_execute-Looked k run pc prefix words h sized most least =
      elim (Stage-cases (lower_prefix prefix)) [
        | inr (reason, at, e) ↦
            rw (e, compile_and_execute)
              (lost
                (record {
                  looked = h.looked;
                  executed = h.executed;
                  looked_nonempty = h.looked_nonempty;
                })
                (inl (lower_prefix-reason prefix e)) most least)
        | inl (irs, e) ↦ elim (Option-cases (b.compile irs run.host).0) [
          | inl none_compiled ↦
              rw (e, compile_and_execute)
                (rw (none_compiled) (
                  lost
                    (record {
                      looked = h.looked;
                      executed = h.executed;
                      looked_nonempty = h.looked_nonempty;
                    })
                    (inr refl) most least))
          | inr (native, compiled) ↦
              rw (e, compile_and_execute)
                (rw (compiled) (
                  found
                    (record {
                      looked = h.looked;
                      executed = h.executed;
                      looked_nonempty = h.looked_nonempty;
                    })
                    (sized _)))
        ]
      ]

  pub execute_prefix-Looked :
      (run : Run b) (pc : ℕ) (prefix : List R5900InstructionSite) (words : List ℕ)
      → IsCounted b size run
      → Looked run.result.blocks_executed (execute_prefix b run pc prefix words)
  unfolding execute_prefix
  execute_prefix-Looked run pc prefix words h = elim (Option-cases (cache_find b pc run.cache)) [
    | inl absent ↦
        rw (absent, execute_prefix)
          (compile_and_execute-Looked run.result.blocks_executed (count_miss b run) pc prefix words
            (record {
              looked = omega (arith, h.counted);
              executed = refl;
              looked_nonempty = h.nonempty;
            })
            (λ block.
              omega (arith, length-cache_put b pc block run.cache, ap added absent, h.sized))
            (omega (arith, h.sized)) (omega (arith, h.sized)))
    | inr (cached, present) ↦
        elim (Bool-cases (exact_cache_hit b cached pc (fingerprint_guest_words pc words) words)) [
          | inl hit ↦
              rw (present, execute_prefix)
                (rw (hit) (
                  found
                    (record {
                      looked = omega (arith, h.counted);
                      executed = refl;
                      looked_nonempty = h.nonempty;
                    })
                    h.sized))
          | inr stale ↦
              rw (present, execute_prefix)
                (rw (stale) (
                  compile_and_execute-Looked run.result.blocks_executed (count_recompilation b run)
                    pc prefix words
                    (record {
                      looked = omega (arith, h.counted);
                      executed = refl;
                      looked_nonempty = h.nonempty;
                    })
                    (λ block.
                      omega
                        (arith, length-cache_put b pc block run.cache, ap added present, h.sized))
                    (omega (arith, h.sized)) (omega (arith, h.sized))))
        ]
  ]

  -- What a round does to the counters.
  pub data Counts (k : ℕ) : Round b → Type 0 where
    on :
        {run : Run b}
        → IsCounted b size run
        → run.result.blocks_executed ≡ suc k
        → Counts k (Round.going run)
    off :
        {run : Run b}
        → IsCounted b size run ⊎ IsFailed b size run
        → run.result.blocks_executed ≤ suc k
        → Counts k (Round.halted run)

  pub advance-Counts :
      (k : ℕ) {round : Round b} (pc count : ℕ) (boundary : Option Boundary)
      → 1 ≤ count
      → Looked k round
      → Counts k (advance b round pc count boundary)
  unfolding advance
  advance-Counts k pc count boundary some_run (lost h f most least) =
      off
        (inr (record {
          counted = omega (arith, h.looked, h.executed);
          nonempty = omega (arith, h.executed, h.looked_nonempty);
          failure = f;
          at_most = most;
          at_least = least;
        }))
        (omega (arith, h.executed))
  advance-Counts k pc count none some_run (found h e) =
      on
        (record {
          counted = omega (arith, h.looked, h.executed);
          sized = e;
          nonempty = omega (arith, h.executed, h.looked_nonempty);
        })
        (omega (arith, h.executed))
  advance-Counts k pc count (some stop) some_run (found h e) =
      off
        (inl (record {
          counted = omega (arith, h.looked, h.executed);
          sized = e;
          nonempty = omega (arith, h.executed, h.looked_nonempty);
        }))
        (omega (arith, h.executed))
