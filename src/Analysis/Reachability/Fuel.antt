-- ===== src/Analysis/Reachability/Fuel.antt =====
-- The fuel of the loop over the worklist in src/analysis/r5900_reachability.cpp does not matter.
use burnout_3_recompiled.Common.{
  ℕ, zero, suc, ◌≡◌, ◌≢◌, refl, sym, ◌∙◌, ◌+◌, ◌*◌, ◌==◌, ◌≤◌, leb, arith, Bool-cases, List-cases,
  inl, inr, length,
}
use burnout_3_recompiled.Runtime.MemoryMap.{Ps2MemoryMap}
use burnout_3_recompiled.Runtime.MemoryMap.Spans.{IsMap}
use burnout_3_recompiled.Analysis.ControlFlow.{analyze_r5900_basic_block}
use burnout_3_recompiled.Analysis.ControlFlow.Found.{Result-cases}
use burnout_3_recompiled.Analysis.Reachability.{
  R5900ReachabilityOptions, R5900ReachabilityResult, Search, add_block, search_loop, search_start,
  analyze_r5900_reachability,
}
use burnout_3_recompiled.Analysis.Reachability.Ends.{failed_target}
use burnout_3_recompiled.Analysis.Reachability.Sound.{analyze_r5900_reachability-terminates}

module _ (memory : Ps2MemoryMap) (options : R5900ReachabilityOptions) where
  abbrev Ran : ℕ → Search → Type 0
  Ran fuel s = search_loop memory options fuel s ≢ R5900ReachabilityResult.out_of_fuel

  -- A loop that ends within some rounds ends in the same way when it has more of them.
  search_loop-more :
      (fuel more : ℕ) (s : Search)
      → Ran fuel s
      → fuel ≤ more
      → search_loop memory options more s ≡ search_loop memory options fuel s
  unfolding search_loop
  search_loop-more zero more s ran h = absurd (ran refl)
  search_loop-more (suc fuel) zero s ran h = absurd (omega arith)
  search_loop-more (suc fuel) (suc more) s ran h = elim (List-cases s.worklist) [
    | inl empty ↦ rw (empty, search_loop) refl
    | inr (pending, rest, e) ↦ elim (Bool-cases (leb options.max_blocks (length s.graph.blocks))) [
      | inl full ↦ rw (e, search_loop) (rw full refl)
      | inr room ↦
          elim (Result-cases (analyze_r5900_basic_block memory pending.pc options.block_options)) [
            | inl (block, good) ↦
                let next =
                  add_block options.follow_direct_calls block (record s { worklist = rest }) in
                let step : (n : ℕ)
                    → search_loop memory options (suc n) s ≡ search_loop memory options n next =
                  λ n. rw (e, search_loop) (rw room (rw good refl)) in
                step more
                ∙ search_loop-more fuel more next (λ out. ran (step fuel ∙ out)) (omega arith)
                ∙ sym (step fuel)
            | inr (why, bad) ↦ elim (Bool-cases pending.is_entry) [
              | inl first ↦ rw (e, search_loop) (rw room (rw bad (rw first refl)))
              | inr later ↦
                  let next = failed_target s pending rest why in
                  let step : (n : ℕ)
                      → search_loop memory options (suc n) s ≡ search_loop memory options n next =
                    λ n. rw (e, search_loop) (rw room (rw bad (rw later refl))) in
                  step more
                  ∙ search_loop-more fuel more next (λ out. ran (step fuel ∙ out)) (omega arith)
                  ∙ sym (step fuel)
            ]
          ]
    ]
  ]

-- On a valid map and with a limit that is not 0, the loop over the worklist ends on every entry point,
-- and any number of rounds from `2 * max_blocks + 2` on gives the analysis's result: the source's
-- loop, which has no bound of its own, ends with it.
pub analyze_r5900_reachability-search_loop :
    (memory : Ps2MemoryMap) (options : R5900ReachabilityOptions) (entry rounds : ℕ)
    → IsMap memory
    → options.max_blocks ≢ 0
    → 2 * options.max_blocks + 2 ≤ rounds
    → (search_loop memory options rounds (search_start entry)
        ≡ analyze_r5900_reachability memory options entry)
      × (search_loop memory options rounds (search_start entry)
          ≢ R5900ReachabilityResult.out_of_fuel)
unfolding analyze_r5900_reachability
analyze_r5900_reachability-search_loop memory options entry rounds valid some_limit enough =
    let fuel = 2 * options.max_blocks + 2 in
    let all : analyze_r5900_reachability memory options entry
        ≡ search_loop memory options fuel (search_start entry) =
      elim (Bool-cases (options.max_blocks == 0)) [
        | inl is_zero ↦ absurd (some_limit (ground arith))
        | inr limit ↦ rw limit refl
      ] in
    let ends = analyze_r5900_reachability-terminates memory options entry valid in
    let same =
      search_loop-more memory options fuel rounds (search_start entry) (λ out. ends (all ∙ out))
        enough
      ∙ sym all in
    (same, λ out. ends (sym same ∙ out))
