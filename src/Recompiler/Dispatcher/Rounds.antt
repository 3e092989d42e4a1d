-- ===== src/Recompiler/Dispatcher/Rounds.antt =====
-- What a round of the dispatcher's loop does to the run.
use burnout_3_recompiled.Common.{
  ℕ, Option, some, none, List, [], ◌∷◌, ◌≡◌, ◌⊎◌, refl, sym, ap, ◌∙◌, arith, inl, inr, length,
  subst, All,
}
use burnout_3_recompiled.Runtime.MemoryMap.{Ps2MemoryMap}
use burnout_3_recompiled.Recompiler.Ir.{R5900IrInstruction}
use burnout_3_recompiled.Recompiler.Executor.{
  R5900IrExecutionState, R5900IrExecutionResult, execute_r5900_ir,
}
use burnout_3_recompiled.Analysis.ControlFlow.{R5900InstructionSite}
use burnout_3_recompiled.Recompiler.Dispatcher.{
  Stage, R5900DispatchStopReason as Reason, Boundary, Backend, CachedBlock, Run, Round, halt,
  lower_prefix, count_miss, count_recompilation, execute_hit, count_block, advance, run,
}
use burnout_3_recompiled.Recompiler.Dispatcher.Guest.{
  Follows, Executes, Executes-to, Executes-trans,
}
use burnout_3_recompiled.Recompiler.Dispatcher.Prefix.{sites_of, IsEligible, IsPrefix, Follows-end}
use burnout_3_recompiled.Recompiler.Dispatcher.Lowered.{lower_prefix-Executes}
use burnout_3_recompiled.Recompiler.Dispatcher.Cache.{IsCompiled, IsCache}

pub Round-cases :
    (b : Backend) (r : Round b)
    → ((run : Run b) × (r ≡ Round.halted run)) ⊎ ((run : Run b) × (r ≡ Round.going run))
Round-cases b (Round.halted run) = inl (run, refl)
Round-cases b (Round.going run) = inr (run, refl)

module _ (f32_add : ℕ → ℕ → ℕ) (b : Backend) where
  -- The prefix was executed, or nothing was and why.
  pub data Acts (before : Run b) (prefix : List R5900InstructionSite) (pc : ℕ)
      : Round b → Type 0 where
    acted :
        {after : Run b} {irs : List R5900IrInstruction}
        → lower_prefix prefix ≡ Stage.passed irs
        → after.state ≡ (execute_r5900_ir f32_add irs before.state).state
        → after.result.instructions_executed ≡ before.result.instructions_executed
        → IsCache f32_add b after.cache
        → Acts before prefix pc (Round.going after)
    failed :
        {after : Run b}
        → after.state ≡ before.state
        → after.result.instructions_executed ≡ before.result.instructions_executed
        → IsCache f32_add b after.cache
        → (after.result.next_pc ≡ pc) ⊎ (after.result.reason ≡ Reason.lowering_failure)
        → Acts before prefix pc (Round.halted after)

  module _ {run : Run b} {pc : ℕ} {prefix : List R5900InstructionSite} where
    pub miss-Acts :
        {round : Round b} → Acts (count_miss b run) prefix pc round → Acts run prefix pc round
    miss-Acts (acted e s n c) = acted e s n c
    miss-Acts (failed s n c p) = failed s n c p

    pub recompilation-Acts :
        {round : Round b}
        → Acts (count_recompilation b run) prefix pc round
        → Acts run prefix pc round
    recompilation-Acts (acted e s n c) = acted e s n c
    recompilation-Acts (failed s n c p) = failed s n c p

  pub hit-Acts :
      (run : Run b) (pc : ℕ) (prefix : List R5900InstructionSite) (words : List ℕ)
      (cached : CachedBlock b)
      → sites_of pc words ≡ prefix
      → IsCache f32_add b run.cache
      → IsCompiled f32_add b pc words cached.native_block
      → Acts run prefix pc (Round.going (execute_hit b run cached))
  hit-Acts run pc prefix words cached same cache h =
      acted (ap lower_prefix (sym same) ∙ h.lowers)
        (ap (λ (x : R5900IrExecutionResult). x.state) (sym (h.acts run.state))) refl cache

  module _ (memory : Ps2MemoryMap) (start_pc : ℕ) (state : R5900IrExecutionState) where
    -- The run has executed the guest's program up to an address.
    pub record IsRunTo (pc : ℕ) (run : Run b) : Type 0 where
      pub cached : IsCache f32_add b run.cache
      pub executes :
          Executes f32_add memory start_pc state run.result.instructions_executed pc run.state

    -- The address that is returned is the one reached, unless an instruction could not be lowered.
    pub record IsRunOf (run : Run b) : Type 0 where
      pub end : ℕ
      pub is_run : IsRunTo end run
      pub at_end : (run.result.next_pc ≡ end) ⊎ (run.result.reason ≡ Reason.lowering_failure)

    pub data IsRound : Round b → Type 0 where
      goes : {run : Run b} → IsRunTo run.result.next_pc run → IsRound (Round.going run)
      halts : {run : Run b} → IsRunOf run → IsRound (Round.halted run)

    pub halted-IsRunOf : {run : Run b} → IsRound (Round.halted run) → IsRunOf run
    halted-IsRunOf (halts h) = h

    pub going-IsRunTo : {run : Run b} → IsRound (Round.going run) → IsRunTo run.result.next_pc run
    going-IsRunTo (goes h) = h

    pub halt-IsRunOf :
        (run : Run b) (pc : ℕ) (reason : Reason) → IsRunTo pc run → IsRunOf (halt b run reason pc)
    halt-IsRunOf run pc reason h = record {
      end = pc;
      is_run = record { cached = h.cached; executes = h.executes };
      at_end = inl refl;
    }

    pub nothing-follows : {pc end : ℕ} {words : List ℕ} → Follows memory pc [] words end → pc ≡ end
    nothing-follows Follows.ended = refl

    acted-IsRunTo :
        {pc end : ℕ} {site : R5900InstructionSite} {sites : List R5900InstructionSite}
        {words : List ℕ} {irs : List R5900IrInstruction} (before after : Run b)
        → IsRunTo pc before
        → Follows memory pc (site ∷ sites) words end
        → All IsEligible (site ∷ sites)
        → lower_prefix (site ∷ sites) ≡ Stage.passed irs
        → after.state ≡ (execute_r5900_ir f32_add irs before.state).state
        → after.result.instructions_executed ≡ before.result.instructions_executed
        → IsCache f32_add b after.cache
        → IsRunTo end (count_block b after pc (length (site ∷ sites)))
    acted-IsRunTo {irs = irs} before after h f el lowers same count cache = record {
      cached = cache;
      executes = Executes-to f32_add memory (ground (arith, count)) (sym same) (
          Executes-trans f32_add memory h.executes
            (lower_prefix-Executes f32_add memory irs before.state f el lowers));
    }

    pub advance-IsRound :
        {pc : ℕ} {site : R5900InstructionSite} {sites : List R5900InstructionSite} (run : Run b)
        (boundary : Option Boundary) {round : Round b}
        → IsRunTo pc run
        → (p : IsPrefix memory pc (site ∷ sites) boundary) → Acts run (site ∷ sites) pc round
        → IsRound (advance b round pc (length (site ∷ sites)) boundary)
    unfolding advance
    advance-IsRound {pc = pc} run boundary h p (failed {after = after} s n c at) = halts (record {
      end = pc;
      is_run = record {
        cached = c;
        executes = Executes-to f32_add memory (sym n) (sym s) h.executes;
      };
      at_end = at;
    })
    advance-IsRound run none h p (acted {after = after} lowers s n c) = goes (
        subst (λ q. IsRunTo q _) (Follows-end memory p.follows)
          (acted-IsRunTo run after h p.follows p.eligible lowers s n c))
    advance-IsRound run (some stop) h p (acted {after = after} lowers s n c) = halts (
        halt-IsRunOf _ stop.boundary_pc stop.boundary_reason (
          subst (λ q. IsRunTo q _) (sym p.stops)
            (acted-IsRunTo run after h p.follows p.eligible lowers s n c)))
