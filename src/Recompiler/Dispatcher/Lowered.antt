-- ===== src/Recompiler/Dispatcher/Lowered.antt =====
-- The lowering of a prefix, and what executing it does.
use burnout_3_recompiled.Common.{
  ℕ, List, [], ◌∷◌, ◌++◌, ◌≡◌, refl, sym, ap, ◌∙◌, arith, inl, inr, length, subst, ◌⊎◌, All,
  All-append,
}
use mathlib.Core.List.{append-nil}
use burnout_3_recompiled.Runtime.MemoryMap.{Ps2MemoryMap}
use burnout_3_recompiled.Recompiler.Decoder.{decode_r5900}
use burnout_3_recompiled.Recompiler.Ir.{
  R5900IrInstruction, R5900IrLoweringError, lower_r5900_instruction,
}
use burnout_3_recompiled.Recompiler.Ir.Valid.{IsValid, lower_r5900_instruction-IsValid}
use burnout_3_recompiled.Recompiler.Executor.{
  R5900IrExecutionState, R5900IrExecutionResult, execute_r5900_ir, normalize_zero,
}
use burnout_3_recompiled.Recompiler.Executor.Normal.{execute-append}
use burnout_3_recompiled.Recompiler.Isa.{isa_step}
use burnout_3_recompiled.Recompiler.Isa.Exact.{execute-lower}
use burnout_3_recompiled.Analysis.ControlFlow.{R5900InstructionSite}
use burnout_3_recompiled.Recompiler.Dispatcher.{
  Stage, R5900DispatchStopReason, join_lowered, lower_prefix,
}
use burnout_3_recompiled.Recompiler.Dispatcher.Guest.{
  Follows, ended, next, Executes, Executes-to, stays, steps,
}
use burnout_3_recompiled.Recompiler.Dispatcher.Prefix.{IsEligible}

pub Stage-cases :
    (r : Stage (List R5900IrInstruction))
    → ((irs : List R5900IrInstruction) × (r ≡ Stage.passed irs))
      ⊎ ((reason : R5900DispatchStopReason) × (pc : ℕ) × (r ≡ Stage.refused reason pc))
Stage-cases (Stage.passed irs) = inl (irs, refl)
Stage-cases (Stage.refused reason pc) = inr (reason, pc, refl)

irs_of : Stage (List R5900IrInstruction) → List R5900IrInstruction
irs_of (Stage.passed irs) = irs
irs_of (Stage.refused reason pc) = []

pub passed-inj :
    {irs irs' : List R5900IrInstruction} → Stage.passed irs ≡ Stage.passed irs' → irs ≡ irs'
unfolding irs_of
passed-inj e = ap irs_of e

-- The instruction lowers, and so do those after it.
record Lowers (e : R5900IrLoweringError) (irs : List R5900IrInstruction)
    (later : Stage (List R5900IrInstruction)) (all : List R5900IrInstruction) : Type 0 where
  lowers : e ≡ R5900IrLoweringError.none
  others : List R5900IrInstruction
  rest_lowers : later ≡ Stage.passed others
  joined : irs ++ others ≡ all

join_lowered-Lowers :
    (e : R5900IrLoweringError) (irs : List R5900IrInstruction) (pc : ℕ)
    (later : Stage (List R5900IrInstruction)) (all : List R5900IrInstruction)
    → join_lowered e irs pc later ≡ Stage.passed all
    → Lowers e irs later all
unfolding join_lowered
join_lowered-Lowers R5900IrLoweringError.none irs pc (Stage.passed rest) all h = record {
  lowers = refl;
  others = rest;
  rest_lowers = refl;
  joined = passed-inj h;
}
join_lowered-Lowers R5900IrLoweringError.none irs pc (Stage.refused reason at) all h = absurd (cc h)
join_lowered-Lowers R5900IrLoweringError.unsupported_instruction irs pc later all h = absurd (cc h)

abbrev LowersAt :
    R5900InstructionSite → List R5900InstructionSite → List R5900IrInstruction → Type 0
LowersAt site rest all =
    let lowered = lower_r5900_instruction site.decoded site.pc in
    Lowers lowered.error lowered.instructions (lower_prefix rest) all

lower_prefix-LowersAt :
    (site : R5900InstructionSite) (rest : List R5900InstructionSite) (all : List R5900IrInstruction)
    → lower_prefix (site ∷ rest) ≡ Stage.passed all
    → LowersAt site rest all
unfolding lower_prefix
lower_prefix-LowersAt site rest all h = join_lowered-Lowers _ _ site.pc (lower_prefix rest) all h

module _ (memory : Ps2MemoryMap) where
  -- The validator accepts the lowered prefix.
  pub lower_prefix-IsValid :
      {pc end : ℕ} {sites : List R5900InstructionSite} {words : List ℕ}
      (irs : List R5900IrInstruction)
      → Follows memory pc sites words end
      → lower_prefix sites ≡ Stage.passed irs
      → All IsValid irs
  unfolding lower_prefix
  lower_prefix-IsValid irs ended h = subst (All IsValid) (passed-inj h) tt
  lower_prefix-IsValid irs (next {pc = pc} {word = word} {sites = sites} r f) h =
      let l = lower_prefix-LowersAt (record { pc = pc; decoded = decode_r5900 word }) sites irs h in
      subst (All IsValid) l.joined (
        All-append IsValid _ l.others (lower_r5900_instruction-IsValid word pc)
          (lower_prefix-IsValid l.others f l.rest_lowers))

module _ (f32_add : ℕ → ℕ → ℕ) (memory : Ps2MemoryMap) where
  -- Executing the lowered prefix is executing its instructions.
  pub lower_prefix-Executes :
      {pc end : ℕ} {site : R5900InstructionSite} {sites : List R5900InstructionSite}
      {words : List ℕ} (irs : List R5900IrInstruction) (s : R5900IrExecutionState)
      → Follows memory pc (site ∷ sites) words end
      → All IsEligible (site ∷ sites)
      → lower_prefix (site ∷ sites) ≡ Stage.passed irs
      → Executes f32_add memory pc s
          (length (site ∷ sites))
          end
          (execute_r5900_ir f32_add irs s).state
  unfolding lower_prefix
  lower_prefix-Executes irs s (next {pc = pc} {word = word} r ended) el h =
      let l = lower_prefix-LowersAt (record { pc = pc; decoded = decode_r5900 word }) [] irs h in
      let lowered = (lower_r5900_instruction (decode_r5900 word) pc).instructions in
      let same : lowered ≡ irs =
        sym (append-nil lowered)
        ∙ ap (λ (x : List R5900IrInstruction). lowered ++ x) (passed-inj l.rest_lowers)
        ∙ l.joined in
      Executes-to f32_add memory (omega arith)
        (ap (λ (x : R5900IrExecutionResult). x.state)
          (sym (execute-lower f32_add word pc s l.lowers)
            ∙ ap (λ x. execute_r5900_ir f32_add x s) same))
        (steps r el.0 stays)
  lower_prefix-Executes irs s
        (next {pc = pc} {word = word} r (next {pc = pc₁} {word = word₁} {sites = sites} r₁ f)) el
        h =
      let second : R5900InstructionSite = record { pc = pc₁; decoded = decode_r5900 word₁ } in
      let l =
        lower_prefix-LowersAt (record { pc = pc; decoded = decode_r5900 word }) (second ∷ sites) irs
          h in
      let lowered = (lower_r5900_instruction (decode_r5900 word) pc).instructions in
      let first = execute-lower f32_add word pc s l.lowers in
      let after =
        isa_step f32_add (decode_r5900 word) (normalize_zero s) (decode_r5900 word).instruction in
      let later = lower_prefix-Executes l.others after (next r₁ f) el.1 l.rest_lowers in
      Executes-to f32_add memory (omega arith)
        (ap (λ (x : R5900IrExecutionResult). x.state)
          (ap (λ (x : R5900IrExecutionResult). execute_r5900_ir f32_add l.others x.state)
              (sym first)
            ∙ sym (
                execute-append f32_add lowered l.others s (lower_r5900_instruction-IsValid word pc))
            ∙ ap (λ x. execute_r5900_ir f32_add x s) l.joined))
        (steps r el.0 later)

join_lowered-reason :
    (e : R5900IrLoweringError) (irs : List R5900IrInstruction) (pc : ℕ)
    (later : Stage (List R5900IrInstruction)) {reason : R5900DispatchStopReason} {at : ℕ}
    → ((r : R5900DispatchStopReason) (q : ℕ)
        → later ≡ Stage.refused r q
        → r ≡ R5900DispatchStopReason.lowering_failure)
    → join_lowered e irs pc later ≡ Stage.refused reason at
    → reason ≡ R5900DispatchStopReason.lowering_failure
unfolding join_lowered
join_lowered-reason R5900IrLoweringError.none irs pc (Stage.passed rest) k h = absurd (cc h)
join_lowered-reason R5900IrLoweringError.none irs pc (Stage.refused r q) k h = cc (k r q refl, h)
join_lowered-reason R5900IrLoweringError.unsupported_instruction irs pc later k h = cc h

-- The only reason for which the lowering of a prefix stops.
pub lower_prefix-reason :
    (sites : List R5900InstructionSite) {reason : R5900DispatchStopReason} {at : ℕ}
    → lower_prefix sites ≡ Stage.refused reason at
    → reason ≡ R5900DispatchStopReason.lowering_failure
unfolding lower_prefix
lower_prefix-reason [] h = absurd (cc h)
lower_prefix-reason (site ∷ rest) h =
    join_lowered-reason _ _ site.pc (lower_prefix rest) (λ r q k. lower_prefix-reason rest k) h
