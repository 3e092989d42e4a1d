-- ===== src/Tests/Dispatcher.antt =====
-- The dispatcher on a small program, with the reference executor as its backend.
use burnout_3_recompiled.Common.{
  ℕ, Bool, true, false, some, none, ◌≡◌, refl, sym, ap, ◌∙◌, List, [], ◌∷◌, if◌then◌else◌, ◌&&◌,
  All, Bool-cases, inl, inr, arith, switch, ◌==◌, ◌||◌, not,
}
use burnout_3_recompiled.Runtime.MemoryMap.{read_u32}
use burnout_3_recompiled.Recompiler.Decoder.{decode_r5900, is_branch, is_jump, direct_target}
use burnout_3_recompiled.Recompiler.Ir.{R5900IrInstruction, lower_r5900_instruction}
use burnout_3_recompiled.Recompiler.Ir.Valid.{IsValid}
use burnout_3_recompiled.Recompiler.Validation.{
  R5900IrValidationError, ok, validate_r5900_ir_instruction,
}
use burnout_3_recompiled.Recompiler.Executor.{
  R5900IrExecutionState, R5900IrExecutionResult, R5900IrExecutionError, execute_r5900_ir,
}
use burnout_3_recompiled.Recompiler.Executor.Normal.{execute-run_all}
use burnout_3_recompiled.Analysis.ControlFlow.{fetch_site, range_status, analyze_r5900_basic_block}
use burnout_3_recompiled.Recompiler.Dispatcher.{
  R5900DispatchStopReason as Reason, R5900BlockDispatcherOptions, Backend, IsBackend, IsGranted,
  Run, run, run_loop, run_round, dispatch_block, advance, execute_prefix, compile_and_execute,
  cache_find, prefix_of, stop_at, guest_words_of, lower_prefix, join_lowered,
  is_dispatcher_v0_eligible,
}
use burnout_3_recompiled.Recompiler.Dispatcher.Rounds.{IsRunOf}
use burnout_3_recompiled.Recompiler.Dispatcher.Refines.{run-IsRunOf}
use burnout_3_recompiled.Recompiler.Dispatcher.Lookups.{HasCounts}
use burnout_3_recompiled.Recompiler.Dispatcher.Counts.{run-IsCounted}
use burnout_3_recompiled.Recompiler.Dispatcher.Reference.{outcome, reference_run}
use burnout_3_recompiled.Recompiler.Dispatcher.Transparent.{run-reference_run}
use burnout_3_recompiled.Recompiler.Dispatcher.Eligible.{
  is_lowered, is_ctc1, lower-is_dispatcher_v0_eligible,
}
use burnout_3_recompiled.Tests.Executor.{sum32, start}
use burnout_3_recompiled.Tests.Image.{memory, memory-IsMap}

abbrev is_ok : R5900IrValidationError → Bool
is_ok R5900IrValidationError.none = true
is_ok _ = false

abbrev all_valid : List R5900IrInstruction → Bool
all_valid [] = true
all_valid (ir ∷ rest) = is_ok (validate_r5900_ir_instruction ir) && all_valid rest

is_ok-≡ : (e : R5900IrValidationError) → is_ok e ≡ true → e ≡ ok
is_ok-≡ R5900IrValidationError.none h = refl
is_ok-≡ R5900IrValidationError.malformed_instruction h = absurd (cc h)
is_ok-≡ R5900IrValidationError.invalid_register h = absurd (cc h)
is_ok-≡ R5900IrValidationError.unsupported_opcode h = absurd (cc h)

all_valid-IsValid : (irs : List R5900IrInstruction) → all_valid irs ≡ true → All IsValid irs
all_valid-IsValid [] h = tt
all_valid-IsValid (ir ∷ rest) h = (
  is_ok-≡ (validate_r5900_ir_instruction ir) (ground (arith, h)),
  all_valid-IsValid rest (ground (arith, h)),
)

IsValid-all_valid : (irs : List R5900IrInstruction) → All IsValid irs → all_valid irs ≡ true
IsValid-all_valid [] h = refl
IsValid-all_valid (ir ∷ rest) h = rw (h.0) (IsValid-all_valid rest h.1)

-- A block is its instructions, once the validator has accepted them.
abbrev backend : Backend
backend = record {
  Block = List R5900IrInstruction;
  Host = Unit;
  compile = λ irs host. (if all_valid irs then some irs else none, host);
  execute = λ irs s. (execute_r5900_ir sum32 irs s).state;
}

guarded :
    {irs block : List R5900IrInstruction}
    → (if all_valid irs then some irs else none) ≡ some block
    → (irs ≡ block) × (all_valid irs ≡ true)
guarded {irs = irs} h = elim (Bool-cases (all_valid irs)) [
  | inl valid ↦ (ground (arith, h, valid), valid)
  | inr refused ↦ absurd (ground (arith, h, refused))
]

executes :
    (irs : List R5900IrInstruction) (s : R5900IrExecutionState)
    → all_valid irs ≡ true
    → execute_r5900_ir sum32 irs s
      ≡ record { error = R5900IrExecutionError.none; state = (execute_r5900_ir sum32 irs s).state }
executes irs s valid =
    let known = execute-run_all sum32 irs s (all_valid-IsValid irs valid) in
    known
    ∙ ap (λ t. record { error = R5900IrExecutionError.none; state = t })
        (ap (λ (r : R5900IrExecutionResult). r.state) (sym known))

backend-IsBackend : IsBackend sum32 backend
backend-IsBackend = record {
  compiled = λ irs host {block} e s.
      executes irs s (guarded e).1
      ∙ ap
          (λ (b : List R5900IrInstruction). record {
            error = R5900IrExecutionError.none;
            state = (execute_r5900_ir sum32 b s).state;
          })
          (guarded e).0;
}

backend-IsGranted : IsGranted backend
backend-IsGranted = record {
  granted = λ irs host valid. (irs, rw (IsValid-all_valid irs valid) refl);
}

abbrev options : R5900BlockDispatcherOptions
options = record { block_options = record { max_instructions = 8; require_executable = true } }

-- The one instruction before the branch, and what is counted of it.
abbrev first_run : Run backend
unfolding run
first_run = run backend memory options 0x10_0000 [] tt start 4

runs : first_run.result ≡ record {
  reason = Reason.control_flow;
  next_pc = 0x10_0004;
  blocks_executed = 1;
  instructions_executed = 1;
  cache_hits = 0;
  cache_misses = 1;
  recompilations = 0;
}
unfolding first_run run run_loop run_round dispatch_block advance execute_prefix compile_and_execute
    cache_find prefix_of stop_at guest_words_of lower_prefix join_lowered is_dispatcher_v0_eligible
    lower_r5900_instruction validate_r5900_ir_instruction analyze_r5900_basic_block fetch_site
    range_status read_u32 decode_r5900 switch is_branch is_jump direct_target
runs = refl

run-IsRunOf_example :
    IsRunOf sum32 backend memory 0x10_0000 start
      (run backend memory options 0x10_0000 [] tt start 4)
run-IsRunOf_example =
    run-IsRunOf sum32 backend memory options 0x10_0000 [] tt start 4 backend-IsBackend memory-IsMap
      tt

run-IsCounted_example : HasCounts backend 0 4 (run backend memory options 0x10_0000 [] tt start 4)
run-IsCounted_example = run-IsCounted backend memory options 0x10_0000 [] tt start 4

run-reference_run_example :
    outcome backend (run backend memory options 0x10_0000 [] tt start 4)
    ≡ reference_run sum32 memory options 0x10_0000 start 4
run-reference_run_example =
    run-reference_run sum32 backend memory options 0x10_0000 [] tt start 4 backend-IsBackend
      backend-IsGranted memory-IsMap tt

-- CTC1 to control register 30 is admitted, and cannot be lowered.
abbrev ctc1_word : ℕ
ctc1_word = 0x44c1_f000

lower-is_dispatcher_v0_eligible_example :
    is_lowered (lower_r5900_instruction (decode_r5900 ctc1_word) 0x10_0000).error
    ≡ is_dispatcher_v0_eligible (decode_r5900 ctc1_word).instruction
      && (not (is_ctc1 (decode_r5900 ctc1_word).instruction) || ((decode_r5900 ctc1_word).rd == 31))
lower-is_dispatcher_v0_eligible_example =
    lower-is_dispatcher_v0_eligible (decode_r5900 ctc1_word) 0x10_0000

ctc1_admitted : is_dispatcher_v0_eligible (decode_r5900 ctc1_word).instruction ≡ true
unfolding is_dispatcher_v0_eligible decode_r5900 switch
ctc1_admitted = refl

ctc1_not_lowered :
    is_lowered (lower_r5900_instruction (decode_r5900 ctc1_word) 0x10_0000).error ≡ false
unfolding lower_r5900_instruction decode_r5900 switch
ctc1_not_lowered = refl
