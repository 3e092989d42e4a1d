-- ===== src/Recompiler/Executor/Normal.antt =====
-- Register zero stays zero, so that blocks of instructions compose.
use burnout_3_recompiled.Common.{
  ℕ, ◌≡◌, refl, ◌≢◌, ◌==◌, arith, All, List, [], ◌∷◌, ◌++◌, Bool-cases, inl, inr, sym, ◌∙◌, ap, set,
  set-set_comm, set-set_self,
}
use burnout_3_recompiled.Recompiler.Ir.{
  R5900IrInstruction, R5900IrDestination, R5900IrDestinationKind, R5900IrOpcode,
}
use burnout_3_recompiled.Recompiler.Ir.Valid.{IsValid}
use burnout_3_recompiled.Recompiler.Executor.{
  R5900IrGprValue, R5900IrExecutionState, R5900IrExecutionError, R5900IrExecutionResult, zero_value,
  execute_instruction, execute_loop, execute_r5900_ir, normalize_zero, write_low64, write_full128,
  write_hilo, write_bits32, after_validation, map_validation_failure,
}
use burnout_3_recompiled.Recompiler.Validation.{
  R5900IrValidationError, validate_r5900_ir_instruction,
}

-- Writing zero to register zero would change nothing.
abbrev pub IsNormal : R5900IrExecutionState → Type 0
IsNormal s = set s.gpr 0 zero_value ≡ s.gpr

pub normalize_zero-IsNormal : (s : R5900IrExecutionState) → IsNormal (normalize_zero s)
unfolding normalize_zero
normalize_zero-IsNormal s = set-set_self s.gpr 0 _ _

pub normalize_zero_of_normal : (s : R5900IrExecutionState) → IsNormal s → normalize_zero s ≡ s
unfolding normalize_zero
normalize_zero_of_normal s h = λ i. record s { gpr = h i }

set-IsNormal :
    (l : List R5900IrGprValue) (i : ℕ) (v : R5900IrGprValue)
    → set l 0 zero_value ≡ l
    → i ≢ 0
    → set (set l i v) 0 zero_value ≡ set l i v
set-IsNormal l i v h ne = set-set_comm l i 0 v zero_value ne ∙ ap (λ t. set t i v) h

module _ (s : R5900IrExecutionState) (h : IsNormal s) where
  write_low64-IsNormal : (i v : ℕ) → IsNormal (write_low64 s i v)
  unfolding write_low64
  write_low64-IsNormal i v = elim (Bool-cases (i == 0)) [
    | inl e ↦ rw e h
    | inr e ↦ rw e (set-IsNormal s.gpr i _ h (ground arith))
  ]

  write_full128-IsNormal : (i : ℕ) (v : R5900IrGprValue) → IsNormal (write_full128 s i v)
  unfolding write_full128
  write_full128-IsNormal i v = elim (Bool-cases (i == 0)) [
    | inl e ↦ rw e h
    | inr e ↦ rw e (set-IsNormal s.gpr i _ h (ground arith))
  ]

  write_hilo-IsNormal : (k : R5900IrDestinationKind) (v : ℕ) → IsNormal (write_hilo s k v)
  unfolding write_hilo
  write_hilo-IsNormal k v = ground arith

  write_bits32-IsNormal : (d : R5900IrDestination) (v : ℕ) → IsNormal (write_bits32 s d v)
  unfolding write_bits32
  write_bits32-IsNormal d v = ground arith

after_validation_refused :
    (e : R5900IrValidationError) (s : R5900IrExecutionState) (next : R5900IrExecutionResult)
    → e ≢ R5900IrValidationError.none
    → after_validation e s next
      ≡ record { error = map_validation_failure e; state = normalize_zero s }
unfolding after_validation
after_validation_refused R5900IrValidationError.none s next bad = absurd (bad refl)
after_validation_refused R5900IrValidationError.malformed_instruction s next bad = refl
after_validation_refused R5900IrValidationError.invalid_register s next bad = refl
after_validation_refused R5900IrValidationError.unsupported_opcode s next bad = refl

-- The executor's error that stands for a refusal of the validator. A refusal is always an error.
pub data IsReportOf : R5900IrValidationError → R5900IrExecutionError → Type 0 where
  malformed :
      IsReportOf R5900IrValidationError.malformed_instruction
        R5900IrExecutionError.malformed_instruction
  register :
      IsReportOf R5900IrValidationError.invalid_register R5900IrExecutionError.invalid_register
  opcode :
      IsReportOf R5900IrValidationError.unsupported_opcode R5900IrExecutionError.unsupported_opcode

map_validation_failure-IsReportOf :
    (e : R5900IrValidationError)
    → e ≢ R5900IrValidationError.none
    → IsReportOf e (map_validation_failure e)
unfolding map_validation_failure
map_validation_failure-IsReportOf R5900IrValidationError.none bad = absurd (bad refl)
map_validation_failure-IsReportOf R5900IrValidationError.malformed_instruction bad =
    IsReportOf.malformed
map_validation_failure-IsReportOf R5900IrValidationError.invalid_register bad = IsReportOf.register
map_validation_failure-IsReportOf R5900IrValidationError.unsupported_opcode bad = IsReportOf.opcode

module _ (f32_add : ℕ → ℕ → ℕ) where
  pub execute_instruction-IsNormal :
      (ir : R5900IrInstruction) (s : R5900IrExecutionState)
      → IsNormal s
      → IsNormal (execute_instruction f32_add ir s)
  unfolding execute_instruction
  execute_instruction-IsNormal ir s h =
      elim ir.opcode as (λ o. IsNormal (execute_instruction f32_add (record ir { opcode = o }) s)) [
        | R5900IrOpcode.nop ↦ h
        | R5900IrOpcode.add_word_sign_extend ↦ write_low64-IsNormal s h _ _
        | R5900IrOpcode.or64 ↦ write_low64-IsNormal s h _ _
        | R5900IrOpcode.and64 ↦ write_low64-IsNormal s h _ _
        | R5900IrOpcode.load_upper_immediate_sign_extend ↦ write_low64-IsNormal s h _ _
        | R5900IrOpcode.move_gpr_low64 ↦ write_hilo-IsNormal s h _ _
        | R5900IrOpcode.compute_mtsah ↦ h
        | R5900IrOpcode.add_packed_u32_saturate128 ↦ write_full128-IsNormal s h _ _
        | R5900IrOpcode.move_bits32 ↦ write_bits32-IsNormal s h _ _
        | R5900IrOpcode.add_f32_to_accumulator ↦ h
        | R5900IrOpcode.unlisted n ↦ h
      ]

  abbrev pub run_all : List R5900IrInstruction → R5900IrExecutionState → R5900IrExecutionState
  run_all [] s = s
  run_all (ir ∷ rest) s = run_all rest (execute_instruction f32_add ir s)

  pub run_all-IsNormal :
      (irs : List R5900IrInstruction) (s : R5900IrExecutionState)
      → IsNormal s
      → IsNormal (run_all irs s)
  run_all-IsNormal [] s h = h
  run_all-IsNormal (ir ∷ rest) s h = run_all-IsNormal rest _ (execute_instruction-IsNormal ir s h)

  pub run_all-append :
      (xs ys : List R5900IrInstruction) (s : R5900IrExecutionState)
      → run_all (xs ++ ys) s ≡ run_all ys (run_all xs s)
  run_all-append [] ys s = refl
  run_all-append (x ∷ xs) ys s = run_all-append xs ys _

  -- What the loop does on instructions that are all accepted, with anything behind them.
  execute_loop-append :
      (xs rest : List R5900IrInstruction) (s : R5900IrExecutionState)
      → All IsValid xs
      → execute_loop f32_add (xs ++ rest) s ≡ execute_loop f32_add rest (run_all xs s)
  unfolding execute_loop after_validation
  execute_loop-append [] rest s v = refl
  execute_loop-append (ir ∷ xs) rest s v =
      rw (v.0, after_validation) (execute_loop-append xs rest _ v.1)

  execute_loop-run_all :
      (irs : List R5900IrInstruction) (s : R5900IrExecutionState)
      → All IsValid irs
      → execute_loop f32_add irs s
        ≡ record { error = R5900IrExecutionError.none; state = normalize_zero (run_all irs s) }
  unfolding execute_loop after_validation
  execute_loop-run_all [] s v = refl
  execute_loop-run_all (ir ∷ rest) s v =
      rw (v.0, after_validation) (execute_loop-run_all rest _ v.1)

  run_all-normalize_zero :
      (irs : List R5900IrInstruction) (s : R5900IrExecutionState)
      → normalize_zero (run_all irs (normalize_zero s)) ≡ run_all irs (normalize_zero s)
  run_all-normalize_zero irs s =
      normalize_zero_of_normal _ (run_all-IsNormal irs _ (normalize_zero-IsNormal s))

  pub execute-run_all :
      (irs : List R5900IrInstruction) (s : R5900IrExecutionState)
      → All IsValid irs
      → execute_r5900_ir f32_add irs s
        ≡ record { error = R5900IrExecutionError.none; state = run_all irs (normalize_zero s) }
  unfolding execute_r5900_ir
  execute-run_all irs s v =
      execute_loop-run_all irs (normalize_zero s) v
      ∙ ap (λ t. record { error = R5900IrExecutionError.none; state = t })
          (run_all-normalize_zero irs s)

  -- The state that the next call of the executor starts from.
  restart :
      (irs : List R5900IrInstruction) (s : R5900IrExecutionState)
      → All IsValid irs
      → normalize_zero (execute_r5900_ir f32_add irs s).state ≡ run_all irs (normalize_zero s)
  restart irs s v =
      ap (λ (r : R5900IrExecutionResult). normalize_zero r.state) (execute-run_all irs s v)
      ∙ run_all-normalize_zero irs s

  -- Accepted instructions compose: executing a list and then another is executing both at once, the
  -- second list's error included.
  pub execute-append :
      (xs ys : List R5900IrInstruction) (s : R5900IrExecutionState)
      → All IsValid xs
      → execute_r5900_ir f32_add (xs ++ ys) s
        ≡ execute_r5900_ir f32_add ys (execute_r5900_ir f32_add xs s).state
  unfolding execute_r5900_ir
  execute-append xs ys s v =
      execute_loop-append xs ys (normalize_zero s) v
      ∙ sym (ap (execute_loop f32_add ys) (restart xs s v))

  execute-stops :
      (xs ys : List R5900IrInstruction) (ir : R5900IrInstruction) (s : R5900IrExecutionState)
      → All IsValid xs
      → validate_r5900_ir_instruction ir ≢ R5900IrValidationError.none
      → execute_r5900_ir f32_add (xs ++ ir ∷ ys) s ≡ record {
        error = map_validation_failure (validate_r5900_ir_instruction ir);
        state = (execute_r5900_ir f32_add xs s).state;
      }
  unfolding execute_r5900_ir execute_loop
  execute-stops xs ys ir s v bad =
      execute_loop-append xs (ir ∷ ys) (normalize_zero s) v
      ∙ after_validation_refused _ _ _ bad
      ∙ ap
          (λ t. record {
            error = map_validation_failure (validate_r5900_ir_instruction ir);
            state = t;
          })
          (run_all-normalize_zero xs s
            ∙ sym (ap (λ (r : R5900IrExecutionResult). r.state) (execute-run_all xs s v)))

  -- At the first instruction that the validator refuses the executor stops. It reports an error, the
  -- one of the same name as the validator's, and leaves the normalised state that the accepted
  -- instructions before it gave.
  pub execute_refused :
      (xs ys : List R5900IrInstruction) (ir : R5900IrInstruction) (s : R5900IrExecutionState)
      → All IsValid xs
      → validate_r5900_ir_instruction ir ≢ R5900IrValidationError.none
      → IsReportOf
          (validate_r5900_ir_instruction ir)
          (execute_r5900_ir f32_add (xs ++ ir ∷ ys) s).error
        × ((execute_r5900_ir f32_add (xs ++ ir ∷ ys) s).state
            ≡ (execute_r5900_ir f32_add xs s).state)
  execute_refused xs ys ir s v bad =
      let stops = execute-stops xs ys ir s v bad in
      rw stops (map_validation_failure-IsReportOf _ bad, refl)
