-- ===== src/Recompiler/Dispatcher/Guest.antt =====
-- The guest's program as the architecture runs it, and the instructions that a block holds of it.
use burnout_3_recompiled.Common.{
  ℕ, suc, Bool, true, some, List, [], ◌∷◌, ◌++◌, ◌≡◌, refl, sym, ◌+◌, arith, u32, subst,
}
use mathlib.Core.List.{append-nil}
use burnout_3_recompiled.Runtime.MemoryMap.{Ps2MemoryMap, read_u32}
use burnout_3_recompiled.Recompiler.Decoder.{decode_r5900}
use burnout_3_recompiled.Recompiler.Executor.{R5900IrExecutionState, normalize_zero}
use burnout_3_recompiled.Recompiler.Isa.{isa_step}
use burnout_3_recompiled.Analysis.ControlFlow.{R5900InstructionSite, R5900BasicBlock}
use burnout_3_recompiled.Analysis.ControlFlow.Spec.{Walks, Fetches, IsBlock}
use burnout_3_recompiled.Analysis.ControlFlow.Spec.IsBlock.{limited, stopped, transferred}
use burnout_3_recompiled.Recompiler.Dispatcher.{is_dispatcher_v0_eligible}

-- The instructions of the memory from one address to another, as words and decoded.
pub data Follows (memory : Ps2MemoryMap) : ℕ → List R5900InstructionSite → List ℕ → ℕ → Type 0 where
  ended : {pc : ℕ} → Follows memory pc [] [] pc
  next :
      {pc end word : ℕ} {sites : List R5900InstructionSite} {words : List ℕ}
      → read_u32 memory pc ≡ some word
      → Follows memory (u32 (pc + 4)) sites words end
      → Follows memory pc
          (record { pc = pc; decoded = decode_r5900 word } ∷ sites)
          (word ∷ words)
          end

module _ (f32_add : ℕ → ℕ → ℕ) (memory : Ps2MemoryMap) where
  -- The guest executes `n` instructions from one address to another: each word is read from the
  -- memory and decoded, the dispatcher admits it, and it acts on the state as the architecture says.
  pub data Executes : ℕ → R5900IrExecutionState → ℕ → ℕ → R5900IrExecutionState → Type 0 where
    stays : {pc : ℕ} {s : R5900IrExecutionState} → Executes pc s 0 pc s
    steps :
        {pc end n word : ℕ} {s t : R5900IrExecutionState}
        → read_u32 memory pc ≡ some word
        → is_dispatcher_v0_eligible (decode_r5900 word).instruction ≡ true
        → Executes
            (u32 (pc + 4))
            (isa_step f32_add
              (decode_r5900 word)
              (normalize_zero s)
              (decode_r5900 word).instruction)
            n
            end
            t
        → Executes pc s (suc n) end t

  module _ {pc end : ℕ} {s : R5900IrExecutionState} where
    pub Executes-to :
        {m n : ℕ} {t u : R5900IrExecutionState}
        → m ≡ n
        → t ≡ u
        → Executes pc s m end t
        → Executes pc s n end u
    Executes-to {n = n} {t = t} same e h =
        subst (λ v. Executes pc s n end v) e (subst (λ k. Executes pc s k end t) same h)

  pub Executes-trans :
      {pc mid end m n : ℕ} {s t u : R5900IrExecutionState}
      → Executes pc s m mid t
      → Executes mid t n end u
      → Executes pc s (m + n) end u
  Executes-trans stays h = Executes-to (omega arith) refl h
  Executes-trans (steps r e g) h = Executes-to (omega arith) refl (steps r e (Executes-trans g h))

module _ (memory : Ps2MemoryMap) (require : Bool) where
  -- The instructions of a block, whatever ends it.
  abbrev pub HasWords : ℕ → List R5900InstructionSite → Type 0
  HasWords pc sites = (words : List ℕ) × (end : ℕ) × Follows memory pc sites words end

  fetched-HasWords :
      {pc : ℕ} {site : R5900InstructionSite} {sites : List R5900InstructionSite}
      → Fetches memory require pc site
      → HasWords (u32 (pc + 4)) sites
      → HasWords pc (site ∷ sites)
  fetched-HasWords {pc = pc} {sites = sites} f h =
      subst (λ (s : R5900InstructionSite). HasWords pc (s ∷ sites)) (sym f.decodes)
        (f.word ∷ h.0, h.1, Follows.next f.read h.2)

  Walks-HasWords :
      {pc end : ℕ} {sites : List R5900InstructionSite} {last : List R5900InstructionSite}
      → Walks memory require pc sites end
      → HasWords end last
      → HasWords pc (sites ++ last)
  Walks-HasWords Walks.here h = h
  Walks-HasWords (Walks.step f s w) h = fetched-HasWords f (Walks-HasWords w h)

  nothing-HasWords : (pc : ℕ) → HasWords pc []
  nothing-HasWords pc = ([], pc, Follows.ended)

  pub IsBlock-HasWords :
      {start limit : ℕ} {block : R5900BasicBlock}
      → IsBlock memory require start limit block
      → HasWords start block.instructions
  IsBlock-HasWords (limited {sites = sites} walk size) =
      subst (HasWords _) (append-nil sites) (Walks-HasWords walk (nothing-HasWords _))
  IsBlock-HasWords (stopped walk room fetches kind e u) =
      Walks-HasWords walk (fetched-HasWords fetches (nothing-HasWords _))
  IsBlock-HasWords (transferred walk room fetches leaves slot) =
      Walks-HasWords walk (fetched-HasWords fetches (nothing-HasWords _))
