-- ===== src/Analysis/ControlFlow/Fetch.antt =====
-- What fetch_site of src/analysis/r5900_control_flow.cpp finds, and the classes that end a block.
use burnout_3_recompiled.Common.{
  ℕ, Bool, true, some, none, ◌≡◌, refl, ap, List, [], ◌∷◌, ◌+◌, ◌&&◌, ◌||◌, leb, if◌then◌else◌,
  arith, Bool-cases, Option-cases, inl, inr, bit_and_mask,
}
use burnout_3_recompiled.Recompiler.Decoder.{
  R5900Instruction, R5900DecodedInstruction, decode_r5900, is_branch, is_jump,
}
use burnout_3_recompiled.Recompiler.Decoder.Attributes.{class_of}
use burnout_3_recompiled.Recompiler.Decoder.Fields.{decode_r5900-HasAttributes}
use burnout_3_recompiled.Runtime.MemoryMap.{
  Ps2MemoryMap, Ps2MemoryRegion, read_u32, translate, BackingRegion, find_span, metadata_of,
  access_range_fits,
}
use burnout_3_recompiled.Runtime.MemoryMap.Spans.{IsMap}
use burnout_3_recompiled.Analysis.ControlFlow.{
  R5900InstructionSite, RangeStatus, R5900ControlFlowError, is_unknown, is_system, is_executable,
  is_non_executable, regions_status, range_status, fetch_site,
}
use burnout_3_recompiled.Analysis.ControlFlow.Spec.{
  is_invalid, traps, transfers, HoldsWord, first, later, Fetches, CannotFetch,
}

-- The tests of the code on an instruction whose class is the one its name has.
pub is_unknown-invalid : (i : R5900Instruction) → is_unknown i ≡ is_invalid i
unfolding is_invalid class_of
is_unknown-invalid R5900Instruction.unknown = refl
is_unknown-invalid _ = refl

module _ (d : R5900DecodedInstruction) where
  pub is_system-traps :
      (i : R5900Instruction)
      → d.instruction_class ≡ class_of i
      → is_system d.instruction_class ≡ traps i
  unfolding traps
  is_system-traps i e = rw e refl

  pub leaves-transfers :
      (i : R5900Instruction)
      → d.instruction_class ≡ class_of i
      → is_branch d || is_jump d ≡ transfers i
  unfolding transfers class_of is_branch is_jump
  leaves-transfers _ e = ground arith

-- A region that gives the status of the bytes holds them.
regions_status-HoldsWord :
    (rs : List Ps2MemoryRegion) (pc : ℕ)
    → (regions_status rs pc (pc + 4) ≡ RangeStatus.executable → HoldsWord pc 1 rs)
      × (regions_status rs pc (pc + 4) ≡ RangeStatus.non_executable → HoldsWord pc 0 rs)
unfolding regions_status
regions_status-HoldsWord [] pc = (λ e. absurd (ground (arith, e)), λ e. absurd (ground (arith, e)))
regions_status-HoldsWord (r ∷ rs) pc =
    elim (Bool-cases (leb r.guest_base pc && leb (pc + 4) (r.guest_base + r.size))) [
      | inl holds ↦ (
        λ e. first (ground arith) (ground arith) (ground (arith, bit_and_mask 1 r.flags)),
        λ e. first (ground arith) (ground arith) (ground (arith, bit_and_mask 1 r.flags)),
      )
      | inr misses ↦ (
        λ e. later ((regions_status-HoldsWord rs pc).0 (ground (arith, e, misses))),
        λ e. later ((regions_status-HoldsWord rs pc).1 (ground (arith, e, misses))),
      )
    ]

find_span-unmapped :
    (rs : List BackingRegion) (a e i : ℕ)
    → regions_status (metadata_of rs) a e ≡ RangeStatus.unmapped
    → find_span rs a e i ≡ none
unfolding regions_status find_span
find_span-unmapped [] a e i h = refl
find_span-unmapped (r ∷ rs) a e i h = ground (arith, find_span-unmapped rs a e (i + 1))

module _ (memory : Ps2MemoryMap) where
  pub executable-HoldsWord :
      (pc : ℕ) → range_status memory pc 4 ≡ RangeStatus.executable → HoldsWord pc 1 memory.regions
  unfolding range_status
  executable-HoldsWord pc e = (regions_status-HoldsWord memory.regions pc).0 (ground (arith, e))

  pub non_executable-HoldsWord :
      (pc : ℕ)
      → range_status memory pc 4 ≡ RangeStatus.non_executable
      → HoldsWord pc 0 memory.regions
  unfolding range_status
  non_executable-HoldsWord pc e = (regions_status-HoldsWord memory.regions pc).1 (ground (arith, e))

is_executable-≡ : (s : RangeStatus) → is_executable s ≡ true → s ≡ RangeStatus.executable
is_executable-≡ RangeStatus.executable e = refl
is_executable-≡ RangeStatus.unmapped e = absurd (ground (arith, e))
is_executable-≡ RangeStatus.non_executable e = absurd (ground (arith, e))

module _ (memory : Ps2MemoryMap) (require : Bool) where
  pub fetch_site-Fetches :
      (pc : ℕ) (site : R5900InstructionSite)
      → fetch_site memory pc require ≡ some site
      → Fetches memory require pc site
  unfolding fetch_site
  fetch_site-Fetches pc site h = elim (Option-cases (read_u32 memory pc)) [
    | inl unread ↦ absurd (ground arith)
    | inr (word, read) ↦ record {
      word = word;
      read = read;
      decodes = ground arith;
      allowed = λ required.
          executable-HoldsWord memory pc
            (is_executable-≡ (range_status memory pc 4) (ground arith));
    }
  ]

  -- What is fetched stands at the address, and its class is that of its name.
  pub at_address :
      {site : R5900InstructionSite} {pc : ℕ} → Fetches memory require pc site → site.pc ≡ pc
  at_address f = ap (λ (s : R5900InstructionSite). s.pc) f.decodes

  pub decoded_word :
      {site : R5900InstructionSite} {pc : ℕ}
      → (f : Fetches memory require pc site) → site.decoded ≡ decode_r5900 f.word
  decoded_word f = ap (λ (s : R5900InstructionSite). s.decoded) f.decodes

  pub classed :
      {site : R5900InstructionSite} {pc : ℕ}
      → Fetches memory require pc site
      → site.decoded.instruction_class ≡ class_of site.decoded.instruction
  classed f = rw (decoded_word f) (decode_r5900-HasAttributes f.word).0

  module _ (valid : IsMap memory) where
    unmapped_lem :
        (pc : ℕ) → range_status memory pc 4 ≡ RangeStatus.unmapped → read_u32 memory pc ≡ none
    unfolding range_status read_u32 translate access_range_fits
    unmapped_lem pc h =
        ground (arith, valid.same_regions, find_span-unmapped memory.backing_regions pc (pc + 4) 0)

    pub CannotFetch-as :
        (pc : ℕ) (missing forbidden : R5900ControlFlowError) (status : RangeStatus)
        → range_status memory pc 4 ≡ status
        → fetch_site memory pc require ≡ none
        → CannotFetch memory require pc missing forbidden
            (if require && is_non_executable status then forbidden else missing)
    unfolding fetch_site
    CannotFetch-as pc missing forbidden RangeStatus.unmapped e h =
        inl (ground arith, unmapped_lem pc e)
    CannotFetch-as pc missing forbidden RangeStatus.executable e h =
        inl (ground arith, ground arith)
    CannotFetch-as pc missing forbidden RangeStatus.non_executable e h = elim (Bool-cases require) [
      | inl required ↦ inr (ground arith, required, non_executable-HoldsWord memory pc e)
      | inr free ↦ inl (ground arith, ground arith)
    ]
