-- ===== src/Recompiler/Dispatcher/Prefix.antt =====
-- The part of a block that the dispatcher runs: its words, its lowering and its execution.
use burnout_3_recompiled.Common.{
  ℕ, suc, true, Option, some, none, List, [], ◌∷◌, ◌≡◌, refl, ap, ◌+◌, ◌*◌, arith, inl, inr, length,
  u32, ◌⊎◌, All,
}
use burnout_3_recompiled.Runtime.MemoryMap.{Ps2MemoryMap}
use burnout_3_recompiled.Recompiler.Decoder.{decode_r5900}
use burnout_3_recompiled.Analysis.ControlFlow.{R5900InstructionSite}
use burnout_3_recompiled.Recompiler.Dispatcher.{
  Stage, Boundary, R5900DispatchStopReason, is_dispatcher_v0_eligible, prefix_of, guest_words_of,
  stop_at,
}
use burnout_3_recompiled.Recompiler.Dispatcher.Guest.{Follows, ended, next}

-- The instructions that words from an address on decode to.
abbrev pub sites_of : ℕ → List ℕ → List R5900InstructionSite
sites_of pc [] = []
sites_of pc (word ∷ rest) =
    record { pc = pc; decoded = decode_r5900 word } ∷ sites_of (u32 (pc + 4)) rest

abbrev pub IsEligible : R5900InstructionSite → Type 0
IsEligible site = is_dispatcher_v0_eligible site.decoded.instruction ≡ true

-- The boundary, if there is one, is at the end of the prefix.
abbrev pub StopsAt : Option Boundary → ℕ → Type 0
StopsAt none end = Unit
StopsAt (some stop) end = stop.boundary_pc ≡ end

Option-none-if :
    (o : Option R5900DispatchStopReason)
    → (o ≡ none) ⊎ ((r : R5900DispatchStopReason) × (o ≡ some r))
Option-none-if none = inl refl
Option-none-if (some r) = inr (r, refl)

stop_at-IsEligible : (site : R5900InstructionSite) → stop_at site ≡ none → IsEligible site
unfolding stop_at
stop_at-IsEligible site e = ground arith

module _ (memory : Ps2MemoryMap) where
  -- The prefix of a block that is in the memory.
  pub record IsPrefix (pc : ℕ) (prefix : List R5900InstructionSite) (boundary : Option Boundary)
      : Type 0 where
    pub words : List ℕ
    pub end : ℕ
    pub follows : Follows memory pc prefix words end
    pub eligible : All IsEligible prefix
    pub stops : StopsAt boundary end

  pub prefix_of-IsPrefix :
      {pc end : ℕ} {sites : List R5900InstructionSite} {words : List ℕ}
      → Follows memory pc sites words end
      → IsPrefix pc (prefix_of sites).0 (prefix_of sites).1
  unfolding prefix_of
  prefix_of-IsPrefix {pc = pc} ended = record {
    words = [];
    end = pc;
    follows = ended;
    eligible = tt;
    stops = tt;
  }
  prefix_of-IsPrefix {pc = pc} (next {word = word} {sites = sites} r f) =
      let site : R5900InstructionSite = record { pc = pc; decoded = decode_r5900 word } in
      elim (Option-none-if (stop_at site)) [
        | inl on ↦
            let later = prefix_of-IsPrefix f in
            rw (on, prefix_of)
              (record {
                words = word ∷ later.words;
                end = later.end;
                follows = next r later.follows;
                eligible = (stop_at-IsEligible site on, later.eligible);
                stops = later.stops;
              })
        | inr (reason, off) ↦
            rw (off, prefix_of)
              (record { words = []; end = pc; follows = ended; eligible = tt; stops = refl })
      ]

  pub Follows-sites_of :
      {pc end : ℕ} {sites : List R5900InstructionSite} {words : List ℕ}
      → Follows memory pc sites words end
      → sites ≡ sites_of pc words
  Follows-sites_of ended = refl
  Follows-sites_of (next {pc = pc} {word = word} r f) =
      ap (λ rest. record { pc = pc; decoded = decode_r5900 word } ∷ rest) (Follows-sites_of f)

  pub Follows-length :
      {pc end : ℕ} {sites : List R5900InstructionSite} {words : List ℕ}
      → Follows memory pc sites words end
      → length words ≡ length sites
  Follows-length ended = refl
  Follows-length (next r f) = ap suc (Follows-length f)

  pub guest_words_of-passed :
      {pc end : ℕ} {sites : List R5900InstructionSite} {words : List ℕ}
      → Follows memory pc sites words end
      → guest_words_of memory sites ≡ Stage.passed words
  unfolding guest_words_of
  guest_words_of-passed ended = refl
  guest_words_of-passed (next r f) = rw (r, guest_words_of) (rw (guest_words_of-passed f) refl)

  pub Follows-end :
      {pc end : ℕ} {site : R5900InstructionSite} {sites : List R5900InstructionSite}
      {words : List ℕ}
      → Follows memory pc (site ∷ sites) words end
      → end ≡ u32 (pc + u32 (length (site ∷ sites) * 4))
  Follows-end (next r ended) = omega arith
  Follows-end (next r (next r₁ f)) = omega (arith, Follows-end (next r₁ f))
