-- ===== src/Recompiler/Dispatcher/Cache.antt =====
-- The invariant of the cache of compiled blocks.
use burnout_3_recompiled.Common.{
  ℕ, true, Option, some, none, List, [], ◌∷◌, ◌≡◌, refl, ap, ◌∙◌, ◌==◌, arith, Bool-cases, if_both,
  inl, inr, subst, All,
}
use burnout_3_recompiled.Recompiler.Ir.{R5900IrInstruction}
use burnout_3_recompiled.Recompiler.Executor.{
  R5900IrExecutionState, R5900IrExecutionError, execute_r5900_ir,
}
use burnout_3_recompiled.Recompiler.Dispatcher.{
  Stage, Backend, CachedBlock, Cache, lower_prefix, words_equal, exact_cache_hit, cache_find,
  cache_put,
}
use burnout_3_recompiled.Recompiler.Dispatcher.Prefix.{sites_of}

pub words_equal-≡ : (xs ys : List ℕ) → words_equal xs ys ≡ true → xs ≡ ys
unfolding words_equal
words_equal-≡ [] [] h = refl
words_equal-≡ [] (y ∷ ys) h = absurd (ground (arith, h))
words_equal-≡ (x ∷ xs) [] h = absurd (ground (arith, h))
words_equal-≡ (x ∷ xs) (y ∷ ys) h =
    let same : x ≡ y = ground (arith, h) in
    let rest = words_equal-≡ xs ys (ground (arith, h)) in
    ap (λ z. z ∷ xs) same ∙ ap (λ zs. y ∷ zs) rest

module _ (f32_add : ℕ → ℕ → ℕ) (b : Backend) where
  -- A compiled block acts as the reference executor on what the words of its guest code lower to.
  pub record IsCompiled (start_pc : ℕ) (words : List ℕ) (native : b.Block) : Type 0 where
    pub irs : List R5900IrInstruction
    pub lowers : lower_prefix (sites_of start_pc words) ≡ Stage.passed irs
    pub acts :
        (s : R5900IrExecutionState)
        → execute_r5900_ir f32_add irs s
          ≡ record { error = R5900IrExecutionError.none; state = b.execute native s }

  abbrev pub IsEntry : CachedBlock b → Type 0
  IsEntry cached = IsCompiled cached.start_pc cached.guest_words cached.native_block

  abbrev pub IsCache : Cache b → Type 0
  IsCache cache = All (λ (entry : ℕ × CachedBlock b). IsEntry entry.1) cache

  abbrev pub IsFound : Option (CachedBlock b) → Type 0
  IsFound none = Unit
  IsFound (some cached) = IsEntry cached

  pub cache_find-IsFound :
      (pc : ℕ) (cache : Cache b) → IsCache cache → IsFound (cache_find b pc cache)
  unfolding cache_find
  cache_find-IsFound pc [] h = tt
  cache_find-IsFound pc (entry ∷ rest) h =
      if_both IsFound (entry.0 == pc) h.0 (cache_find-IsFound pc rest h.1)

  pub cache_put-IsCache :
      (pc : ℕ) (block : CachedBlock b) (cache : Cache b)
      → IsEntry block
      → IsCache cache
      → IsCache (cache_put b pc block cache)
  unfolding cache_put
  cache_put-IsCache pc block [] new h = (new, tt)
  cache_put-IsCache pc block (entry ∷ rest) new h = elim (Bool-cases (entry.0 == pc)) [
    | inl here ↦ rw (here) (new, h.1)
    | inr there ↦ rw (there) (h.0, cache_put-IsCache pc block rest new h.1)
  ]

  pub exact_cache_hit-IsCompiled :
      (cached : CachedBlock b) (pc fingerprint : ℕ) (words : List ℕ)
      → exact_cache_hit b cached pc fingerprint words ≡ true
      → IsEntry cached
      → IsCompiled pc words cached.native_block
  unfolding exact_cache_hit
  exact_cache_hit-IsCompiled cached pc fingerprint words hit h =
      let at : cached.start_pc ≡ pc = ground (arith, hit) in
      let same = words_equal-≡ cached.guest_words words (ground (arith, hit)) in
      subst (λ q. IsCompiled q words cached.native_block) at
        (subst (λ (ws : List ℕ). IsCompiled cached.start_pc ws cached.native_block) same h)
