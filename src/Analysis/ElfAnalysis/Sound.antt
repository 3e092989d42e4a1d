-- ===== src/Analysis/ElfAnalysis/Sound.antt =====
-- The analysis of any file ends with a report on its code, or with the error of the stage that failed.
use burnout_3_recompiled.Common.{ℕ, Bool, List, All, ◌≡◌, ◌<◌, refl, subst, sym}
use burnout_3_recompiled.Recompiler.Elf.{Ps2ElfImage, Ps2ElfParseResult, Ps2ElfError, parse_ps2_elf}
use burnout_3_recompiled.Recompiler.Elf.Reads.{Returns, value, error}
use burnout_3_recompiled.Recompiler.Elf.Sound.{IsImageOf, parse_ps2_elf-IsImageOf}
use burnout_3_recompiled.Runtime.MemoryMap.{
  Ps2MemoryMap, BuildResult, Ps2MemoryMapBuildError, from_elf,
}
use burnout_3_recompiled.Runtime.MemoryMap.Spans.{IsMap}
use burnout_3_recompiled.Runtime.MemoryMap.Build.{Builds, built_as, refused, from_elf-IsMap}
use burnout_3_recompiled.Analysis.Reachability.{
  R5900ReachabilityGraph, R5900ReachabilityError, R5900ReachabilityOptions, R5900ReachabilityResult,
}
use burnout_3_recompiled.Analysis.Reachability.Ends.{Ends}
use burnout_3_recompiled.Analysis.Reachability.Graph.{IsGraph}
use burnout_3_recompiled.Analysis.Reachability.Sound.{IsRefusal, analyze_r5900_reachability-IsGraph}
use burnout_3_recompiled.Analysis.ElfAnalysis.{
  Ps2ElfAnalysisResult, report_graph, analyze_mapped, analyze_parsed, analyze_ps2_elf,
}

module _ {Report : Type 0} (render : R5900ReachabilityGraph → Report) (can_allocate : ℕ → Bool)
    (options : R5900ReachabilityOptions) (bytes : List ℕ) where
  -- What the result says of the file.
  pub data Analyses : Ps2ElfAnalysisResult Report → Type 0 where
    reports :
        {image : Ps2ElfImage} {memory : Ps2MemoryMap} {graph : R5900ReachabilityGraph}
        → IsImageOf bytes image
        → from_elf can_allocate image ≡ BuildResult.built memory
        → IsMap memory
        → IsGraph memory options image.entry_point graph
        → Analyses (Ps2ElfAnalysisResult.reported (render graph))
    no_elf :
        {e : Ps2ElfError}
        → parse_ps2_elf bytes ≡ Ps2ElfParseResult.failed e
        → Analyses (Ps2ElfAnalysisResult.elf_parse_failed e)
    no_memory :
        {image : Ps2ElfImage} {e : Ps2MemoryMapBuildError}
        → IsImageOf bytes image
        → from_elf can_allocate image ≡ BuildResult.failed e
        → Analyses (Ps2ElfAnalysisResult.memory_map_failed e)
    no_graph :
        {image : Ps2ElfImage} {memory : Ps2MemoryMap} {e : R5900ReachabilityError}
        → IsImageOf bytes image
        → from_elf can_allocate image ≡ BuildResult.built memory
        → IsRefusal memory options image.entry_point e
        → Analyses (Ps2ElfAnalysisResult.reachability_failed e)

  report_graph-Analyses :
      {image : Ps2ElfImage} {memory : Ps2MemoryMap} {result : R5900ReachabilityResult}
      → IsImageOf bytes image
      → from_elf can_allocate image ≡ BuildResult.built memory
      → IsMap memory
      → Ends
          (IsGraph memory options image.entry_point)
          (IsRefusal memory options image.entry_point)
          result
      → Analyses (report_graph render can_allocate options result)
  unfolding report_graph
  report_graph-Analyses is loads valid (Ends.ended graph) = reports is loads valid graph
  report_graph-Analyses is loads valid (Ends.refused why) = no_graph is loads why

  analyze_mapped-Analyses :
      {image : Ps2ElfImage} {result : BuildResult Ps2MemoryMap}
      → IsImageOf bytes image
      → from_elf can_allocate image ≡ result
      → Builds IsMap result
      → Analyses (analyze_mapped render can_allocate options image result)
  unfolding analyze_mapped
  analyze_mapped-Analyses {image = image} is loads (built_as {a = memory} valid) =
      report_graph-Analyses is loads valid
        (analyze_r5900_reachability-IsGraph memory options image.entry_point valid)
  analyze_mapped-Analyses is loads refused = no_memory is loads

  analyze_parsed-Analyses :
      {result : Ps2ElfParseResult Ps2ElfImage}
      → All (λ b. b < 256) bytes
      → parse_ps2_elf bytes ≡ result
      → Returns (IsImageOf bytes) result
      → Analyses (analyze_parsed render can_allocate options result)
  unfolding analyze_parsed
  analyze_parsed-Analyses are_bytes parses (value {a = image} is) =
      analyze_mapped-Analyses is refl (
        from_elf-IsMap image (subst (All (λ b. b < 256)) (sym is.same_bytes) are_bytes)
          can_allocate)
  analyze_parsed-Analyses are_bytes parses error = no_elf parses

-- On any file of bytes the analysis ends without a read outside the file. If it reports, then on a
-- graph of blocks that the entry point of the file's image reaches, in the valid memory that the image
-- is loaded into; otherwise it names the stage that failed, with that stage's error.
pub analyze_ps2_elf-Analyses :
    {Report : Type 0} (render : R5900ReachabilityGraph → Report) (can_allocate : ℕ → Bool)
    (options : R5900ReachabilityOptions) (bytes : List ℕ)
    → All (λ b. b < 256) bytes
    → Analyses render can_allocate options bytes (analyze_ps2_elf render can_allocate options bytes)
unfolding analyze_ps2_elf
analyze_ps2_elf-Analyses render can_allocate options bytes are_bytes =
    analyze_parsed-Analyses render can_allocate options bytes are_bytes refl
      (parse_ps2_elf-IsImageOf bytes are_bytes)
