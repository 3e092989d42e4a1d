-- ===== src/Analysis/ElfAnalysis.antt =====
-- src/analysis/ps2_elf_analysis.h and ps2_elf_analysis.cpp: from the bytes of an executable to the
-- report on its code. The text of the report is a parameter, a function of the graph.
pub mod Sound
use burnout_3_recompiled.Common.{ℕ, Bool, List}
use burnout_3_recompiled.Recompiler.Elf.{Ps2ElfImage, Ps2ElfParseResult, Ps2ElfError, parse_ps2_elf}
use burnout_3_recompiled.Runtime.MemoryMap.{
  Ps2MemoryMap, BuildResult, Ps2MemoryMapBuildError, from_elf,
}
use burnout_3_recompiled.Analysis.Reachability.{
  R5900ReachabilityGraph, R5900ReachabilityError, R5900ReachabilityOptions, R5900ReachabilityResult,
  analyze_r5900_reachability,
}

-- `Ps2ElfAnalysisResult`: a report, or the stage that failed with its error. `undefined` is a read
-- outside the file or a search that was cut off.
pub data Ps2ElfAnalysisResult (Report : Type 0) : Type 0 where
  reported : Report → Ps2ElfAnalysisResult Report
  elf_parse_failed : Ps2ElfError → Ps2ElfAnalysisResult Report
  memory_map_failed : Ps2MemoryMapBuildError → Ps2ElfAnalysisResult Report
  reachability_failed : R5900ReachabilityError → Ps2ElfAnalysisResult Report
  undefined : Ps2ElfAnalysisResult Report

module _ {Report : Type 0} (render : R5900ReachabilityGraph → Report) (can_allocate : ℕ → Bool)
    (options : R5900ReachabilityOptions) where
  -- The code after the reachability analysis, after the map and after the parser.
  unfoldable pub report_graph : R5900ReachabilityResult → Ps2ElfAnalysisResult Report
  report_graph (R5900ReachabilityResult.succeed graph) =
      Ps2ElfAnalysisResult.reported (render graph)
  report_graph (R5900ReachabilityResult.fail e) = Ps2ElfAnalysisResult.reachability_failed e
  report_graph R5900ReachabilityResult.out_of_fuel = Ps2ElfAnalysisResult.undefined

  unfoldable pub analyze_mapped :
      Ps2ElfImage → BuildResult Ps2MemoryMap → Ps2ElfAnalysisResult Report
  analyze_mapped image (BuildResult.built memory) =
      report_graph (analyze_r5900_reachability memory options image.entry_point)
  analyze_mapped image (BuildResult.failed e) = Ps2ElfAnalysisResult.memory_map_failed e

  unfoldable pub analyze_parsed : Ps2ElfParseResult Ps2ElfImage → Ps2ElfAnalysisResult Report
  analyze_parsed (Ps2ElfParseResult.parsed image) =
      analyze_mapped image (from_elf can_allocate image)
  analyze_parsed (Ps2ElfParseResult.failed e) = Ps2ElfAnalysisResult.elf_parse_failed e
  analyze_parsed Ps2ElfParseResult.fault = Ps2ElfAnalysisResult.undefined

  unfoldable pub analyze_ps2_elf : List ℕ → Ps2ElfAnalysisResult Report
  analyze_ps2_elf bytes = analyze_parsed (parse_ps2_elf bytes)
