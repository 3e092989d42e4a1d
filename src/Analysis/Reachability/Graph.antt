-- ===== src/Analysis/Reachability/Graph.antt =====
-- What the graph says that analyze_r5900_reachability of src/analysis/r5900_reachability.cpp returns.
use burnout_3_recompiled.Common.{
  ℕ, Bool, true, false, List, [], ◌∷◌, ◌++◌, ◌≡◌, refl, ◌==◌, ◌||◌, ◌≤◌, ◌⊎◌, if◌then◌else◌, inl,
  inr, contains, distinct, All, any, any-append, length,
}
use mathlib.Core.List.{append-nil}
use burnout_3_recompiled.Runtime.MemoryMap.{Ps2MemoryMap}
use burnout_3_recompiled.Analysis.ControlFlow.{R5900BasicBlock}
use burnout_3_recompiled.Analysis.Reachability.{
  R5900ReachabilityIssue, R5900ReachabilityIssueKind as Issue, R5900ReachabilityGraph,
  R5900ReachabilityOptions, detect_overlapping_leaders,
}
use burnout_3_recompiled.Analysis.Reachability.View.{starts, failed_targets, failed_targets-append}
use burnout_3_recompiled.Analysis.Reachability.Invariant.{Reaches, IsFound, IsUnfounded}
use burnout_3_recompiled.Analysis.Reachability.Leaders.{
  leader_issue, starts_within, starts_in_slot, inside_issues, slot_issues, pair_issues,
  leader_issues, overlap_issues, detect_overlapping_leaders_lem,
}

abbrev pub is_limit : R5900ReachabilityIssue → Bool
is_limit issue = elim issue.kind [ Issue.block_limit_reached ↦ true | _ ↦ false ]

-- An issue says that the search was cut off.
abbrev pub limit_reached : R5900ReachabilityGraph → Bool
limit_reached graph = any is_limit graph.issues

-- Issues that say nothing of the search.
record Quiet (issues : List R5900ReachabilityIssue) : Type 0 where
  no_target : failed_targets issues ≡ []
  no_limit : any is_limit issues ≡ false

nil-Quiet : Quiet []
nil-Quiet = record { no_target = refl; no_limit = refl }

append-Quiet : (xs ys : List R5900ReachabilityIssue) → Quiet xs → Quiet ys → Quiet (xs ++ ys)
append-Quiet xs ys qx qy = record {
  no_target = rw (failed_targets-append xs ys, qx.no_target, qy.no_target) refl;
  no_limit = rw (any-append is_limit xs ys, qx.no_limit, qy.no_limit) refl;
}

if-Quiet :
    (b : Bool) (xs ys : List R5900ReachabilityIssue)
    → Quiet xs
    → Quiet ys
    → Quiet (if b then xs else ys)
if-Quiet true xs ys qx qy = qx
if-Quiet false xs ys qx qy = qy

pair_issues-Quiet : (l c : R5900BasicBlock) → Quiet (pair_issues l c)
pair_issues-Quiet l c = if-Quiet (l.start_pc == c.start_pc) [] _ nil-Quiet (
    append-Quiet (inside_issues l c) (slot_issues l c)
      (if-Quiet (starts_within l c.instructions)
        (leader_issue Issue.leader_inside_block l.start_pc c.start_pc ∷ []) []
        (record { no_target = refl; no_limit = refl }) nil-Quiet)
      (if-Quiet (starts_in_slot l c.delay_slot)
        (leader_issue Issue.leader_inside_delay_slot l.start_pc c.start_pc ∷ []) []
        (record { no_target = refl; no_limit = refl }) nil-Quiet))

leader_issues-Quiet :
    (l : R5900BasicBlock) (blocks : List R5900BasicBlock) → Quiet (leader_issues l blocks)
leader_issues-Quiet l [] = nil-Quiet
leader_issues-Quiet l (c ∷ rest) =
    append-Quiet (pair_issues l c) _ (pair_issues-Quiet l c) (leader_issues-Quiet l rest)

overlap_issues-Quiet :
    (leaders blocks : List R5900BasicBlock) → Quiet (overlap_issues leaders blocks)
overlap_issues-Quiet [] blocks = nil-Quiet
overlap_issues-Quiet (l ∷ rest) blocks =
    append-Quiet (leader_issues l blocks) _ (leader_issues-Quiet l blocks)
      (overlap_issues-Quiet rest blocks)

-- The address is a block of the graph, or an issue says that its analysis failed.
abbrev pub Known : R5900ReachabilityGraph → ℕ → Type 0
Known graph t = contains t (starts graph.blocks) || contains t (failed_targets graph.issues) ≡ true

module _ (memory : Ps2MemoryMap) (options : R5900ReachabilityOptions) (entry : ℕ) where
  pub record IsGraph (graph : R5900ReachabilityGraph) : Type 0 where
    -- Each block is the analysis of its address, which the entry point reaches.
    pub all_found : All (IsFound memory options entry) graph.blocks
    pub apart : distinct (starts graph.blocks) ≡ true
    pub limited : length graph.blocks ≤ options.max_blocks
    -- Each target that is reported as failed is reached, and its analysis fails.
    pub all_failed : All (IsUnfounded memory options entry) (failed_targets graph.issues)

  -- The search was cut off, or what is reached is known.
  abbrev pub IsWhole : R5900ReachabilityGraph → Type 0
  IsWhole graph =
      (limit_reached graph ≡ true) ⊎ ((t : ℕ) → Reaches memory options entry t → Known graph t)

  -- The overlaps change nothing of this.
  pub detect_overlapping_leaders-IsGraph :
      (graph : R5900ReachabilityGraph)
      → IsGraph graph
      → IsWhole graph
      → IsGraph (detect_overlapping_leaders graph) × IsWhole (detect_overlapping_leaders graph)
  detect_overlapping_leaders-IsGraph graph h whole =
      let quiet = overlap_issues-Quiet graph.blocks graph.blocks in
      let same : failed_targets (graph.issues ++ overlap_issues graph.blocks graph.blocks)
          ≡ failed_targets graph.issues =
        rw
          (
            failed_targets-append graph.issues (overlap_issues graph.blocks graph.blocks),
            quiet.no_target,
          )
          (append-nil _) in
      rw (detect_overlapping_leaders_lem graph h.apart) (
        record {
          all_found = h.all_found;
          apart = h.apart;
          limited = h.limited;
          all_failed = rw same h.all_failed;
        },
        elim whole [
          | inl cut ↦ inl (
              rw (any-append is_limit graph.issues (overlap_issues graph.blocks graph.blocks), cut)
                refl)
          | inr known ↦ inr (λ t r. rw same (known t r))
        ],
      )
