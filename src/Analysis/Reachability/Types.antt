-- ===== src/Analysis/Reachability/Types.antt =====
-- src/analysis/r5900_reachability.h: the graph of the blocks that are found, and the search for them.
use burnout_3_recompiled.Common.{ℕ, Bool, Option, List}
use burnout_3_recompiled.Analysis.ControlFlow.{
  R5900BasicBlock, R5900ControlFlowError, R5900ControlFlowOptions,
}

pub data R5900ReachabilityError : Type 0 where
  none invalid_block_limit entry_analysis_failed : R5900ReachabilityError

pub data R5900ReachabilityIssueKind : Type 0 where
  unresolved_indirect_exit target_analysis_failed block_limit_reached : R5900ReachabilityIssueKind
  leader_inside_block leader_inside_delay_slot : R5900ReachabilityIssueKind

pub record R5900ReachabilityCall : Type 0 where
  pub source_block : ℕ
  pub call_pc : ℕ
  pub indirect : Bool
  pub target : Option ℕ

pub record R5900ReachabilityIssue : Type 0 where
  pub kind : R5900ReachabilityIssueKind
  pub source_block : ℕ
  pub target : Option ℕ
  pub related_block : Option ℕ
  pub analysis_error : R5900ControlFlowError

pub record R5900ReachabilityGraph : Type 0 where
  pub entry_pc : ℕ
  pub blocks : List R5900BasicBlock
  pub calls : List R5900ReachabilityCall
  pub issues : List R5900ReachabilityIssue

pub record R5900ReachabilityOptions : Type 0 where
  pub max_blocks : ℕ
  pub follow_direct_calls : Bool
  pub block_options : R5900ControlFlowOptions

pub record PendingTarget : Type 0 where
  pub pc : ℕ
  pub source_block : ℕ
  pub is_entry : Bool

-- The variables of the loop over the worklist.
pub record Search : Type 0 where
  pub graph : R5900ReachabilityGraph
  pub worklist : List PendingTarget
  pub scheduled : List ℕ

-- A graph, or the error for which there is none. `out_of_fuel` is a search that was cut off.
pub data R5900ReachabilityResult : Type 0 where
  succeed : R5900ReachabilityGraph → R5900ReachabilityResult
  fail : R5900ReachabilityError → R5900ReachabilityResult
  out_of_fuel : R5900ReachabilityResult
