-- ===== src/Analysis/Reachability/View.antt =====
-- What the search for blocks knows: the blocks, the targets that wait, those that were ever
-- scheduled, and those whose analysis failed.
use burnout_3_recompiled.Common.{
  ℕ, Bool, true, false, Option, some, none, List, [], ◌∷◌, ◌++◌, ◌≡◌, refl, sym, ap, ◌∙◌, arith,
  if◌then◌else◌, Bool-cases, inl, inr, contains,
}
use mathlib.Core.List.{append_assoc, append-nil}
use burnout_3_recompiled.Analysis.ControlFlow.{
  R5900BasicBlock, R5900ControlFlowEdge, R5900ControlFlowError, R5900EdgeKind,
}
use burnout_3_recompiled.Analysis.Reachability.{
  R5900ReachabilityIssue, R5900ReachabilityIssueKind as Issue, PendingTarget, Search, add_call,
  add_indirect_exit, schedule, visit_edge, visit_edges, add_block, terminator_pc,
}
use burnout_3_recompiled.Analysis.Reachability.Ends.{failed_target}

abbrev pub starts : List R5900BasicBlock → List ℕ
starts [] = []
starts (block ∷ rest) = block.start_pc ∷ starts rest

abbrev pub pcs : List PendingTarget → List ℕ
pcs [] = []
pcs (pending ∷ rest) = pending.pc ∷ pcs rest

-- The targets of the issues that report a failed analysis.
abbrev pub failed_target_of : R5900ReachabilityIssue → List ℕ
failed_target_of issue = elim issue.kind [
  | Issue.target_analysis_failed ↦ elim issue.target [ none ↦ [] | some t ↦ t ∷ [] ]
  | _ ↦ []
]

abbrev pub failed_targets : List R5900ReachabilityIssue → List ℕ
failed_targets [] = []
failed_targets (issue ∷ rest) = failed_target_of issue ++ failed_targets rest

pub record View : Type 0 where
  pub blocks : List R5900BasicBlock
  pub waiting : List ℕ
  pub scheduled : List ℕ
  pub failed : List ℕ

abbrev pub view : Search → View
view s = record {
  blocks = s.graph.blocks;
  waiting = pcs s.worklist;
  scheduled = s.scheduled;
  failed = failed_targets s.graph.issues;
}

-- The target that an edge puts on the worklist, if it was not scheduled before.
unfoldable pub followed_target : Bool → R5900ControlFlowEdge → Option ℕ
followed_target follow_direct_calls edge = elim edge.kind [
  | R5900EdgeKind.direct_call ↦ if follow_direct_calls then edge.target else none
  | R5900EdgeKind.indirect_call ↦ none
  | R5900EdgeKind.indirect_jump ↦ none
  | _ ↦ edge.target
]

unfoldable pub add_target : Option ℕ → View → View
add_target none v = v
add_target (some t) v =
    if contains t v.scheduled
    then v
    else record v { waiting = v.waiting ++ t ∷ []; scheduled = t ∷ v.scheduled }

unfoldable pub add_targets : Bool → List R5900ControlFlowEdge → View → View
add_targets follow [] v = v
add_targets follow (edge ∷ rest) v =
    add_targets follow rest (add_target (followed_target follow edge) v)

pcs-append : (xs ys : List PendingTarget) → pcs (xs ++ ys) ≡ pcs xs ++ pcs ys
pcs-append [] ys = refl
pcs-append (x ∷ xs) ys = ground (arith, pcs-append xs ys)

pub starts-append : (xs ys : List R5900BasicBlock) → starts (xs ++ ys) ≡ starts xs ++ starts ys
starts-append [] ys = refl
starts-append (x ∷ xs) ys = ground (arith, starts-append xs ys)

pub failed_targets-append :
    (xs ys : List R5900ReachabilityIssue)
    → failed_targets (xs ++ ys) ≡ failed_targets xs ++ failed_targets ys
failed_targets-append [] ys = refl
failed_targets-append (x ∷ xs) ys =
    rw (failed_targets-append xs ys)
      (sym (append_assoc (failed_target_of x) (failed_targets xs) (failed_targets ys)))

view-schedule :
    (source : ℕ) (t : Option ℕ) (s : Search) → view (schedule source t s) ≡ add_target t (view s)
unfolding schedule add_target
view-schedule source none s = refl
view-schedule source (some t) s = elim (Bool-cases (contains t s.scheduled)) [
  | inl old ↦ rw old
  | inr new ↦ rw new (
      rw (pcs-append s.worklist (record { pc = t; source_block = source; is_entry = false } ∷ []))
        refl)
]

view-add_indirect_exit : (source : ℕ) (s : Search) → view (add_indirect_exit source s) ≡ view s
view-add_indirect_exit source s =
    ap (λ (f : List ℕ). record (view s) { failed = f })
      (failed_targets-append s.graph.issues _ ∙ append-nil (failed_targets s.graph.issues))

view-visit_edge :
    (follow : Bool) (source call_pc : ℕ) (k : R5900EdgeKind) (edge : R5900ControlFlowEdge)
    (s : Search)
    → edge.kind ≡ k
    → view (visit_edge follow source call_pc edge s)
      ≡ add_target (followed_target follow edge) (view s)
unfolding visit_edge followed_target add_target
view-visit_edge follow source call_pc R5900EdgeKind.direct_call edge s e =
    let called = add_call source call_pc false edge.target s in
    elim (Bool-cases follow) [
      | inl followed ↦ rw (e, followed) (view-schedule source edge.target called)
      | inr skipped ↦ rw (e, skipped) refl
    ]
view-visit_edge follow source call_pc R5900EdgeKind.indirect_call edge s e =
    rw e (view-add_indirect_exit source (add_call source call_pc true none s))
view-visit_edge follow source call_pc R5900EdgeKind.indirect_jump edge s e =
    rw e (view-add_indirect_exit source s)
view-visit_edge follow source call_pc _ edge s e = rw (e) (view-schedule source edge.target s)

pub view-visit_edges :
    (follow : Bool) (source call_pc : ℕ) (edges : List R5900ControlFlowEdge) (s : Search)
    → view (visit_edges follow source call_pc edges s) ≡ add_targets follow edges (view s)
unfolding visit_edges add_targets
view-visit_edges follow source call_pc [] s = refl
view-visit_edges follow source call_pc (edge ∷ rest) s =
    view-visit_edges follow source call_pc rest (visit_edge follow source call_pc edge s)
    ∙ ap (add_targets follow rest) (view-visit_edge follow source call_pc edge.kind edge s refl)

-- A block that is added, and a target that fails, as the view shows them.
pub view-add_block :
    (follow : Bool) (block : R5900BasicBlock) (s : Search) (rest : List PendingTarget)
    → view (add_block follow block (record s { worklist = rest }))
      ≡ add_targets follow block.edges
          (record (view s) { blocks = s.graph.blocks ++ block ∷ []; waiting = pcs rest })
unfolding add_block
view-add_block follow block s rest =
    view-visit_edges follow block.start_pc (terminator_pc block) block.edges _

pub view-failed_target :
    (s : Search) (pending : PendingTarget) (rest : List PendingTarget) (e : R5900ControlFlowError)
    → view (failed_target s pending rest e) ≡ record (view s) {
      waiting = pcs rest;
      failed = failed_targets s.graph.issues ++ pending.pc ∷ [];
    }
view-failed_target s pending rest e =
    ap (λ (f : List ℕ). record (view s) { waiting = pcs rest; failed = f })
      (failed_targets-append s.graph.issues _)
