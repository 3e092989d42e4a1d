-- ===== src/Analysis/Reachability/Leaders.antt =====
-- detect_overlapping_leaders of src/analysis/r5900_reachability.cpp: the issues it adds.
use burnout_3_recompiled.Common.{
  ℕ, true, false, Bool, Option, none, some, sym, any, map, not, Option-cases, List, [], ◌∷◌, ◌++◌,
  ◌≡◌, refl, ap, ◌∙◌, ◌==◌, ◌&&◌, arith, if◌then◌else◌, Bool-cases, inl, inr, contains, distinct,
  All,
}
use mathlib.Core.List.{append_assoc, append-nil}
use burnout_3_recompiled.Analysis.ControlFlow.{
  R5900BasicBlock, R5900InstructionSite, R5900ControlFlowError,
}
use burnout_3_recompiled.Analysis.Reachability.{
  R5900ReachabilityIssue, R5900ReachabilityIssueKind as Issue, R5900ReachabilityGraph, Overlaps,
  inside, in_delay_slot, emitted_pair, check_inside, check_delay_slot, check_pair, check_leader,
  check_leaders, detect_overlapping_leaders,
}
use burnout_3_recompiled.Analysis.Reachability.View.{starts}

abbrev pub leader_issue : Issue → ℕ → ℕ → R5900ReachabilityIssue
leader_issue kind leader containing = record {
  kind = kind;
  source_block = leader;
  target = some leader;
  related_block = some containing;
  analysis_error = R5900ControlFlowError.none;
}

-- The second block has an instruction after its first one that stands where the first block starts,
-- and its first one does not.
unfoldable pub starts_within : R5900BasicBlock → List R5900InstructionSite → Bool
starts_within l [] = false
starts_within l (entry ∷ rest) =
    not (l.start_pc == entry.pc)
    && contains l.start_pc (map (λ (site : R5900InstructionSite). site.pc) rest)

unfoldable pub starts_in_slot : R5900BasicBlock → Option R5900InstructionSite → Bool
starts_in_slot l none = false
starts_in_slot l (some slot) = l.start_pc == slot.pc

any-contains :
    (pc : ℕ) (sites : List R5900InstructionSite)
    → any (λ (site : R5900InstructionSite). site.pc == pc) sites
      ≡ contains pc (map (λ (site : R5900InstructionSite). site.pc) sites)
any-contains pc [] = refl
any-contains pc (site ∷ rest) = rw (any-contains pc rest) refl

inside-starts_within :
    (l : R5900BasicBlock) (sites : List R5900InstructionSite)
    → inside l.start_pc sites ≡ starts_within l sites
unfolding inside starts_within
inside-starts_within l [] = refl
inside-starts_within l (entry ∷ rest) = ground (arith, any-contains l.start_pc rest)

in_delay_slot-starts_in_slot :
    (l c : R5900BasicBlock) → in_delay_slot l.start_pc c ≡ starts_in_slot l c.delay_slot
unfolding in_delay_slot starts_in_slot
in_delay_slot-starts_in_slot l c = elim (Option-cases c.delay_slot) [
  | inl e ↦ rw e refl
  | inr (slot, e) ↦ rw e (ground arith)
]

abbrev pub inside_issues : R5900BasicBlock → R5900BasicBlock → List R5900ReachabilityIssue
inside_issues l c =
    if starts_within l c.instructions
    then leader_issue Issue.leader_inside_block l.start_pc c.start_pc ∷ []
    else []

abbrev pub slot_issues : R5900BasicBlock → R5900BasicBlock → List R5900ReachabilityIssue
slot_issues l c =
    if starts_in_slot l c.delay_slot
    then leader_issue Issue.leader_inside_delay_slot l.start_pc c.start_pc ∷ []
    else []

-- The issues of two blocks: the first one's start lies in the second.
abbrev pub pair_issues : R5900BasicBlock → R5900BasicBlock → List R5900ReachabilityIssue
pair_issues l c = if l.start_pc == c.start_pc then [] else inside_issues l c ++ slot_issues l c

abbrev pub leader_issues : R5900BasicBlock → List R5900BasicBlock → List R5900ReachabilityIssue
leader_issues l [] = []
leader_issues l (c ∷ rest) = pair_issues l c ++ leader_issues l rest

-- Those of every pair of blocks, each once.
abbrev pub overlap_issues :
    List R5900BasicBlock → List R5900BasicBlock → List R5900ReachabilityIssue
overlap_issues [] blocks = []
overlap_issues (l ∷ rest) blocks = leader_issues l blocks ++ overlap_issues rest blocks

abbrev pub add_issues :
    R5900ReachabilityGraph → List R5900ReachabilityIssue → R5900ReachabilityGraph
add_issues graph issues = record graph { issues = graph.issues ++ issues }

-- No issue of the pair was emitted.
record Fresh (o : Overlaps) (l c : ℕ) : Type 0 where
  no_block : emitted_pair l c o.emitted_blocks ≡ false
  no_slot : emitted_pair l c o.emitted_slots ≡ false

check_inside-graph :
    (l c : R5900BasicBlock) (o : Overlaps)
    → Fresh o l.start_pc c.start_pc
    → (check_inside l c o).overlaps_graph ≡ add_issues o.overlaps_graph (inside_issues l c)
unfolding check_inside
check_inside-graph l c o f = elim (Bool-cases (inside l.start_pc c.instructions)) [
  | inl is ↦
      let same = sym (inside-starts_within l c.instructions) ∙ is in
      rw (is, f.no_block) (rw same refl)
  | inr out ↦
      let same = sym (inside-starts_within l c.instructions) ∙ out in
      rw out (rw (same, append-nil o.overlaps_graph.issues) refl)
]

check_inside-slots :
    (l c : R5900BasicBlock) (o : Overlaps) → (check_inside l c o).emitted_slots ≡ o.emitted_slots
unfolding check_inside
check_inside-slots l c o = ground arith

check_delay_slot-graph :
    (l c : R5900BasicBlock) (o : Overlaps)
    → emitted_pair l.start_pc c.start_pc o.emitted_slots ≡ false
    → (check_delay_slot l c o).overlaps_graph ≡ add_issues o.overlaps_graph (slot_issues l c)
unfolding check_delay_slot
check_delay_slot-graph l c o f = elim (Bool-cases (in_delay_slot l.start_pc c)) [
  | inl is ↦ let same = sym (in_delay_slot-starts_in_slot l c) ∙ is in rw (is, f) (rw same refl)
  | inr out ↦
      let same = sym (in_delay_slot-starts_in_slot l c) ∙ out in
      rw out (rw (same, append-nil o.overlaps_graph.issues) refl)
]

check_pair-graph :
    (l c : R5900BasicBlock) (o : Overlaps)
    → Fresh o l.start_pc c.start_pc
    → (check_pair l c o).overlaps_graph ≡ add_issues o.overlaps_graph (pair_issues l c)
unfolding check_pair
check_pair-graph l c o f = elim (Bool-cases (l.start_pc == c.start_pc)) [
  | inl same ↦ rw (same, append-nil o.overlaps_graph.issues) refl
  | inr differ ↦ rw (differ) (
      check_delay_slot-graph l c (check_inside l c o) (rw (check_inside-slots l c o) f.no_slot)
      ∙ ap (λ (g : R5900ReachabilityGraph). add_issues g (slot_issues l c))
          (check_inside-graph l c o f)
      ∙ ap (λ (is : List R5900ReachabilityIssue). record o.overlaps_graph { issues = is })
          (append_assoc o.overlaps_graph.issues (inside_issues l c) (slot_issues l c)))
]

-- Another pair stays fresh.
check_pair-Fresh :
    (l c : R5900BasicBlock) (o : Overlaps) (a b : ℕ)
    → (l.start_pc == a) && (c.start_pc == b) ≡ false
    → Fresh o a b
    → Fresh (check_pair l c o) a b
unfolding check_pair check_inside check_delay_slot
check_pair-Fresh l c o a b ne f = record {
  no_block = ground (arith, f.no_block);
  no_slot = ground (arith, f.no_slot);
}

check_leader-Fresh :
    (l : R5900BasicBlock) (blocks : List R5900BasicBlock) (o : Overlaps) (a b : ℕ)
    → (l.start_pc == a) ≡ false
    → Fresh o a b
    → Fresh (check_leader l blocks o) a b
unfolding check_leader
check_leader-Fresh l [] o a b ne f = f
check_leader-Fresh l (c ∷ rest) o a b ne f =
    check_leader-Fresh l rest (check_pair l c o) a b ne
      (check_pair-Fresh l c o a b (ground (arith, ne)) f)

abbrev AllFresh : Overlaps → ℕ → List R5900BasicBlock → Type 0
AllFresh o a blocks = All (λ (c : R5900BasicBlock). Fresh o a c.start_pc) blocks

check_pair-AllFresh :
    (l c : R5900BasicBlock) (o : Overlaps) (blocks : List R5900BasicBlock)
    → contains c.start_pc (starts blocks) ≡ false
    → AllFresh o l.start_pc blocks
    → AllFresh (check_pair l c o) l.start_pc blocks
check_pair-AllFresh l c o [] new h = tt
check_pair-AllFresh l c o (d ∷ rest) new h = (
  check_pair-Fresh l c o l.start_pc d.start_pc (ground (arith, new)) h.0,
  check_pair-AllFresh l c o rest (ground (arith, new)) h.1,
)

check_leader-graph :
    (l : R5900BasicBlock) (blocks : List R5900BasicBlock) (o : Overlaps)
    → distinct (starts blocks) ≡ true
    → AllFresh o l.start_pc blocks
    → (check_leader l blocks o).overlaps_graph
      ≡ add_issues o.overlaps_graph (leader_issues l blocks)
unfolding check_leader
check_leader-graph l [] o d h = rw (append-nil o.overlaps_graph.issues) refl
check_leader-graph l (c ∷ rest) o d h =
    check_leader-graph l rest (check_pair l c o) (ground (arith, d))
      (check_pair-AllFresh l c o rest (ground (arith, d)) h.1)
    ∙ ap (λ (g : R5900ReachabilityGraph). add_issues g (leader_issues l rest))
        (check_pair-graph l c o h.0)
    ∙ ap (λ (is : List R5900ReachabilityIssue). record o.overlaps_graph { issues = is })
        (append_assoc o.overlaps_graph.issues (pair_issues l c) (leader_issues l rest))

abbrev Untouched : Overlaps → List R5900BasicBlock → Type 0
Untouched o leaders = All (λ (l : R5900BasicBlock). (b : ℕ) → Fresh o l.start_pc b) leaders

check_leader-Untouched :
    (l : R5900BasicBlock) (blocks : List R5900BasicBlock) (o : Overlaps)
    (leaders : List R5900BasicBlock)
    → contains l.start_pc (starts leaders) ≡ false
    → Untouched o leaders
    → Untouched (check_leader l blocks o) leaders
check_leader-Untouched l blocks o [] new h = tt
check_leader-Untouched l blocks o (m ∷ rest) new h = (
  λ b. check_leader-Fresh l blocks o m.start_pc b (ground (arith, new)) (h.0 b),
  check_leader-Untouched l blocks o rest (ground (arith, new)) h.1,
)

Untouched-AllFresh :
    (o : Overlaps) (a : ℕ) (blocks : List R5900BasicBlock)
    → ((b : ℕ) → Fresh o a b)
    → AllFresh o a blocks
Untouched-AllFresh o a [] h = tt
Untouched-AllFresh o a (c ∷ rest) h = (h c.start_pc, Untouched-AllFresh o a rest h)

check_leaders-graph :
    (leaders blocks : List R5900BasicBlock) (o : Overlaps)
    → distinct (starts leaders) ≡ true
    → distinct (starts blocks) ≡ true
    → Untouched o leaders
    → (check_leaders leaders blocks o).overlaps_graph
      ≡ add_issues o.overlaps_graph (overlap_issues leaders blocks)
unfolding check_leaders
check_leaders-graph [] blocks o d db h = rw (append-nil o.overlaps_graph.issues) refl
check_leaders-graph (l ∷ rest) blocks o d db h =
    check_leaders-graph rest blocks (check_leader l blocks o) (ground (arith, d)) db
      (check_leader-Untouched l blocks o rest (ground (arith, d)) h.1)
    ∙ ap (λ (g : R5900ReachabilityGraph). add_issues g (overlap_issues rest blocks))
        (check_leader-graph l blocks o db (Untouched-AllFresh o l.start_pc blocks h.0))
    ∙ ap (λ (is : List R5900ReachabilityIssue). record o.overlaps_graph { issues = is })
        (append_assoc o.overlaps_graph.issues (leader_issues l blocks) (overlap_issues rest blocks))

nothing-Untouched :
    (graph : R5900ReachabilityGraph) (leaders : List R5900BasicBlock)
    → Untouched (record { overlaps_graph = graph; emitted_blocks = []; emitted_slots = [] }) leaders
nothing-Untouched graph [] = tt
nothing-Untouched graph (l ∷ rest) =
    (λ b. record { no_block = refl; no_slot = refl }, nothing-Untouched graph rest)

-- When no two blocks of the graph start at one address, the detection of overlaps appends one issue
-- for each pair of blocks of which the first starts inside the second, and one for each pair of which
-- the first starts in the delay slot of the second, and changes nothing else.
pub detect_overlapping_leaders_lem :
    (graph : R5900ReachabilityGraph)
    → distinct (starts graph.blocks) ≡ true
    → detect_overlapping_leaders graph ≡ add_issues graph (overlap_issues graph.blocks graph.blocks)
unfolding detect_overlapping_leaders
detect_overlapping_leaders_lem graph d =
    check_leaders-graph graph.blocks graph.blocks _ d d (nothing-Untouched graph graph.blocks)
