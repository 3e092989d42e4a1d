-- ===== src/Analysis/Reachability/Rounds.antt =====
-- A round of the search keeps its invariant.
use burnout_3_recompiled.Common.{
  ℕ, Bool, true, Option, some, none, List, [], ◌∷◌, ◌++◌, ◌≡◌, refl, sym, ap, ◌∙◌, subst, arith,
  contains, distinct, contains-append, distinct-append_rest, All, All-append, All-map, All-rest,
}
use mathlib.Core.List.{append_assoc}
use burnout_3_recompiled.Runtime.MemoryMap.{Ps2MemoryMap}
use burnout_3_recompiled.Runtime.MemoryMap.Spans.{IsMap}
use burnout_3_recompiled.Analysis.ControlFlow.{
  R5900BasicBlock, R5900ControlFlowEdge, R5900ControlFlowError,
}
use burnout_3_recompiled.Analysis.ControlFlow.Found.{
  IsBlock-start_pc, analyze_r5900_basic_block-IsBlock,
}
use burnout_3_recompiled.Analysis.Reachability.{R5900ReachabilityOptions}
use burnout_3_recompiled.Analysis.Reachability.View.{
  View, starts, starts-append, followed_target, add_target, add_targets,
}
use burnout_3_recompiled.Analysis.Reachability.Invariant.{
  ScheduledIn, Inv, Reaches, IsBlockAt, FailsAt, IsFound, IsClosed, IsUnfounded, targets-Reaches,
  add_targets-Inv,
}

add_target-blocks : (t : Option ℕ) (v : View) → (add_target t v).blocks ≡ v.blocks
unfolding add_target
add_target-blocks none v = refl
add_target-blocks (some t) v = ground arith

pub add_targets-blocks :
    (follow : Bool) (edges : List R5900ControlFlowEdge) (v : View)
    → (add_targets follow edges v).blocks ≡ v.blocks
unfolding add_targets
add_targets-blocks follow [] v = refl
add_targets-blocks follow (edge ∷ rest) v =
    add_targets-blocks follow rest _ ∙ add_target-blocks (followed_target follow edge) v

-- What was scheduled stays scheduled.
add_target-contains :
    (t : Option ℕ) (u : ℕ) (v : View)
    → contains u v.scheduled ≡ true
    → contains u (add_target t v).scheduled ≡ true
unfolding add_target
add_target-contains none u v h = h
add_target-contains (some t) u v h = ground (arith, h)

add_targets-contains :
    (follow : Bool) (edges : List R5900ControlFlowEdge) (u : ℕ) (v : View)
    → contains u v.scheduled ≡ true
    → contains u (add_targets follow edges v).scheduled ≡ true
unfolding add_targets
add_targets-contains follow [] u v h = h
add_targets-contains follow (edge ∷ rest) u v h =
    add_targets-contains follow rest u _ (add_target-contains (followed_target follow edge) u v h)

add_targets-ScheduledIn :
    (follow : Bool) (edges : List R5900ControlFlowEdge) (t : Option ℕ) (v : View)
    → ScheduledIn v.scheduled t
    → ScheduledIn (add_targets follow edges v).scheduled t
add_targets-ScheduledIn follow edges none v h = tt
add_targets-ScheduledIn follow edges (some t) v h = add_targets-contains follow edges t v h

add_target-ScheduledIn : (t : Option ℕ) (v : View) → ScheduledIn (add_target t v).scheduled t
unfolding add_target
add_target-ScheduledIn none v = tt
add_target-ScheduledIn (some t) v = ground arith

add_targets-IsClosed :
    (follow : Bool) (edges : List R5900ControlFlowEdge) (v : View)
    → All
        (λ (edge : R5900ControlFlowEdge).
          ScheduledIn (add_targets follow edges v).scheduled (followed_target follow edge))
        edges
unfolding add_targets
add_targets-IsClosed follow [] v = tt
add_targets-IsClosed follow (edge ∷ rest) v = (
  add_targets-ScheduledIn follow rest (followed_target follow edge)
      (add_target (followed_target follow edge) v)
      (add_target-ScheduledIn (followed_target follow edge) v),
  add_targets-IsClosed follow rest _,
)

module _ (memory : Ps2MemoryMap) (options : R5900ReachabilityOptions) (entry : ℕ) where
  -- The invariant, and every block's followed targets were scheduled.
  pub record IsView (v : View) : Type 0 where
    pub inv : Inv memory options entry v
    pub closed : All (IsClosed memory options entry v.scheduled) v.blocks

  abbrev taken : R5900BasicBlock → List ℕ → View → View
  taken block rest v = record v { blocks = v.blocks ++ block ∷ []; waiting = rest }

  starts-taken :
      (p : ℕ) (rest : List ℕ) (block : R5900BasicBlock) (v : View)
      → v.waiting ≡ p ∷ rest
      → block.start_pc ≡ p
      → starts (v.blocks ++ block ∷ []) ++ rest ≡ starts v.blocks ++ v.waiting
  starts-taken p rest block v e at =
      rw (starts-append v.blocks (block ∷ []), e, at) (append_assoc (starts v.blocks) (p ∷ []) rest)

  taken-Inv :
      (p : ℕ) (rest : List ℕ) (block : R5900BasicBlock) (v : View)
      → v.waiting ≡ p ∷ rest
      → block.start_pc ≡ p
      → IsBlockAt memory options entry p block
      → Inv memory options entry v
      → Inv memory options entry (taken block rest v)
  taken-Inv p rest block v e at is h =
      let same = starts-taken p rest block v e at in
      let reach : All (Reaches memory options entry) (p ∷ rest) =
        subst (All (Reaches memory options entry)) e h.reached in
      record {
        known = subst (All (λ t. contains t v.scheduled ≡ true)) (sym same) h.known;
        apart = ap distinct same ∙ h.apart;
        covered = λ u k. ground (
          arith,
          h.covered u k,
          ap (contains u) e,
          ap (contains u) (starts-append v.blocks (block ∷ [])),
          contains-append u (starts v.blocks) (block.start_pc ∷ []),
        );
        entered = h.entered;
        all_found = All-append (IsFound memory options entry) v.blocks (block ∷ []) h.all_found (
          (
            subst (λ q. IsBlockAt memory options entry q block) (sym at) is,
            subst (Reaches memory options entry) (sym at) reach.0,
          ),
          tt,
        );
        reached = reach.1;
        all_failed = h.all_failed;
      }

  -- The target gives a block, whose edges are followed.
  pub found-IsView :
      (p : ℕ) (rest : List ℕ) (block : R5900BasicBlock) (v : View)
      → IsMap memory
      → v.waiting ≡ p ∷ rest
      → IsBlockAt memory options entry p block
      → IsView v
      → IsView (add_targets options.follow_direct_calls block.edges (taken block rest v))
  found-IsView p rest block v valid e is h =
      let follow = options.follow_direct_calls in
      let t = taken block rest v in
      let at =
        IsBlock-start_pc memory _ _ _
          (analyze_r5900_basic_block-IsBlock memory p options.block_options valid is) in
      let reach : All (Reaches memory options entry) (p ∷ rest) =
        subst (All (Reaches memory options entry)) e h.inv.reached in
      let sch = (add_targets follow block.edges t).scheduled in
      record {
        inv =
            add_targets-Inv memory options entry block.edges t
              (targets-Reaches memory options entry [] block.edges reach.0 is refl)
              (taken-Inv p rest block v e at is h.inv);
        closed = rw (add_targets-blocks follow block.edges t) (
            All-append (IsClosed memory options entry sch) v.blocks (block ∷ [])
              (All-map
                (λ b k.
                  All-map
                    (λ edge s.
                      add_targets-ScheduledIn follow block.edges (followed_target follow edge) t s)
                    b.edges k)
                v.blocks h.closed)
              (add_targets-IsClosed follow block.edges t, tt));
      }

  -- The target gives no block.
  pub missing-IsView :
      (p : ℕ) (rest : List ℕ) (why : R5900ControlFlowError) (v : View)
      → v.waiting ≡ p ∷ rest
      → FailsAt memory options entry p why
      → IsView v
      → IsView (record v { waiting = rest; failed = v.failed ++ p ∷ [] })
  missing-IsView p rest why v e fails h =
      let reach : All (Reaches memory options entry) (p ∷ rest) =
        subst (All (Reaches memory options entry)) e h.inv.reached in
      record {
        inv = record {
          known = All-rest _ (starts v.blocks) p rest (
              subst
                (λ (ws : List ℕ). All (λ t. contains t v.scheduled ≡ true) (starts v.blocks ++ ws))
                e h.inv.known);
          apart =
              distinct-append_rest (starts v.blocks) p rest
                (ap (λ ws. distinct (starts v.blocks ++ ws)) (sym e) ∙ h.inv.apart);
          covered = λ u k.
              ground
                (arith, h.inv.covered u k, ap (contains u) e, contains-append u v.failed (p ∷ []));
          entered = h.inv.entered;
          all_found = h.inv.all_found;
          reached = reach.1;
          all_failed =
              All-append (IsUnfounded memory options entry) v.failed (p ∷ []) h.inv.all_failed
                (((why, fails), reach.0), tt);
        };
        closed = h.closed;
      }

  pub start-IsView :
      IsView (record { blocks = []; waiting = entry ∷ []; scheduled = entry ∷ []; failed = [] })
  start-IsView = record {
    inv = record {
      known = (ground arith, tt);
      apart = refl;
      covered = λ u k. ground (arith, k);
      entered = ground arith;
      all_found = tt;
      reached = (Reaches.at_entry, tt);
      all_failed = tt;
    };
    closed = tt;
  }
