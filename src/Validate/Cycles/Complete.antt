-- ===== src/Validate/Cycles/Complete.antt =====
-- What the search does not report is not there: without a cycle error the draft has no cycle.
use mathlib.Core.Path.{subst}
use lang_orch.Base.{
  ℕ, zero, suc, ◌<◌, String, Bool, true, false, List, [], ◌∷◌, ◌++◌, length, eq_iff, Bool-cases,
  ◌≡◌, refl, sym, ◌∙◌, inl, inr, arith,
}
use lang_orch.Draft.{BuilderNodeDraft, Issue}
use lang_orch.Store.{has_node}
use lang_orch.Validate.Graph.{node_of, targets_of, contains, Edge, Walk, here, step}
use lang_orch.Validate.Cycles.{
  CycleState, report_cycle, enter, close, try_targets, detect_cycle, detect_from, detect_cycles,
}
use lang_orch.Validate.Cycles.Sound.{stack-detect_cycle}
use lang_orch.Validate.Cycles.Finish.{
  open_nodes, Within, open_nodes-antitone, Sorted, Inv, Finishes-detect_cycle, close-flag,
}

-- Errors are only added, and a hit adds one.
abbrev pub filled : List Issue → Bool
filled [] = false
filled (e ∷ es) = true

filled-append : (es : List Issue) (e : Issue) → filled (es ++ e ∷ []) ≡ true
filled-append [] e = refl
filled-append (f ∷ es) e = refl

filled-report_cycle : (i : String) (es : List Issue) → filled (report_cycle i es) ≡ true
unfolding report_cycle
filled-report_cycle i [] = refl
filled-report_cycle i (e ∷ es) = ground arith

filled-close :
    (i : String) (r : Bool × CycleState)
    → filled r.1.errors ≡ true
    → filled (close i r).1.errors ≡ true
filled-close i (true, s) h = filled-report_cycle i s.errors
filled-close i (false, s) h = h

close_hit : (i : String) (r : Bool × CycleState) → r.0 ≡ true → filled (close i r).1.errors ≡ true
close_hit i (true, s) h = filled-report_cycle i s.errors
close_hit i (false, s) h = cc

filled-try_targets :
    (detect : String → CycleState → Bool × CycleState)
    → ((t : String) (s : CycleState) → filled s.errors ≡ true → filled (detect t s).1.errors ≡ true)
    → (ts : List String) (s : CycleState) → filled s.errors ≡ true
    → filled (try_targets detect ts s).1.errors ≡ true
unfolding try_targets
filled-try_targets detect grows [] s h = h
filled-try_targets detect grows (t ∷ ts) s h =
    ground (arith, grows t s, filled-try_targets detect grows ts (detect t s).1)

module _ (ns : List BuilderNodeDraft) where
  filled-detect_cycle :
      (fuel : ℕ) (i : String) (s : CycleState)
      → filled s.errors ≡ true
      → filled (detect_cycle fuel ns i s).1.errors ≡ true
  unfolding detect_cycle
  filled-detect_cycle zero i s h = h
  filled-detect_cycle (suc fuel) i s h =
      let tried = try_targets (detect_cycle fuel ns) (targets_of ns i) (enter i s) in
      ground (
        arith,
        filled-close i tried (
            filled-try_targets (detect_cycle fuel ns) (filled-detect_cycle fuel) (targets_of ns i)
              (enter i s) h),
      )

  detect_cycle_hit :
      (fuel : ℕ) (i : String) (s : CycleState)
      → contains s.stack i ≡ false
      → (detect_cycle fuel ns i s).0 ≡ true
      → filled (detect_cycle fuel ns i s).1.errors ≡ true
  unfolding detect_cycle
  detect_cycle_hit zero i s off h = cc
  detect_cycle_hit (suc fuel) i s off h =
      let tried = try_targets (detect_cycle fuel ns) (targets_of ns i) (enter i s) in
      ground (arith, close-flag ns i tried, close_hit i tried)

  filled-detect_from :
      (fuel : ℕ) (ms : List BuilderNodeDraft) (s : CycleState)
      → filled s.errors ≡ true
      → filled (detect_from fuel ns ms s).errors ≡ true
  unfolding detect_from
  filled-detect_from fuel [] s h = h
  filled-detect_from fuel (m ∷ ms) s h =
      filled-detect_from fuel ms _ (ground (arith, filled-detect_cycle fuel m.id s h))

  -- Without an error every node of the list is finished.
  Finishes-detect_from :
      (fuel : ℕ) (ms : List BuilderNodeDraft) (s : CycleState) (done : List String)
      → open_nodes ns s.visited < fuel
      → s.stack ≡ []
      → Inv ns s done
      → filled (detect_from fuel ns ms s).errors ≡ false
      → (done' : List String) × Sorted ns done'
        × Within done done'
        × ((x : String) → has_node ms x ≡ true → contains done' x ≡ true)
  unfolding detect_from
  Finishes-detect_from fuel [] s done enough empty v h = (done, v.sorted, λ x m. m, λ x m. cc)
  Finishes-detect_from fuel (m ∷ ms) s done enough empty v h =
      elim (Bool-cases (contains s.visited m.id)) [
        | inl old ↦
            let (done', sorted, more, all_done) =
              Finishes-detect_from fuel ms s done enough empty v (rw (old, detect_from) at h) in
            let at_m : contains done' m.id ≡ true = more m.id (ground (arith, v.split m.id)) in
            (done', sorted, more, λ x k. ground (arith, all_done x, eq_iff m.id x))
        | inr new ↦ elim (Bool-cases (detect_cycle fuel ns m.id s).0) [
          | inl hit ↦ absurd (
              ground (
                arith,
                new,
                filled-detect_from fuel ms (detect_cycle fuel ns m.id s).1
                    (detect_cycle_hit fuel m.id s (rw empty refl) hit),
              ))
          | inr miss ↦
              let (done₁, g, held) = Finishes-detect_cycle ns fuel m.id s done enough v miss in
              let (done₂, sorted, more, all_done) =
                Finishes-detect_from fuel ms (detect_cycle fuel ns m.id s).1 done₁
                  (omega (
                    arith,
                    open_nodes-antitone ns s.visited (detect_cycle fuel ns m.id s).1.visited g.seen,
                  ))
                  (stack-detect_cycle fuel ns m.id s ∙ empty) g.inv (ground (arith, new)) in
              let at_m : contains done₂ m.id ≡ true = more m.id held in
              (
                done₂,
                sorted,
                λ x k. more x (g.more x k),
                λ x k. ground (arith, all_done x, eq_iff m.id x),
              )
        ]
      ]

  Sorted-closed :
      (done : List String) (u v : String)
      → Sorted ns done
      → contains done u ≡ true
      → Edge ns u v
      → contains done v ≡ true
  Sorted-closed [] u v s m e = cc
  Sorted-closed (x ∷ xs) u v s m e = elim (Bool-cases (contains xs u)) [
    | inl behind ↦ ground (arith, Sorted-closed xs u v s.1 behind e)
    | inr first ↦
        let same : x ≡ u = (eq_iff x u).0 (ground arith) in
        ground (arith, s.0 v (subst (λ z. Edge ns z v) (sym same) e))
  ]

  Sorted-Walk :
      (done : List String) {u v : String}
      → Sorted ns done
      → contains done u ≡ true
      → Walk ns u v
      → contains done v ≡ true
  Sorted-Walk done s m here = m
  Sorted-Walk done s m (step {v} {w} r e) = Sorted-closed done v w s (Sorted-Walk done s m r) e

  -- No transition of a finished identifier leads back to it.
  Sorted-acyclic :
      (done : List String) (x y : String)
      → Sorted ns done
      → contains done x ≡ true
      → Edge ns x y
      → ¬ Walk ns y x
  Sorted-acyclic [] x y s m e w = cc
  Sorted-acyclic (z ∷ zs) x y s m e w = elim (Bool-cases (contains zs x)) [
    | inl behind ↦ Sorted-acyclic zs x y s.1 behind e w
    | inr first ↦
        let same : z ≡ x = (eq_iff z x).0 (ground arith) in
        let next : contains zs y ≡ true = s.0 y (subst (λ u. Edge ns u y) (sym same) e) in
        let back : contains zs x ≡ true = Sorted-Walk zs s.1 next w in cc
  ]

open_nodes-nil : (ns : List BuilderNodeDraft) → open_nodes ns [] ≡ length ns
open_nodes-nil [] = refl
open_nodes-nil (n ∷ ns) = omega (arith, open_nodes-nil ns)

-- Only a node of the draft has targets.
has_node-targets_of :
    (ns : List BuilderNodeDraft) (x y : String) → Edge ns x y → has_node ns x ≡ true
unfolding targets_of node_of
has_node-targets_of [] x y e = cc
has_node-targets_of (n ∷ ns) x y e = ground (arith, has_node-targets_of ns x y)

-- Errors that are there stay, so none at the end means none before.
pub detect_cycles-eq-nil :
    (ns : List BuilderNodeDraft) (errors : List Issue) → detect_cycles ns errors ≡ [] → errors ≡ []
unfolding detect_cycles
detect_cycles-eq-nil ns [] h = refl
detect_cycles-eq-nil ns (e ∷ es) h = ground (
  arith,
  filled-detect_from ns (suc (length ns)) ns (record { visited = []; stack = []; errors = e ∷ es })
      refl,
)

-- If the search ends with no error at all, the draft has no cycle: no transition of a node starts a
-- walk back to it.
pub detect_cycles_complete :
    (ns : List BuilderNodeDraft) (errors : List Issue)
    → detect_cycles ns errors ≡ []
    → (x y : String) → Edge ns x y
    → ¬ Walk ns y x
unfolding detect_cycles
detect_cycles_complete ns errors h x y e w =
    let (done, sorted, _, all_done) =
      Finishes-detect_from ns (suc (length ns)) ns
        (record { visited = []; stack = []; errors = errors }) [] (omega (arith, open_nodes-nil ns))
        refl (record { sorted = tt; split = λ x. refl }) (rw h refl) in
    Sorted-acyclic ns done x y sorted (all_done x (has_node-targets_of ns x y e)) e w
