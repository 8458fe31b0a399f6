-- ===== src/Validate/Cycles/Silent.antt =====
-- On a draft without a cycle the search adds no error.
use lang_orch.Base.{
  ℕ, zero, suc, String, Bool, true, false, List, [], ◌∷◌, length, Bool-cases, ◌≡◌, refl, ◌∙◌, inl,
  inr, arith,
}
use lang_orch.Draft.{BuilderNodeDraft, Issue}
use lang_orch.Validate.Graph.{targets_of, contains, Edge, Walk}
use lang_orch.Validate.Cycles.{
  CycleState, enter, close, try_targets, detect_cycle, detect_from, detect_cycles,
}
use lang_orch.Validate.Cycles.Sound.{stack-detect_cycle, detect_cycle_sound}

errors-try_targets :
    (detect : String → CycleState → Bool × CycleState)
    → ((t : String) (s : CycleState) → (detect t s).0 ≡ false → (detect t s).1.errors ≡ s.errors)
    → (ts : List String) (s : CycleState) → (try_targets detect ts s).0 ≡ false
    → (try_targets detect ts s).1.errors ≡ s.errors
unfolding try_targets
errors-try_targets detect same [] s h = refl
errors-try_targets detect same (t ∷ ts) s h =
    ground (arith, same t s, errors-try_targets detect same ts (detect t s).1)

close-miss :
    (i : String) (r : Bool × CycleState)
    → (close i r).0 ≡ false
    → (r.0 ≡ false) × ((close i r).1.errors ≡ r.1.errors)
close-miss i (true, s) h = cc
close-miss i (false, s) h = (refl, refl)

errors-detect_cycle :
    (fuel : ℕ) (ns : List BuilderNodeDraft) (i : String) (s : CycleState)
    → (detect_cycle fuel ns i s).0 ≡ false
    → (detect_cycle fuel ns i s).1.errors ≡ s.errors
unfolding detect_cycle
errors-detect_cycle zero ns i s h = refl
errors-detect_cycle (suc fuel) ns i s h =
    let tried = try_targets (detect_cycle fuel ns) (targets_of ns i) (enter i s) in
    ground (
      arith,
      close-miss i tried,
      errors-try_targets (detect_cycle fuel ns) (errors-detect_cycle fuel ns) (targets_of ns i)
          (enter i s),
    )

module _ (ns : List BuilderNodeDraft) (acyclic : (x y : String) → Edge ns x y → ¬ Walk ns y x) where
  detect_cycle-misses :
      (fuel : ℕ) (i : String) (s : CycleState) → s.stack ≡ [] → (detect_cycle fuel ns i s).0 ≡ false
  detect_cycle-misses fuel i s empty = elim (Bool-cases (detect_cycle fuel ns i s).0) [
    | inl hit ↦
        let (x, y, _, e, back) = detect_cycle_sound ns fuel i s empty hit in
        absurd (acyclic x y e back)
    | inr miss ↦ miss
  ]

  errors-detect_from :
      (fuel : ℕ) (ms : List BuilderNodeDraft) (s : CycleState)
      → s.stack ≡ []
      → (detect_from fuel ns ms s).errors ≡ s.errors
  unfolding detect_from
  errors-detect_from fuel [] s empty = refl
  errors-detect_from fuel (m ∷ ms) s empty = elim (Bool-cases (contains s.visited m.id)) [
    | inl old ↦ rw (old, detect_from) (errors-detect_from fuel ms s empty)
    | inr new ↦
        rw (new, detect_from)
          (errors-detect_from fuel ms (detect_cycle fuel ns m.id s).1
              (stack-detect_cycle fuel ns m.id s ∙ empty)
            ∙ errors-detect_cycle fuel ns m.id s (detect_cycle-misses fuel m.id s empty))
  ]

  pub errors-detect_cycles : (errors : List Issue) → detect_cycles ns errors ≡ errors
  unfolding detect_cycles
  errors-detect_cycles errors = errors-detect_from (suc (length ns)) ns _ refl
