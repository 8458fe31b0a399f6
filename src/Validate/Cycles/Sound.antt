-- ===== src/Validate/Cycles/Sound.antt =====
-- What the search reports is there: from a node that it flags, transitions lead to a cycle.
use mathlib.Core.Path.{subst}
use lang_orch.Base.{
  ℕ, zero, suc, String, Bool, true, false, List, [], ◌∷◌, ◌==◌, eq_iff, Bool-cases, ◌≡◌, ◌⊎◌, refl,
  sym, inl, inr, arith,
}
use lang_orch.Draft.{BuilderNodeDraft}
use lang_orch.Validate.Graph.{targets_of, contains, Edge, Walk, here, step}
use lang_orch.Validate.Cycles.{CycleState, delete, enter, close, try_targets, detect_cycle}

module _ (ns : List BuilderNodeDraft) where
  pub Walk-trans : {u v w : String} → Walk ns u v → Walk ns v w → Walk ns u w
  Walk-trans p here = p
  Walk-trans p (step q e) = step (Walk-trans p q) e

  -- A cycle that can be reached from `i`: a node, and a transition from it that leads back.
  abbrev pub CycleFrom : String → Type 0
  CycleFrom i = (x : String) × (y : String) × Walk ns i x × Edge ns x y × Walk ns y x

  CycleFrom-back : {i t : String} → Edge ns i t → CycleFrom t → CycleFrom i
  CycleFrom-back e (x, y, w, f, back) = (x, y, Walk-trans (step here e) w, f, back)

  -- Or a node on the stack can be reached.
  abbrev Found : List String → String → Type 0
  Found stack i = CycleFrom i ⊎ ((x : String) × (contains stack x ≡ true) × Walk ns i x)

  Found-above :
      (stack : List String) (i t : String) → Edge ns i t → Found (i ∷ stack) t → Found stack i
  Found-above stack i t e (inl cycle) = inl (CycleFrom-back e cycle)
  Found-above stack i t e (inr (x, on, w)) = elim (Bool-cases (i == x)) [
    | inl same ↦ inl (i, t, here, e, subst (Walk ns t) (sym ((eq_iff i x).0 same)) w)
    | inr other ↦ inr (x, ground arith, Walk-trans (step here e) w)
  ]

-- The search leaves the stack as it found it.
delete_absent :
    (i : String) (stack : List String) → contains stack i ≡ false → delete i stack ≡ stack
delete_absent i [] h = refl
delete_absent i (j ∷ js) h = ground (arith, delete_absent i js)

pub stack-try_targets :
    (detect : String → CycleState → Bool × CycleState)
    → ((t : String) (s : CycleState) → (detect t s).1.stack ≡ s.stack)
    → (ts : List String) (s : CycleState) → (try_targets detect ts s).1.stack ≡ s.stack
unfolding try_targets
stack-try_targets detect same [] s = refl
stack-try_targets detect same (t ∷ ts) s =
    ground (arith, same t s, stack-try_targets detect same ts (detect t s).1)

stack-close : (i : String) (r : Bool × CycleState) → (close i r).1.stack ≡ delete i r.1.stack
stack-close i (true, s) = refl
stack-close i (false, s) = refl

pub stack-detect_cycle :
    (fuel : ℕ) (ns : List BuilderNodeDraft) (i : String) (s : CycleState)
    → (detect_cycle fuel ns i s).1.stack ≡ s.stack
unfolding detect_cycle
stack-detect_cycle zero ns i s = refl
stack-detect_cycle (suc fuel) ns i s =
    let tried = try_targets (detect_cycle fuel ns) (targets_of ns i) (enter i s) in
    ground (
      arith,
      stack-close i tried,
      stack-try_targets (detect_cycle fuel ns) (stack-detect_cycle fuel ns) (targets_of ns i)
          (enter i s),
      delete_absent i s.stack,
      eq_iff i i,
    )

module _ (ns : List BuilderNodeDraft) where
  Found-try_targets :
      (detect : String → CycleState → Bool × CycleState)
      → ((t : String) (s : CycleState) → (detect t s).1.stack ≡ s.stack)
      → ((t : String) (s : CycleState) → (detect t s).0 ≡ true → Found ns s.stack t)
      → (ts : List String) (s : CycleState) → (try_targets detect ts s).0 ≡ true
      → (t : String) × (contains ts t ≡ true) × Found ns s.stack t
  unfolding try_targets
  Found-try_targets detect same finds [] s h = cc
  Found-try_targets detect same finds (t ∷ ts) s h = elim (Bool-cases (detect t s).0) [
    | inl hit ↦ (t, ground (arith, eq_iff t t), finds t s hit)
    | inr miss ↦
        let (u, among, found) =
          Found-try_targets detect same finds ts (detect t s).1 (ground arith) in
        (u, ground arith, subst (λ stack. Found ns stack u) (same t s) found)
  ]

  close-flag : (i : String) (r : Bool × CycleState) → (close i r).0 ≡ r.0
  close-flag i (true, s) = refl
  close-flag i (false, s) = refl

  Found-detect_cycle :
      (fuel : ℕ) (i : String) (s : CycleState)
      → (detect_cycle fuel ns i s).0 ≡ true
      → Found ns s.stack i
  unfolding detect_cycle
  Found-detect_cycle zero i s h = cc
  Found-detect_cycle (suc fuel) i s h = elim (Bool-cases (contains s.stack i)) [
    | inl on ↦ inr (i, on, here)
    | inr off ↦
        let (t, among, found) =
          Found-try_targets (detect_cycle fuel ns) (stack-detect_cycle fuel ns)
            (Found-detect_cycle fuel) (targets_of ns i) (enter i s)
            (ground (
              arith,
              close-flag i (try_targets (detect_cycle fuel ns) (targets_of ns i) (enter i s)),
            )) in
        Found-above ns s.stack i t among found
  ]

  -- A node that the search flags while the stack is empty leads to a cycle.
  pub detect_cycle_sound :
      (fuel : ℕ) (i : String) (s : CycleState)
      → s.stack ≡ []
      → (detect_cycle fuel ns i s).0 ≡ true
      → CycleFrom ns i
  detect_cycle_sound fuel i s empty h = elim (Found-detect_cycle fuel i s h) [
    | inl cycle ↦ cycle
    | inr (x, on, _) ↦ absurd (ground arith)
  ]
