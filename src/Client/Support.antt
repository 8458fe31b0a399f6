-- ===== src/Client/Support.antt =====
-- When the page of cases asks the backend for its analytics: `queueAnalyticsSupported` of frontend/src/lib/api.ts.
use lang_orch.Base.{
  Bool, true, false, Option, some, List, [], ◌∷◌, ◌++◌, map, All, ◌≡◌, refl, ap, ap, Value,
}
use lang_orch.Client.Request.{Result, ok, err}
use lang_orch.Client.Steps.{
  empty_queue_analytics, tells_missing, get_case_queue_analytics, AnalyticsCall, step_of, given,
  session, is_off, received_analytics,
}

-- The flag after an answer
abbrev flag_after : Option Bool → Result Value → Option Bool
flag_after s (ok v) = some true
flag_after s (err e) = s

flag_after-is_off :
    (s : Option Bool) (r : Result Value) → is_off s ≡ false → is_off (flag_after s r) ≡ false
flag_after-is_off s (ok v) h = refl
flag_after-is_off s (err e) h = h

received-answered :
    (s : Option Bool) (r : Result Value)
    → tells_missing r ≡ false
    → received_analytics s r ≡ (flag_after s r, r)
unfolding received_analytics
received-answered s (ok v) h = refl
received-answered s (err e) h = rw h refl

received-missing :
    (s : Option Bool) (r : Result Value)
    → tells_missing r ≡ true
    → received_analytics s r ≡ (some false, ok empty_queue_analytics)
unfolding received_analytics
received-missing s (ok v) h = cc
received-missing s (err e) h = rw h refl

step-eq :
    (q : AnalyticsCall) (s : Option Bool) {t : Option Bool} {seen : Result Value}
    → is_off s ≡ false
    → received_analytics s (given q) ≡ (t, seen)
    → step_of q s ≡ (t, seen, true)
unfolding get_case_queue_analytics
step-eq q s off e = rw off (ap (λ p. (p.0, p.1, true)) e)

session-off :
    (qs : List AnalyticsCall)
    → session qs (some false) ≡ map (λ _. (ok empty_queue_analytics, false)) qs
unfolding session get_case_queue_analytics
session-off [] = refl
session-off (q ∷ qs) = ap (λ rs. (ok empty_queue_analytics, false) ∷ rs) (session-off qs)

-- Each call is answered by the backend, until it answers one with status 404; from then on every call
-- gives the empty analytics, and no further request is sent.
pub session-missing :
    (before after : List AnalyticsCall) (q : AnalyticsCall) (supported : Option Bool)
    → is_off supported ≡ false
    → All (λ b. tells_missing (given b) ≡ false) before
    → tells_missing (given q) ≡ true
    → session (before ++ q ∷ after) supported
      ≡ map (λ b. (given b, true)) before
        ++ (ok empty_queue_analytics, true) ∷ map (λ _. (ok empty_queue_analytics, false)) after
unfolding session
session-missing [] after q s off h g =
    rw (step-eq q s off (received-missing s (given q) g))
      (ap (λ rs. (ok empty_queue_analytics, true) ∷ rs) (session-off after))
session-missing (b ∷ before) after q s off h g =
    rw (step-eq b s off (received-answered s (given b) h.0)) (
      ap (λ rs. (given b, true) ∷ rs)
        (session-missing before after q (flag_after s (given b)) (flag_after-is_off s (given b) off)
          h.1 g))
