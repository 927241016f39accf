-- ===== src/Backend/Service/Failures.antt =====
-- The failure counter of backend/src/notificationService.ts.
use cosmosvote.Prelude.{
  ℕ, zero, suc, ◌+◌, min, ◌≡◌, refl, false, List, [], ◌∷◌, arith, leb, length, reverse_onto,
  replicate, All, Result, ok, throws,
}
use cosmosvote.Backend.Service.{
  Thrown, Config, Answer, answered, without_data, poll_failed, poll_events, poll_all,
}

-- The answers, the newest first: how many requests have failed since the last one that was answered,
-- which counts as a failure itself where it came without data.
abbrev pub failures_since : List (Result Thrown Answer) → ℕ
failures_since [] = 0
failures_since (ok (answered events) ∷ older) = 0
failures_since (ok without_data ∷ older) = 1
failures_since (throws err ∷ older) = suc (failures_since older)

counter_step :
    (config : Config) (older : List (Result Thrown Answer)) (answer : Result Thrown Answer)
    → (poll_events config (failures_since older) answer).consecutive_failures
      ≡ failures_since (answer ∷ older)
unfolding poll_events poll_failed
counter_step config older (ok (answered events)) = refl
counter_step config older (ok without_data) = refl
counter_step config older (throws err) = omega arith

counter_from :
    (config : Config) (older answers : List (Result Thrown Answer))
    → (poll_all config (failures_since older) answers).0
      ≡ failures_since (reverse_onto answers older)
unfolding poll_all
counter_from config older [] = refl
counter_from config older (answer ∷ answers) =
    rw (counter_step config older answer) (counter_from config (answer ∷ older) answers)

add_one : (n : ℕ) → n + 1 ≡ suc n
add_one n = omega arith

-- After any polls, the counter, the alert and the reports of one more poll are given by the failures
-- since the last answer: the counter is their number, the alert is logged from the third on, and
-- each failure is reported, also the first two.
pub poll_events-failures_since :
    (config : Config) (answers : List (Result Thrown Answer)) (answer : Result Thrown Answer)
    → let p = poll_events config (poll_all config 0 answers).0 answer in
      let failures = failures_since (answer ∷ reverse_onto answers []) in
      (p.consecutive_failures ≡ failures)
      × (p.alert_logged ≡ leb 3 failures)
      × (length p.reports ≡ min 1 failures)
unfolding poll_events poll_failed
poll_events-failures_since config answers (ok (answered events)) = (refl, refl, refl)
poll_events-failures_since config answers (ok without_data) = (refl, refl, refl)
poll_events-failures_since config answers (throws err) =
    let counted = counter_from config [] answers in
    (omega (arith, counted), rw (counted, add_one) refl, omega arith)

-- However many polls in a row are answered without data, and from whatever counter, each of them
-- leaves the counter at one and logs no alert.
pub poll_all_without_data :
    (config : Config) (failures n : ℕ)
    → All
        (λ p. (p.alert_logged ≡ false) × (p.consecutive_failures ≡ 1))
        (poll_all config failures (replicate n (ok without_data))).1
unfolding poll_all poll_events poll_failed
poll_all_without_data config failures zero = tt
poll_all_without_data config failures (suc n) = ((refl, refl), poll_all_without_data config 1 n)
