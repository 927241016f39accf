-- ===== src/Frontend/Analytics/Examples.antt =====
-- The theorems on frontend/src/analytics.ts at a concrete run.
use cosmosvote.Prelude.{◌+◌, ◌≡◌, refl, some, true, false, [], ◌∷◌, js, ◌==◌}
use cosmosvote.Frontend.Analytics.{
  AnalyticsEvent, Settings, State, load, persist, flush, request_ends, track_event, Reach, loaded,
  tracked, flushed, ended,
}
use cosmosvote.Frontend.Analytics.Conservation.{kept, Reach-kept}

abbrev online : Settings
online = record { enabled = true; endpoint = some (js "https://example.org/events") }

abbrev viewed : AnalyticsEvent
viewed = record { name = js "proposal_viewed"; props = []; session_id = js "s1"; ts = 5 }

abbrev voted : AnalyticsEvent
voted = record { name = js "vote_cast"; props = []; session_id = js "s1"; ts = 9 }

abbrev one_tracked : State
one_tracked = track_event online viewed (load true [])

-- The first event is sent, and the request fails after the second is tracked.
abbrev sent_away : State
sent_away = flush online one_tracked

abbrev failed : State
failed = request_ends false [] (viewed ∷ []) [] (track_event online voted sent_away)

Reach-failed : Reach online true [] (voted ∷ viewed ∷ []) failed
unfolding track_event flush persist load request_ends js
Reach-failed =
    ended false [] (viewed ∷ []) []
      (tracked voted (flushed (tracked viewed (loaded refl) refl) refl) refl) refl refl

requeued_test : failed.queue ≡ viewed ∷ voted ∷ []
unfolding track_event flush persist load request_ends js
requeued_test = refl

Reach-kept_example : kept (λ e. e.ts == 5) failed ≡ 0 + 1
Reach-kept_example = Reach-kept (λ e. e.ts == 5) Reach-failed
