-- ===== src/Scripts/AdminMonitor/Watched.antt =====
-- Which events of frontend/src/events.ts scripts/admin_monitor.js alerts to.
use cosmosvote.Prelude.{
  ◌≡◌, none, some, Bool, true, false, List, [], ◌∷◌, map, arith, JsString, js, ◌===◌, if◌then◌else◌,
}
use cosmosvote.Frontend.Events.{
  CosmosVoteEvent, governance, token, topics, governance_topic, token_topic, gov_proposal_executed,
  gov_proposal_cancelled, gov_paused, gov_quorum_updated,
}
use cosmosvote.Scripts.AdminMonitor.{
  Alert, Record, object, unwrapped, values_of, alert_from, topics_alert, alert_of,
}

-- An event as Horizon gives it: two topics with their values.
unfoldable pub record_of : CosmosVoteEvent → (id ledger_closed_at : JsString) → Record
record_of e id ledger = record {
  id = id;
  topic = some (object (some (topics e).0) ∷ object (some (topics e).1) ∷ []);
  ledger_closed_at = ledger;
}

abbrev pub is_watched : CosmosVoteEvent → Bool
is_watched (governance (gov_proposal_executed _ _)) = true
is_watched (governance (gov_proposal_cancelled _ _)) = true
is_watched (governance (gov_paused _)) = true
is_watched (governance (gov_quorum_updated _ _ _)) = true
is_watched _ = false

-- Of the contracts' events the monitor alerts to executions, cancellations, pauses and new quorums, and to
-- nothing else: not to the end of a pause, and to no change of the admin.
pub alert_of-record_of :
    (e : CosmosVoteEvent) (id ledger : JsString)
    → alert_of (record_of e id ledger) ≡ (
        if is_watched e
        then some (record { subtype = (topics e).1; event_id = id; ledger = ledger })
        else none)
unfolding alert_of topics_alert alert_from values_of unwrapped record_of topics governance_topic
    token_topic js ◌===◌
alert_of-record_of (governance e) id ledger = ground arith
alert_of-record_of (token e) id ledger = ground arith

-- An event of the contracts with the identifier of its record and the time of its ledger.
pub record Published : Type 0 where
  pub event : CosmosVoteEvent
  pub id : JsString
  pub ledger : JsString

abbrev pub records_of : List Published → List Record
records_of = map (λ x. record_of x.event x.id x.ledger)

-- The alert that tells of an event.
abbrev pub IsAlertTo : Published → Alert → Type 0
IsAlertTo x a =
    (is_watched x.event ≡ true)
    × (a ≡ record { subtype = (topics x.event).1; event_id = x.id; ledger = x.ledger })
