-- ===== src/Notification/Watcher/Events.antt =====
-- Which records `parseEvent` and `fetchNewEvents` of notification-service/src/watcher.ts turn into events.
use cosmosvote.Prelude.{
  ℕ, ◌⊎◌, or_else, ap, asked_for, last_of, ◌≤◌, ◌≡◌, refl, sym, ◌∙◌, subst, ◌↔◌, ◌≢◌, Option, none,
  some, true, List, [], ◌∷◌, ◌++◌, append_assoc, append-nil, arith, JsString, js, ◌===◌, ===_iff,
  ===_refl, length, cons_some, any, In, any_iff, choose, Result, ok, throws, ◌>>=◌,
}
use cosmosvote.Notification.Types.{JsNumber, Topic, EventRecord, GovernanceEvent}
use cosmosvote.Notification.Notifier.{Thrown}
use cosmosvote.Notification.Watcher.Fields.{IsLedger, IsFirst, first_value_iff, ledger_of_iff}
use cosmosvote.Notification.Watcher.{
  tracked_topics, topic_value, event_of, relevant_event, parse_topics, parse_event, Horizon,
  collect, fetch_new_events,
}

abbrev pub IsTracked : JsString → Type 0
IsTracked t =
    (t ≡ js "created") ⊎ (t ≡ js "voted") ⊎ (t ≡ js "final") ⊎ (t ≡ js "exec") ⊎ (t ≡ js "cancel")

-- A record of the governance contract with one of the five tracked subtypes, and its event.
abbrev pub IsEventOf : EventRecord → GovernanceEvent → Type 0
IsEventOf r event =
    (namespace : Topic) × (subtype : Topic) × (more : List Topic) × (r.topic
      ≡ some (namespace ∷ subtype ∷ more))
    × (namespace.value ≡ some (js "gov"))
    × (subtype.value ≡ some event.type)
    × IsTracked event.type
    × IsFirst r.value event.proposal_id
    × IsLedger r.ledger_closed_at r.id event.ledger
    × (event.raw ≡ r)

-- The same by the words of the source.
abbrev IsRead : EventRecord → GovernanceEvent → Type 0
IsRead r event =
    (topics : List Topic) × (r.topic ≡ some topics)
    × ((2 ≤ length topics)
        × (topic_value topics 0 ≡ js "gov")
        × In (topic_value topics 1) tracked_topics
        × (event ≡ event_of r topics))

tracked_iff : (t : JsString) (ts : List JsString) → (any (λ u. u === t) ts ≡ true) ↔ In t ts
tracked_iff t ts = (forth, λ m. (any_iff (λ u. u === t) ts).1 (t, m, ===_refl t))
  where
    forth : any (λ u. u === t) ts ≡ true → In t ts
    forth h =
        let (u, m, e) = (any_iff (λ u. u === t) ts).0 h in
        subst (λ v. In v ts) ((===_iff u t).0 e) m

relevant_event_iff :
    (r : EventRecord) (topics : List Topic) (event : GovernanceEvent)
    → (relevant_event r topics ≡ some event) ↔ (
        (topic_value topics 0 ≡ js "gov")
        × In (topic_value topics 1) tracked_topics
        × (event ≡ event_of r topics))
unfolding relevant_event
relevant_event_iff r topics event = ground (
  arith,
  ===_iff (topic_value topics 0) (js "gov"),
  tracked_iff (topic_value topics 1) tracked_topics,
)

-- What the two topics of a record must be, and what it then yields.
abbrev IsMade : EventRecord → List Topic → GovernanceEvent → Type 0
IsMade r topics event =
    (2 ≤ length topics)
    × (topic_value topics 0 ≡ js "gov")
    × In (topic_value topics 1) tracked_topics
    × (event ≡ event_of r topics)

parse_topics-none : (r : EventRecord) (event : GovernanceEvent) → parse_topics r none ≢ some event
unfolding parse_topics
parse_topics-none r event h = cc

parse_topics-some :
    (r : EventRecord) (topics : List Topic) (event : GovernanceEvent)
    → parse_topics r (some topics) ≡ some event
    → IsMade r topics event
unfolding parse_topics
parse_topics-some r topics event h = ground (arith, (relevant_event_iff r topics event).0)

parse_topics_made :
    (r : EventRecord) (topics : List Topic) (event : GovernanceEvent)
    → IsMade r topics event
    → parse_topics r (some topics) ≡ some event
unfolding parse_topics
parse_topics_made r topics event (long, ns, tracked, same) =
    ground (arith, (relevant_event_iff r topics event).1 (ns, tracked, same))

IsRead-iff :
    (r : EventRecord) (event : GovernanceEvent) → (parse_event r ≡ some event) ↔ IsRead r event
unfolding parse_event
IsRead-iff r event = (forth r.topic refl, back)
  where
    forth : (o : Option (List Topic)) → r.topic ≡ o → parse_topics r o ≡ some event → IsRead r event
    forth none e h = absurd (parse_topics-none r event h)
    forth (some topics) e h = (topics, e, parse_topics-some r topics event h)

    back : IsRead r event → parse_event r ≡ some event
    back (topics, e, made) =
        subst (λ o. parse_topics r o ≡ some event) (sym e) (parse_topics_made r topics event made)

In-IsTracked : (t : JsString) → In t tracked_topics ↔ IsTracked t
unfolding tracked_topics
In-IsTracked t = ground arith

value_some : (o : Option JsString) (c : ℕ) (s : JsString) → or_else o [] ≡ c ∷ s → o ≡ some (c ∷ s)
value_some none c s h = cc
value_some (some v) c s h = ap some h

tracked_value : (o : Option JsString) → In (or_else o []) tracked_topics → o ≡ some (or_else o [])
unfolding tracked_topics js
tracked_value none h = absurd (ground arith)
tracked_value (some v) h = refl

IsRead-IsEventOf :
    (r : EventRecord) (event : GovernanceEvent) (topics : List Topic)
    → r.topic ≡ some topics
    → IsMade r topics event
    → IsEventOf r event
unfolding topic_value event_of js
IsRead-IsEventOf r event [] e (long, g, i, m) = absurd (omega arith)
IsRead-IsEventOf r event (x ∷ []) e (long, g, i, m) = absurd (omega arith)
IsRead-IsEventOf r event (x ∷ y ∷ more) e (long, gov, tracked, same) = rw same (
  x,
  y,
  more,
  e,
  value_some x.value _ _ gov,
  tracked_value y.value tracked,
  (In-IsTracked _).0 tracked,
  (first_value_iff r.value _).0 refl,
  (ledger_of_iff r _).0 refl,
  refl,
)

fields :
    {t : JsString} {o : Option JsString} {n : JsNumber} {r : EventRecord} {event : GovernanceEvent}
    → event.type ≡ t
    → event.proposal_id ≡ o
    → event.ledger ≡ n
    → event.raw ≡ r
    → event ≡ record { type = t; proposal_id = o; ledger = n; raw = r }
fields a b c d = λ i. record { type = a i; proposal_id = b i; ledger = c i; raw = d i }

IsEventOf-IsRead : (r : EventRecord) (event : GovernanceEvent) → IsEventOf r event → IsRead r event
unfolding topic_value event_of
IsEventOf-IsRead r event (x, y, more, e, gov, type, tracked, first, ledger, raw) = (
  x ∷ y ∷ more,
  e,
  (
    omega arith,
    ap (λ o. or_else o []) gov,
    subst (λ o. In (or_else o []) tracked_topics) (sym type) ((In-IsTracked event.type).1 tracked),
    fields (sym (ap (λ o. or_else o []) type)) ((first_value_iff r.value event.proposal_id).1 first)
        ((ledger_of_iff r event.ledger).1 ledger) raw,
  ),
)

-- A record yields an event exactly when it has two topics or more, of which the first has the value gov and
-- the second is one of created, voted, final, exec and cancel. The event's type is the second, its
-- proposal the first element of the record's value, if any, its ledger the number before the first
-- dash of the record's identifier, or 0 without the time of the ledger's close, and it carries the record.
pub parse_event_iff :
    (r : EventRecord) (event : GovernanceEvent) → (parse_event r ≡ some event) ↔ IsEventOf r event
parse_event_iff r event = (
  λ h. let (topics, e, made) = (IsRead-iff r event).0 h in IsRead-IsEventOf r event topics e made,
  λ h. (IsRead-iff r event).1 (IsEventOf-IsRead r event h),
)

-- The identifier of the last record, or the cursor before the first.
abbrev pub last_id : JsString → List EventRecord → JsString
last_id = last_of (λ r. r.id)

++-cons_some :
    (o : Option GovernanceEvent) (xs : List GovernanceEvent) → cons_some o [] ++ xs ≡ cons_some o xs
++-cons_some none xs = refl
++-cons_some (some a) xs = refl

collect_lem :
    (rs : List EventRecord) (events : List GovernanceEvent) (cursor : JsString)
    → collect rs events cursor ≡ (events ++ choose parse_event rs, last_id cursor rs)
unfolding collect
collect_lem [] events cursor = rw (append-nil events)
collect_lem (r ∷ rs) events cursor =
    collect_lem rs (events ++ cons_some (parse_event r) []) r.id
    ∙ rw (append_assoc, ++-cons_some (parse_event r) (choose parse_event rs))

-- What becomes of the server's answer: the events of its records, in order and once each, and the last
-- record's identifier, or the old cursor where the page is empty.
abbrev pub page_of :
    JsString → Result Thrown (List EventRecord) → Result Thrown (List GovernanceEvent × JsString)
page_of cursor (throws e) = throws e
page_of cursor (ok rs) = ok (choose parse_event rs, last_id cursor rs)

-- The loop over a page collects the events of its records, in order and once each, with the last
-- record's identifier as the next cursor, or the old one where the page is empty. The cursor "now"
-- asks the server with no cursor at all, and an error of the server is passed on.
pub fetch_new_events-page_of :
    (horizon : Horizon) (cursor : JsString)
    → fetch_new_events horizon cursor ≡ page_of cursor (horizon (asked_for cursor))
unfolding fetch_new_events
fetch_new_events-page_of horizon cursor = through (horizon (asked_for cursor))
  where
    through :
        (r : Result Thrown (List EventRecord))
        → (r >>= λ rs. ok (collect rs [] cursor)) ≡ page_of cursor r
    through (throws e) = refl
    through (ok rs) = rw (collect_lem rs [] cursor)
