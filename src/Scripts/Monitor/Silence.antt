-- ===== src/Scripts/Monitor/Silence.antt =====
-- What scripts/monitor.js makes of the events that the contracts publish by frontend/src/events.ts.
use cosmosvote.Prelude.{
  pos, ℕ, suc, ◌≡◌, refl, sym, ap, ◌∙◌, Option, none, some, Bool, true, false, ◌||◌, List, [], ◌∷◌,
  map, arith, JsString, js, ◌===◌, if◌then◌else◌, cons_some, choose,
}
use cosmosvote.Frontend.Events.{
  CosmosVoteEvent, governance, token, topics, governance_topic, token_topic,
}
use cosmosvote.Frontend.Events as Events
use cosmosvote.Scripts.Monitor.{
  Thresholds, Value, Event, Entry, token_minted, logs, ◌then◌, reaches, includes, is_admin_change,
  is_vote, field, admin_run, transfer_run, notices, event_run, detect_from, detect_anomalies,
}

-- An event of the contracts, with its contract and with its data as the monitor reads them.
pub record Published : Type 0 where
  pub event : CosmosVoteEvent
  pub contract_id : JsString
  pub value : Option Value

unfoldable pub seen : Published → Event
seen p = record {
  event_type = js "contract";
  contract_id = p.contract_id;
  topics = (topics p.event).0 ∷ (topics p.event).1 ∷ [];
  value = p.value;
}

is_minting : CosmosVoteEvent → Bool
is_minting (token (Events.token_minted _ _ _)) = true
is_minting _ = false

unfoldable pub minting_line : Published → Option Entry
unfolding is_minting
minting_line p =
    if is_minting p.event
    then some
        (token_minted p.contract_id (field (λ v. v.to_) p.value) (field (λ v. v.amount) p.value))
    else none

-- Whether one of the two topics is a word that the monitor looks for, minting left out.
abbrev is_watched : JsString → Bool
is_watched s =
    (s === js "set_admin")
    || (s === js "update_config")
    || (s === js "transfer")
    || (s === js "vote_cast")
    || (s === js "proposal_cancelled")
    || (s === js "contract_paused")

unwatched :
    (e : CosmosVoteEvent)
    → ((is_watched (topics e).0 || is_watched (topics e).1) ≡ false)
      × (((topics e).1 === js "mint") ≡ is_minting e)
      × (((topics e).0 === js "mint") ≡ false)
unfolding topics governance_topic token_topic is_minting js ◌===◌
unwatched (governance e) = (ground arith, ground arith, refl)
unwatched (token e) = (ground arith, ground arith, refl)

-- None of the tests but the one for minting succeeds.
seen-quiet :
    (p : Published)
    → (is_admin_change (seen p) ≡ false)
      × (is_vote (seen p) ≡ false)
      × (includes (seen p).topics (js "transfer") ≡ false)
      × (includes (seen p).topics (js "proposal_cancelled") ≡ false)
      × (includes (seen p).topics (js "contract_paused") ≡ false)
      × (includes (seen p).topics (js "mint") ≡ is_minting p.event)
unfolding is_admin_change is_vote seen
seen-quiet p = ground (arith, unwatched p.event)

notices-minting :
    (ev : Event) (b : Bool)
    → includes ev.topics (js "proposal_cancelled") ≡ false
    → includes ev.topics (js "contract_paused") ≡ false
    → includes ev.topics (js "mint") ≡ b
    → notices ev ≡ (
        if b
        then token_minted ev.contract_id
            (field (λ v. v.to_) ev.value)
            (field (λ v. v.amount) ev.value)
          ∷ []
        else [])
unfolding notices
notices-minting ev b x y z = rw (x, y, z) refl

module _ (th : Thresholds) where
  admin-quiet : (c : ℕ) (ev : Event) → is_admin_change ev ≡ false → admin_run th c ev ≡ logs []
  unfolding admin_run
  admin-quiet c ev h = rw h refl

  transfer-quiet :
      (ev : Event) (o : Option JsString)
      → includes ev.topics (js "transfer") ≡ false
      → transfer_run th ev o ≡ logs []
  unfolding transfer_run
  transfer-quiet ev none h = refl
  transfer-quiet ev (some s) h = rw h refl

  minting_lines :
      (p : Published) (b : Bool)
      → is_minting p.event ≡ b
      → logs (cons_some (minting_line p) [])
        ≡ logs (
            if b
            then token_minted
                (seen p).contract_id
                (field (λ v. v.to_) (seen p).value)
                (field (λ v. v.amount) (seen p).value)
              ∷ []
            else [])
  unfolding minting_line seen
  minting_lines p true e = rw e refl
  minting_lines p false e = rw e refl

  run-seen :
      (c : ℕ) (p : Published) → event_run th c (seen p) ≡ logs (cons_some (minting_line p) [])
  unfolding event_run
  run-seen c p =
      let (a, v, t, x, y, z) = seen-quiet p in
      rw
        (
          admin-quiet c (seen p) a,
          transfer-quiet (seen p) (field (λ v. v.amount) (seen p).value) t,
          notices-minting (seen p) (is_minting p.event) x y z,
        )
        (sym (minting_lines p (is_minting p.event) refl))

  next_event :
      (c v : ℕ) (ev : Event) (evs : List Event)
      → is_admin_change ev ≡ false
      → is_vote ev ≡ false
      → detect_from th c v (ev ∷ evs) ≡ (event_run th c ev then detect_from th c v evs)
  unfolding detect_from
  next_event c v ev evs a b = rw (a, b) refl

  joined :
      (o : Option Entry) (es : List Entry)
      → (logs (cons_some o []) then logs es) ≡ logs (cons_some o es)
  joined none es = refl
  joined (some e) es = refl

  no_burst : (c v : ℕ) → reaches v th.rapid_vote_burst ≡ false → detect_from th c v [] ≡ logs []
  unfolding detect_from
  no_burst c v h = rw h refl

  from-seen :
      (c v : ℕ) (ps : List Published)
      → reaches v th.rapid_vote_burst ≡ false
      → detect_from th c v (map seen ps) ≡ logs (choose minting_line ps)
  from-seen c v [] h = no_burst c v h
  from-seen c v (p ∷ ps) h =
      let (a, w, _, _, _, _) = seen-quiet p in
      next_event c v (seen p) (map seen ps) a w
      ∙ ap (λ r. r then detect_from th c v (map seen ps)) (run-seen c p)
      ∙ ap (λ r. logs (cons_some (minting_line p) []) then r) (from-seen c v ps h)
      ∙ joined (minting_line p) (choose minting_line ps)

  -- Of the events that frontend/src/events.ts lists, the monitor logs the mintings and nothing else: no
  -- change of the admin, no transfer, no vote, no cancellation and no pause is ever alerted to, if the
  -- threshold on votes is a positive number.
  pub detect_anomalies-seen :
      (m : ℕ) (published : List Published)
      → th.rapid_vote_burst ≡ some (pos (suc m))
      → detect_anomalies th (map seen published) ≡ logs (choose minting_line published)
  unfolding detect_anomalies
  detect_anomalies-seen m published e = from-seen 0 0 published (rw e (ground arith))
