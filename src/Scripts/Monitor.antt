-- ===== src/Scripts/Monitor.antt =====
-- scripts/monitor.js: the thresholds, and what is logged for a batch of events.
pub mod Polling
pub mod Alerts
pub mod Counts
pub mod Silence
pub mod Turns
mod Examples
use cosmosvote.Prelude.{
  at_least, geb, to_bigint, ℤ, ℕ, ◌+◌, Option, none, some, Bool, false, ◌||◌, List, [], ◌∷◌, ◌++◌,
  JsString, js, ◌===◌, if◌then◌else◌, any,
}

-- `CONFIG`. A number that does not parse is NaN, none here.
pub record Thresholds : Type 0 where
  pub large_transfer_amount : ℤ
  pub rapid_vote_burst : Option ℤ
  pub admin_change_count : Option ℤ

-- What `value` of an event may hold. A field is none where it is undefined.
pub record Value : Type 0 where
  pub amount : Option JsString
  pub from_ : Option JsString
  pub to_ : Option JsString
  pub proposal_id : Option ℕ
  pub admin : Option JsString

pub record Event : Type 0 where
  pub event_type : JsString
  pub contract_id : JsString
  pub topics : List JsString
  pub value : Option Value

-- The lines that `info`, `alert` and `log` write, with their details.
pub data Entry : Type 0 where
  monitor_started : Entry
  admin_change_detected : (contract_id : JsString) (topics : List JsString) → Entry
  suspicious_admin_changes : (contract_id : JsString) (count : ℕ) (topics : List JsString) → Entry
  large_token_transfer :
      (contract_id : JsString) (from_ to_ : Option JsString) (amount threshold : ℤ) → Entry
  proposal_cancelled :
      (contract_id : JsString) (proposal_id : Option ℕ) (cancelled_by : Option JsString) → Entry
  contract_paused : (contract_id : JsString) (paused_by : Option JsString) → Entry
  token_minted : (contract_id : JsString) (to_ amount : Option JsString) → Entry
  rapid_vote_burst_found : (count : ℕ) (threshold : Option ℤ) → Entry
  events_fetched : ℕ → Entry
  poll_failed : JsString → Entry

-- What a piece of code has logged, and the message of the error by which it ended, if it did.
pub record Run : Type 0 where
  pub entries : List Entry
  pub thrown : Option JsString

abbrev pub logs : List Entry → Run
logs entries = record { entries = entries; thrown = none }

-- One piece of code after another.
abbrev pub after : Option JsString → List Entry → Run → Run
after (some e) entries next = record { entries = entries; thrown = some e }
after none entries next = record next { entries = entries ++ next.entries }

infixr 4 ◌then◌
abbrev pub ◌then◌ : Run → Run → Run
a then b = after a.thrown a.entries b

-- `n >= threshold`, which is false for NaN.
abbrev pub reaches : ℕ → Option ℤ → Bool
reaches n none = false
reaches n (some k) = at_least n k

abbrev pub includes : List JsString → JsString → Bool
includes topics t = any (λ s. s === t) topics

unfoldable pub is_admin_change : Event → Bool
is_admin_change ev = includes ev.topics (js "set_admin") || includes ev.topics (js "update_config")

unfoldable pub is_vote : Event → Bool
is_vote ev = includes ev.topics (js "vote_cast")

-- `value?.field`
abbrev pub field {ℓ} : {A : Type ℓ} → (Value → Option A) → Option Value → Option A
field get none = none
field get (some v) = get v

-- The admin changes so far count this one.
unfoldable pub admin_run : Thresholds → ℕ → Event → Run
unfolding is_admin_change
admin_run thresholds changes ev =
    if is_admin_change ev
    then logs (
        admin_change_detected ev.contract_id ev.topics
        ∷ (if reaches changes thresholds.admin_change_count
            then suspicious_admin_changes ev.contract_id changes ev.topics ∷ []
            else []))
    else logs []

unfoldable pub amount_run : Thresholds → Event → Option ℤ → Run
amount_run thresholds ev none = record { entries = []; thrown = some (js "SyntaxError") }
amount_run thresholds ev (some amount) =
    if geb amount thresholds.large_transfer_amount
    then logs (
        large_token_transfer ev.contract_id (field (λ v. v.from_) ev.value)
          (field (λ v. v.to_) ev.value) amount thresholds.large_transfer_amount
        ∷ [])
    else logs []

unfoldable pub transfer_run : Thresholds → Event → Option JsString → Run
unfolding amount_run
transfer_run thresholds ev none = logs []
transfer_run thresholds ev (some amount) =
    if includes ev.topics (js "transfer")
    then amount_run thresholds ev (to_bigint amount)
    else logs []

-- A line that is logged if the topics include a word.
abbrev pub on_topic : Event → JsString → Entry → List Entry
on_topic ev topic entry = if includes ev.topics topic then entry ∷ [] else []

unfoldable pub notices : Event → List Entry
notices ev =
    on_topic ev (js "proposal_cancelled") (
      proposal_cancelled ev.contract_id (field (λ v. v.proposal_id) ev.value)
        (field (λ v. v.admin) ev.value))
    ++ on_topic ev (js "contract_paused")
        (contract_paused ev.contract_id (field (λ v. v.admin) ev.value))
    ++ on_topic ev (js "mint")
        (token_minted ev.contract_id (field (λ v. v.to_) ev.value) (field (λ v. v.amount) ev.value))

-- The body of the loop.
unfoldable pub event_run : Thresholds → ℕ → Event → Run
unfolding admin_run transfer_run notices
event_run thresholds changes ev =
    admin_run thresholds changes ev
    then transfer_run thresholds ev (field (λ v. v.amount) ev.value)
    then logs (notices ev)

abbrev pub count_if : Bool → ℕ → ℕ
count_if b n = if b then n + 1 else n

-- The loop with its two counters, and the test behind it.
unfoldable pub detect_from : Thresholds → ℕ → ℕ → List Event → Run
unfolding event_run is_admin_change is_vote
detect_from thresholds changes votes [] =
    if reaches votes thresholds.rapid_vote_burst
    then logs (rapid_vote_burst_found votes thresholds.rapid_vote_burst ∷ [])
    else logs []
detect_from thresholds changes votes (ev ∷ events) =
    let changes = count_if (is_admin_change ev) changes in
    event_run thresholds changes ev
    then detect_from thresholds changes (count_if (is_vote ev) votes) events

unfoldable pub detect_anomalies : Thresholds → List Event → Run
unfolding detect_from
detect_anomalies thresholds events = detect_from thresholds 0 0 events
