-- ===== src/Scripts/Monitor/Alerts.antt =====
-- The alerts of scripts/monitor.js: their kinds, and those of a single event.
use cosmosvote.Prelude.{
  geb, to_bigint, ℤ, ℕ, ◌+◌, ◌≡◌, refl, ap, ◌∙◌, Option, none, some, Bool, true, false, ◌&&◌, List,
  ◌++◌, arith, JsString, js, if◌then◌else◌, length, select, length-append, select-append,
}
use cosmosvote.Scripts.Monitor.{
  Thresholds, Event, Entry, suspicious_admin_changes, large_token_transfer, proposal_cancelled,
  contract_paused, token_minted, rapid_vote_burst_found, Run, logs, ◌then◌, reaches, includes,
  is_admin_change, field, admin_run, amount_run, transfer_run, notices, event_run,
}

-- The alerts by their kind.
pub data Kind : Type 0 where
  changes large cancelled paused minted burst : Kind

unfoldable pub is_kind : Kind → Entry → Bool
is_kind Kind.changes (suspicious_admin_changes _ _ _) = true
is_kind Kind.large (large_token_transfer _ _ _ _ _) = true
is_kind Kind.cancelled (proposal_cancelled _ _ _) = true
is_kind Kind.paused (contract_paused _ _) = true
is_kind Kind.minted (token_minted _ _ _) = true
is_kind Kind.burst (rapid_vote_burst_found _ _) = true
is_kind _ _ = false

abbrev pub count {ℓ} : {A : Type ℓ} → (A → Bool) → List A → ℕ
count p xs = length (select p xs)

pub count-append :
    {A : Type 0} (p : A → Bool) (xs ys : List A) → count p (xs ++ ys) ≡ count p xs + count p ys
count-append p xs ys = rw (select-append p xs ys) (length-append (select p xs) (select p ys))

-- Code that did not throw has logged what its parts logged.
pub then-parts :
    (a b : Run)
    → (a then b).thrown ≡ none
    → (a.thrown ≡ none) × (b.thrown ≡ none) × ((a then b).entries ≡ a.entries ++ b.entries)
then-parts a b h = from a.thrown refl
  where
    from :
        (t : Option JsString)
        → a.thrown ≡ t
        → (a.thrown ≡ none) × (b.thrown ≡ none) × ((a then b).entries ≡ a.entries ++ b.entries)
    from t e = ground arith

-- A transfer of at least the threshold.
abbrev parsed_large : Thresholds → Option ℤ → Bool
parsed_large th none = false
parsed_large th (some a) = geb a th.large_transfer_amount

abbrev amount_large : Thresholds → Option JsString → Bool
amount_large th none = false
amount_large th (some s) = parsed_large th (to_bigint s)

unfoldable pub is_large : Thresholds → Event → Bool
is_large th ev =
    includes ev.topics (js "transfer") && amount_large th (field (λ v. v.amount) ev.value)

-- The events that an alert of a kind is about; those on admin changes and on votes are about the batch.
unfoldable pub is_about : Thresholds → Kind → Event → Bool
unfolding is_large
is_about th Kind.changes ev = false
is_about th Kind.large ev = is_large th ev
is_about th Kind.cancelled ev = includes ev.topics (js "proposal_cancelled")
is_about th Kind.paused ev = includes ev.topics (js "contract_paused")
is_about th Kind.minted ev = includes ev.topics (js "mint")
is_about th Kind.burst ev = false

abbrev pub bit : Bool → ℕ
bit b = if b then 1 else 0

-- Which alerts the three parts of the body log, if their tests succeed.
abbrev pub change_share : Kind → Bool → ℕ
change_share Kind.changes b = bit b
change_share _ b = 0

abbrev large_share : Kind → Bool → ℕ
large_share Kind.large b = bit b
large_share _ b = 0

abbrev notice_share : Kind → Bool → ℕ
notice_share Kind.cancelled b = bit b
notice_share Kind.paused b = bit b
notice_share Kind.minted b = bit b
notice_share _ b = 0

module _ (th : Thresholds) where
  count-transfer :
      (k : Kind) (ev : Event) (o : Option JsString)
      → (transfer_run th ev o).thrown ≡ none
      → count (is_kind k) (transfer_run th ev o).entries
        ≡ large_share k (includes ev.topics (js "transfer") && amount_large th o)
  unfolding transfer_run amount_run is_kind
  count-transfer k ev none h = ground arith
  count-transfer k ev (some s) h = ground arith

  count-admin :
      (k : Kind) (c : ℕ) (ev : Event)
      → count (is_kind k) (admin_run th c ev).entries
        ≡ change_share k (is_admin_change ev && reaches c th.admin_change_count)
  unfolding admin_run is_kind
  count-admin k c ev = ground arith

  count-notices :
      (k : Kind) (ev : Event) → count (is_kind k) (notices ev) ≡ notice_share k (is_about th k ev)
  unfolding notices is_kind is_about
  count-notices k ev = ground arith

  quiet-admin : (c : ℕ) (ev : Event) → (admin_run th c ev).thrown ≡ none
  unfolding admin_run
  quiet-admin c ev = ground arith

  -- The alerts of one event, apart from those on admin changes.
  pub count-event :
      (k : Kind) (c : ℕ) (ev : Event)
      → (event_run th c ev).thrown ≡ none
      → count (is_kind k) (event_run th c ev).entries
        ≡ bit (is_about th k ev)
          + change_share k (is_admin_change ev && reaches c th.admin_change_count)
  unfolding event_run is_about is_large
  count-event k c ev h =
      let a = admin_run th c ev in
      let t = transfer_run th ev (field (λ v. v.amount) ev.value) in
      let n = logs (notices ev) in
      let (_, quiet, outer) = then-parts a (t then n) h in
      let (calm, _, inner) = then-parts t n quiet in
      ap (count (is_kind k)) outer
      ∙ count-append (is_kind k) a.entries (t then n).entries
      ∙ omega (
        arith,
        ap (count (is_kind k)) inner,
        count-append (is_kind k) t.entries (notices ev),
        count-admin k c ev,
        count-transfer k ev (field (λ v. v.amount) ev.value) calm,
        count-notices k ev,
        shares k,
      )
    where
      shares :
          (k : Kind)
          → large_share k (is_about th Kind.large ev) + notice_share k (is_about th k ev)
            ≡ bit (is_about th k ev)
      shares k = ground arith
