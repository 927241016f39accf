-- ===== src/Scripts/Monitor/Turns.antt =====
-- The runs of the loop in scripts/monitor.js: what failed polls and refused cursors leave behind.
use cosmosvote.Prelude.{
  ◌≡◌, refl, ap, inl, inr, Option, none, some, Bool, true, false, List, [], ◌∷◌, arith, JsString,
  truthy, is_set, if◌then◌else◌, Bool-cases, length, select, All, Result, ok, throws,
}
use cosmosvote.Scripts.Monitor.{Entry, poll_failed}
use cosmosvote.Scripts.Monitor.Polling.{
  Config, answered, Request, Server, request_of, fetched_of, fetch_events, Fetched, Cursors, both,
  batch_run, poll_end, poll, polls,
}

-- Whether a turn's entry is the report of a failed poll.
abbrev pub is_failure : Entry → Bool
is_failure (poll_failed e) = true
is_failure _ = false

-- The server answers by an error every request of that contract.
abbrev pub Refuses : JsString → Server → Type 0
Refuses contract_id server =
    (r : Request) → r.contract_ids ≡ contract_id ∷ [] → (e : JsString) × (server r ≡ throws e)

module _ (config : Config) where
  refused_throws :
      (server : Server) (id : JsString) (cursor : Option JsString)
      → truthy id ≡ true
      → Refuses id server
      → (e : JsString) × (fetch_events config server id cursor ≡ throws e)
  unfolding fetch_events request_of
  refused_throws server id cursor t h =
      let (e, p) = h (request_of config id cursor) refl in (e, rw (t, p) refl)

  abbrev IsRefused : Cursors → Result JsString (Fetched × Fetched) → Type 0
  IsRefused cursors answer =
      (e : JsString) × (poll_end config cursors answer ≡ (cursors, poll_failed e ∷ []))

  left_thrown :
      (first : Bool) (cursors : Cursors) (a b : Result JsString Fetched) (e : JsString)
      → a ≡ throws e
      → IsRefused cursors (both first a b)
  unfolding poll_end
  left_thrown first cursors a (ok x) e h = rw h (e, refl)
  left_thrown first cursors a (throws f) e h = rw h ((if first then e else f), refl)

  -- While the server refuses the requests for the governance contract, the cursors of both contracts stay
  -- and each turn of the loop logs one failure and nothing else.
  pub polls_refused :
      (turns : List (Server × Bool)) (cursors : Cursors)
      → truthy config.governance_contract_id ≡ true
      → All (λ turn. Refuses config.governance_contract_id turn.0) turns
      → ((polls config turns cursors).0 ≡ cursors)
        × (length (polls config turns cursors).1 ≡ length turns)
        × (select is_failure (polls config turns cursors).1 ≡ (polls config turns cursors).1)
  unfolding polls poll
  polls_refused [] cursors t h = (refl, refl, refl)
  polls_refused ((server, first) ∷ turns) cursors t (h, hs) =
      let (e, p) = refused_throws server config.governance_contract_id cursors.gov_cursor t h in
      let (f, q) =
        left_thrown first cursors
          (fetch_events config server config.governance_contract_id cursors.gov_cursor)
          (fetch_events config server config.token_contract_id cursors.token_cursor) e p in
      let (a, b, c) = polls_refused turns cursors t hs in
      rw q (a, omega (arith, b), ap (λ es. poll_failed f ∷ es) c)

  -- The server answers a request that has a start by a body without a result.
  abbrev pub HasNoResult : Server → Type 0
  HasNoResult server =
      (r : Request) (start : JsString)
      → r.start_ledger ≡ some start
      → server r ≡ ok (answered (record { events = none; cursor = none }))

  -- A contract that is asked for has a cursor.
  abbrev pub HasStart : JsString → Option JsString → Type 0
  HasStart id cursor = truthy id ≡ true → is_set cursor ≡ true

  kept :
      (server : Server) (id : JsString) (cursor : Option JsString)
      → HasNoResult server
      → HasStart id cursor
      → fetch_events config server id cursor ≡ ok (record { events = []; cursor = cursor })
  unfolding fetch_events request_of fetched_of
  kept server id none h s = elim (Bool-cases (truthy id)) [
    | inl t ↦ absurd (cc (s t))
    | inr t ↦ rw t refl
  ]
  kept server id (some []) h s = elim (Bool-cases (truthy id)) [
    | inl t ↦ absurd (cc (s t))
    | inr t ↦ rw t refl
  ]
  kept server id (some (c ∷ start)) h s = elim (Bool-cases (truthy id)) [
    | inl t ↦ rw (t, h (request_of config id (some (c ∷ start))) (c ∷ start) refl) refl
    | inr t ↦ rw t refl
  ]

  -- Once the cursors are set, and while the server has no result for a request that starts at one, the
  -- loop logs nothing and the cursors stay, however many turns it makes.
  pub polls_blind :
      (turns : List (Server × Bool)) (cursors : Cursors)
      → HasStart config.governance_contract_id cursors.gov_cursor
      → HasStart config.token_contract_id cursors.token_cursor
      → All (λ turn. HasNoResult turn.0) turns
      → polls config turns cursors ≡ (cursors, [])
  unfolding polls poll poll_end batch_run
  polls_blind [] cursors g t h = refl
  polls_blind ((server, first) ∷ turns) cursors g t (h, hs) =
      rw
        (
          kept server config.governance_contract_id cursors.gov_cursor h g,
          kept server config.token_contract_id cursors.token_cursor h t,
          polls_blind turns cursors g t hs,
        )
        refl
