-- ===== src/Notification/Watcher/Catchup.antt =====
-- Polls in a row of notification-service/src/watcher.ts against a log of records. The server is one that
-- answers a paging token by the next 50 records of the log, and no token by the first 50.
use cosmosvote.Prelude.{
  asked_for, last_of-append, serve, served, take-add, ℕ, zero, suc, ◌+◌, ◌*◌, ◌≡◌, refl, sym, ◌∙◌,
  ◌≢◌, true, List, [], ◌∷◌, ◌++◌, map, append_assoc, arith, js, replicate, take, drop,
  take-append-drop, All, HasDistinct, choose, choose-append, ok,
}
use cosmosvote.Notification.Types.{EventRecord, GovernanceEvent}
use cosmosvote.Notification.Subscriptions.{Disk, get_store, list_subscribers, matching_subscribers}
use cosmosvote.Notification.Channels.{Env}
use cosmosvote.Notification.Notifier.{Transport}
use cosmosvote.Notification.Watcher.{parse_event, notify_one, process_events, polls}
use cosmosvote.Notification.Subscriptions.Cursor.{matching_subscribers-congr}
use cosmosvote.Notification.Watcher.Events.{last_id}
use cosmosvote.Notification.Watcher.Polls.{poll_advances}

-- The next k pages each hold a relevant record.
abbrev pub HasRelevantPages : ℕ → List EventRecord → Type 0
HasRelevantPages zero rest = Unit
HasRelevantPages (suc k) rest =
    (choose parse_event (take 50 rest) ≢ []) × HasRelevantPages k (drop 50 rest)

page_more : (k : ℕ) → suc k * 50 ≡ 50 + k * 50
page_more k = omega arith

module _ (transport : Transport) (env : Env) where
  process_events-append :
      (xs ys : List GovernanceEvent) (d : Disk)
      → process_events transport env (xs ++ ys) d
        ≡ process_events transport env xs d ++ process_events transport env ys d
  unfolding process_events
  process_events-append [] ys d = refl
  process_events-append (x ∷ xs) ys d = rw (process_events-append xs ys d) (
      sym (
        append_assoc
          (map (notify_one transport env x) (matching_subscribers x.type x.proposal_id d))
          (process_events transport env xs d) (process_events transport env ys d)))

  process_events-congr :
      (events : List GovernanceEvent) (d d' : Disk)
      → list_subscribers d' ≡ list_subscribers d
      → process_events transport env events d' ≡ process_events transport env events d
  unfolding process_events
  process_events-congr [] d d' e = refl
  process_events-congr (x ∷ xs) d d' e =
      rw (matching_subscribers-congr x.type x.proposal_id d d' e, process_events-congr xs d d' e)

  split_pages :
      (d d' : Disk) (page more : List EventRecord)
      → list_subscribers d' ≡ list_subscribers d
      → process_events transport env (choose parse_event page) d
          ++ process_events transport env (choose parse_event more) d'
        ≡ process_events transport env (choose parse_event (page ++ more)) d
  split_pages d d' page more same = rw (
    process_events-congr (choose parse_event more) d d' same,
    choose-append parse_event page more,
    process_events-append (choose parse_event page) (choose parse_event more) d,
  )

  module _ (log : List EventRecord) (distinct : HasDistinct (λ r. r.id) log)
      (named : All (λ r. r.id ≢ js "now") log) where
    polls_from :
        (k : ℕ) (d : Disk) (seen rest : List EventRecord)
        → log ≡ seen ++ rest
        → (get_store d).cursor ≡ last_id (js "now") seen
        → d.writable ≡ true
        → HasRelevantPages k rest
        → (polls transport env (replicate k (serve (λ r. r.id) log)) d).1
          ≡ process_events transport env (choose parse_event (take (k * 50) rest)) d
    unfolding polls process_events
    polls_from zero d seen rest e c w h = refl
    polls_from (suc k) d seen rest e c w (relevant, h) =
        let page : List EventRecord = take 50 rest in
        let answer : serve (λ r. r.id) log (asked_for (get_store d).cursor) ≡ ok page =
          rw c (served (λ r. r.id) log distinct named seen rest e) in
        let (d', (saved, same, cursor, w'), p) =
          poll_advances transport env (serve (λ r. r.id) log) d page answer relevant w in
        let behind : log ≡ (seen ++ page) ++ drop 50 rest =
          e ∙ rw (append_assoc, take-append-drop 50 rest) in
        let moved : (get_store d').cursor ≡ last_id (js "now") (seen ++ page) =
          cursor ∙ rw (c, last_of-append (λ r. r.id) (js "now") seen page) in
        let later = polls_from k d' (seen ++ page) (drop 50 rest) behind moved w' h in
        rw (p, page_more k, take-add 50 (k * 50) rest, later)
          (split_pages d d' page (take (k * 50) (drop 50 rest)) same)

    -- From the stored cursor "now", k polls of a server that pages through a log process exactly
    -- the relevant records of its first 50 k records, each once and in order, if record
    -- identifiers are distinct and not "now", the disk can be written and each of these pages
    -- holds a relevant record.
    pub polls_catch_up :
        (k : ℕ) (d : Disk)
        → (get_store d).cursor ≡ js "now"
        → d.writable ≡ true
        → HasRelevantPages k log
        → (polls transport env (replicate k (serve (λ r. r.id) log)) d).1
          ≡ process_events transport env (choose parse_event (take (k * 50) log)) d
    polls_catch_up k d c w h = polls_from k d [] log refl c w h
