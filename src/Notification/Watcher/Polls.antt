-- ===== src/Notification/Watcher/Polls.antt =====
-- One poll of notification-service/src/watcher.ts, on every branch.
use cosmosvote.Prelude.{
  asked_for, ℕ, zero, suc, ◌≡◌, refl, ◌∙◌, ◌≢◌, ◌⊎◌, inl, inr, none, some, Bool, true, false, List,
  [], ◌∷◌, JsString, replicate, choose, Result, ok, throws,
}
use cosmosvote.Notification.Types.{EventRecord, GovernanceEvent}
use cosmosvote.Notification.Subscriptions.{Disk, get_store}
use cosmosvote.Notification.Channels.{Env}
use cosmosvote.Notification.Notifier.{Thrown, Transport}
use cosmosvote.Notification.Watcher.{
  parse_event, Horizon, process_events, fetch_failed, store_failed, deliver, poll, poll_found,
  polls,
}
use cosmosvote.Notification.Subscriptions.{write_failed}
use cosmosvote.Notification.Subscriptions.Cursor.{Saved, save_cursor-Saved, save_cursor_refused}
use cosmosvote.Notification.Watcher.Events.{last_id, fetch_new_events-page_of}

module _ (transport : Transport) (env : Env) where
  deliver-Saved :
      (events : List GovernanceEvent) (cursor : JsString) (d : Disk)
      → events ≢ []
      → d.writable ≡ true
      → (d' : Disk) × Saved cursor d d'
        × (deliver transport env events cursor d
            ≡ record { disk = d'; notified = process_events transport env events d; error = none })
  unfolding deliver
  deliver-Saved [] cursor d some_event w = absurd (some_event refl)
  deliver-Saved (event ∷ events) cursor d some_event w =
      let (d', saved) = save_cursor-Saved cursor d w in (d', saved, rw (saved.0, deliver))

  deliver_refused :
      (events : List GovernanceEvent) (cursor : JsString) (d : Disk)
      → events ≢ []
      → d.writable ≡ false
      → deliver transport env events cursor d ≡ record {
        disk = d;
        notified = process_events transport env events d;
        error = some (store_failed write_failed);
      }
  unfolding deliver
  deliver_refused [] cursor d some_event w = absurd (some_event refl)
  deliver_refused (event ∷ events) cursor d some_event w =
      rw (save_cursor_refused cursor d w, deliver)

  deliver_nothing :
      (cursor : JsString) (d : Disk)
      → deliver transport env [] cursor d ≡ record { disk = d; notified = []; error = none }
  unfolding deliver
  deliver_nothing cursor d = refl

  module _ (horizon : Horizon) (d : Disk) where
    abbrev pub Answers : Result Thrown (List EventRecord) → Type 0
    Answers answer = horizon (asked_for (get_store d).cursor) ≡ answer

    pub poll_page :
        (rs : List EventRecord)
        → Answers (ok rs)
        → poll transport env horizon d
          ≡ deliver transport env (choose parse_event rs) (last_id (get_store d).cursor rs) d
    unfolding poll poll_found
    poll_page rs h = rw (fetch_new_events-page_of horizon (get_store d).cursor, h)

    poll_error :
        (e : Thrown)
        → Answers (throws e)
        → poll transport env horizon d
          ≡ record { disk = d; notified = []; error = some (fetch_failed e) }
    unfolding poll poll_found
    poll_error e h = rw (fetch_new_events-page_of horizon (get_store d).cursor, h)

    poll_idle :
        (rs : List EventRecord)
        → Answers (ok rs)
        → choose parse_event rs ≡ []
        → poll transport env horizon d ≡ record { disk = d; notified = []; error = none }
    poll_idle rs h e = poll_page rs h ∙ rw e (deliver_nothing _ d)

    -- The disk and the notifications after a page with a relevant record.
    abbrev pub Advanced : List EventRecord → Type 0
    Advanced rs =
        (d' : Disk) × Saved (last_id (get_store d).cursor rs) d d'
        × (poll transport env horizon d ≡ record {
          disk = d';
          notified = process_events transport env (choose parse_event rs) d;
          error = none;
        })

    pub poll_advances :
        (rs : List EventRecord)
        → Answers (ok rs)
        → choose parse_event rs ≢ []
        → d.writable ≡ true
        → Advanced rs
    poll_advances rs h e w =
        let (d', saved, p) = deliver-Saved (choose parse_event rs) _ d e w in
        (d', saved, poll_page rs h ∙ p)

    -- The four ways in which a poll ends.
    abbrev pub PollOutcome : Type 0
    PollOutcome =
        ((e : Thrown) × Answers (throws e)
          × (poll transport env horizon d
              ≡ record { disk = d; notified = []; error = some (fetch_failed e) }))
        ⊎ (((rs : List EventRecord) × Answers (ok rs)
              × (choose parse_event rs ≡ [])
              × (poll transport env horizon d ≡ record { disk = d; notified = []; error = none }))
            ⊎ (((rs : List EventRecord) × Answers (ok rs)
                  × (choose parse_event rs ≢ [])
                  × (d.writable ≡ true)
                  × Advanced rs)
                ⊎ ((rs : List EventRecord) × Answers (ok rs)
                    × (choose parse_event rs ≢ [])
                    × (d.writable ≡ false)
                    × (poll transport env horizon d ≡ record {
                      disk = d;
                      notified = process_events transport env (choose parse_event rs) d;
                      error = some (store_failed write_failed);
                    }))))

    -- A poll ends in one of four ways: an error of the server or a page with no relevant record
    -- changes nothing and notifies nobody; a page with a relevant record is processed and then
    -- moves the cursor to its last record, keeping the subscribers; or that write fails and the
    -- disk stays as it was although the events were processed.
    pub poll_outcome : PollOutcome
    poll_outcome = answered (horizon (asked_for (get_store d).cursor)) refl
      where
        saves :
            (rs : List EventRecord)
            → Answers (ok rs)
            → choose parse_event rs ≢ []
            → (w : Bool) → d.writable ≡ w
            → PollOutcome
        saves rs h e true w = inr (inr (inl (rs, h, e, w, poll_advances rs h e w)))
        saves rs h e false w = inr (
            inr (
              inr (
                rs,
                h,
                e,
                w,
                poll_page rs h
                    ∙ deliver_refused (choose parse_event rs) (last_id (get_store d).cursor rs) d e
                        w,
              )))

        relevant :
            (rs : List EventRecord)
            → Answers (ok rs)
            → (events : List GovernanceEvent) → choose parse_event rs ≡ events
            → PollOutcome
        relevant rs h [] e = inr (inl (rs, h, e, poll_idle rs h e))
        relevant rs h (event ∷ events) e = saves rs h (λ q. cc) d.writable refl

        answered : (r : Result Thrown (List EventRecord)) → Answers r → PollOutcome
        answered (throws e) h = inl (e, h, poll_error e h)
        answered (ok rs) h = relevant rs h (choose parse_event rs) refl

  -- While the server answers the stored cursor by a page with no relevant record, any number of
  -- polls leaves the disk as it was and notifies nobody.
  pub polls_stuck :
      (horizon : Horizon) (d : Disk) (rs : List EventRecord) (n : ℕ)
      → horizon (asked_for (get_store d).cursor) ≡ ok rs
      → choose parse_event rs ≡ []
      → polls transport env (replicate n horizon) d ≡ (d, [])
  unfolding polls
  polls_stuck horizon d rs zero h e = refl
  polls_stuck horizon d rs (suc n) h e =
      rw (poll_idle horizon d rs h e) (polls_stuck horizon d rs n h e)
