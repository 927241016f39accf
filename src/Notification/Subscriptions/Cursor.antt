-- ===== src/Notification/Subscriptions/Cursor.antt =====
-- `saveCursor` of notification-service/src/subscriptions.ts, and what does not depend on the cursor.
use cosmosvote.Prelude.{◌≡◌, refl, Option, true, false, arith, JsString, js, ok, throws}
use cosmosvote.Notification.Types.{GovernanceEventType}
use cosmosvote.Notification.Subscriptions.{
  absent, holds, Disk, write_failed, empty_store, parsed, load, save, get_store, save_cursor,
  list_subscribers, matching_subscribers,
}

-- What a successful `saveCursor` leaves: the new cursor and the same subscribers.
abbrev pub Saved : JsString → Disk → Disk → Type 0
Saved cursor d d' =
    (save_cursor cursor d ≡ ok d')
    × (list_subscribers d' ≡ list_subscribers d)
    × ((get_store d').cursor ≡ cursor)
    × (d'.writable ≡ true)

pub save_cursor-Saved :
    (cursor : JsString) (d : Disk) → d.writable ≡ true → (d' : Disk) × Saved cursor d d'
unfolding save_cursor save list_subscribers get_store load parsed
save_cursor-Saved cursor d w = (
  record d { content = holds (record (load d) { cursor = cursor }) },
  (ground arith, refl, refl, w),
)

pub save_cursor_refused :
    (cursor : JsString) (d : Disk) → d.writable ≡ false → save_cursor cursor d ≡ throws write_failed
unfolding save_cursor save
save_cursor_refused cursor d w = ground arith

pub matching_subscribers-congr :
    (event_type : GovernanceEventType) (proposal_id : Option JsString) (d d' : Disk)
    → list_subscribers d' ≡ list_subscribers d
    → matching_subscribers event_type proposal_id d' ≡ matching_subscribers event_type proposal_id d
unfolding matching_subscribers list_subscribers
matching_subscribers-congr event_type proposal_id d d' e = rw e

-- A disk without a file starts at the cursor "now".
pub get_store_absent : (d : Disk) → d.content ≡ absent → (get_store d).cursor ≡ js "now"
unfolding get_store load parsed empty_store
get_store_absent d e = rw (e, parsed)
