-- ===== src/Notification/Subscriptions/Examples.antt =====
-- The theorems on notification-service/src/subscriptions.ts at concrete files.
use cosmosvote.Prelude.{
  ◌≡◌, refl, sym, ap, ◌∙◌, ◌↔◌, inl, inr, none, some, true, [], ◌∷◌, js, ◌===◌, differ, same_option,
  length, In,
}
use cosmosvote.Notification.Types.{Subscriber}
use cosmosvote.Notification.Subscriptions.{
  absent, holds, Disk, empty_store, parsed, load, save, get_store, Options, has_channel,
  subscriber_of, push_subscriber, add_subscriber, without, remove_subscriber, list_subscribers,
  wants, matching_subscribers,
}
use cosmosvote.Notification.Subscriptions.Filter.{Asked, matching_subscribers_iff}
use cosmosvote.Notification.Subscriptions.Edits.{
  HasId, AddThenRemove, remove_subscriber-add_subscriber,
}
use cosmosvote.Notification.Subscriptions.History.{adds, Reach, here, next, IsSound, Reach-IsSound}

abbrev mail_options : Options
mail_options = record {
  proposal_id = none;
  events = js "created" ∷ js "final" ∷ [];
  email = some (js "dao@example.org");
  webhook_url = none;
  slack_webhook_url = none;
  discord_webhook_url = none;
}

abbrev no_options : Options
no_options = record mail_options { email = none }

abbrev one_proposal : Options
one_proposal = record mail_options { proposal_id = some (js "7") }

abbrev fresh_disk : Disk
fresh_disk = record { content = absent; writable = true }

abbrev two_on_file : Disk
two_on_file = record {
  content = holds (record {
    subscribers = subscriber_of (js "a") mail_options ∷ subscriber_of (js "b") one_proposal ∷ [];
    cursor = js "12-1";
  });
  writable = true;
}

all_open : Unit {0}
unfolding add_subscriber remove_subscriber without save load parsed empty_store list_subscribers
    get_store push_subscriber subscriber_of has_channel matching_subscribers wants js ◌===◌
    same_option
all_open = tt

matching_tests :
    (matching_subscribers (js "final") (some (js "8")) two_on_file
      ≡ subscriber_of (js "a") mail_options ∷ [])
    × (length (matching_subscribers (js "final") (some (js "7")) two_on_file) ≡ 2)
    × (matching_subscribers (js "voted") none two_on_file ≡ [])
unfolding all_open
matching_tests = (refl, refl, refl)

matching_subscribers_iff_example :
    In
      (subscriber_of (js "b") one_proposal)
      (matching_subscribers (js "final") (some (js "7")) two_on_file)
    ↔ (In (subscriber_of (js "b") one_proposal) (list_subscribers two_on_file)
        × Asked (js "final") (some (js "7")) (subscriber_of (js "b") one_proposal))
matching_subscribers_iff_example =
    matching_subscribers_iff (js "final") (some (js "7")) two_on_file
      (subscriber_of (js "b") one_proposal)

c_is_fresh : ¬ HasId (js "c") (list_subscribers two_on_file)
unfolding all_open
c_is_fresh (s, inl e, id) =
    differ (js "a") (js "c") refl (sym (ap (λ (t : Subscriber). t.id) e) ∙ id)
c_is_fresh (s, inr (inl e), id) =
    differ (js "b") (js "c") refl (sym (ap (λ (t : Subscriber). t.id) e) ∙ id)
c_is_fresh (s, inr (inr m), id) = absurd m

remove_subscriber-add_subscriber_example : AddThenRemove mail_options (js "c") two_on_file
unfolding all_open
remove_subscriber-add_subscriber_example =
    remove_subscriber-add_subscriber mail_options (js "c") two_on_file refl refl c_is_fresh

nobody_has : ¬ HasId (js "a") (list_subscribers fresh_disk)
unfolding all_open
nobody_has (s, m, id) = absurd m

one_on_file : Disk
one_on_file = record {
  content = holds (push_subscriber (subscriber_of (js "a") mail_options) empty_store);
  writable = true;
}

added_once : Reach fresh_disk one_on_file
unfolding all_open one_on_file
added_once =
    next here (adds mail_options (js "a") {s = subscriber_of (js "a") mail_options} nobody_has refl)

Reach-IsSound_example : IsSound one_on_file
Reach-IsSound_example = Reach-IsSound {d = fresh_disk} refl added_once
