-- ===== src/Notification/Cli/Commands.antt =====
-- What the commands of notification-service/src/index.ts do to the subscription file.
use cosmosvote.Prelude.{
  ℕ, ◌≡◌, refl, ap, ◌∙◌, ◌≢◌, ◌⊎◌, inl, inr, none, some, Bool, true, false, not, List, [], ◌∷◌,
  ◌++◌, map, arith, JsString, truthy, or_else, split, trim, get_elem?, All, Result, ok, throws,
}
use cosmosvote.Notification.Types.{Subscriber}
use cosmosvote.Notification.Subscriptions.{
  Disk, StoreError, Options, has_channel, subscriber_of, add_subscriber, remove_subscriber,
  list_subscribers,
}
use cosmosvote.Notification.Subscriptions.Edits.{has_channel_lem, add_subscriber_outcome}
use cosmosvote.Notification.Channels.{Env}
use cosmosvote.Notification.Notifier.{Transport}
use cosmosvote.Notification.Watcher.{Horizon, Notified, start_watcher}
use cosmosvote.Notification.Cli.{
  all_events, Parsed, parse_events, Output, subscriber_added, exits, failed, options_of,
  lacks_channel, channel_usage, added, subscribe, removed, unsubscribe, watching, main,
}

-- A text without a code unit, and texts joined by it.
abbrev pub Lacks : ℕ → JsString → Type 0
Lacks c s = All (λ x. x ≢ c) s

abbrev pub join : ℕ → JsString → List JsString → JsString
join c s [] = s
join c s (t ∷ ts) = s ++ c ∷ join c t ts

split_one : (c : ℕ) (s : JsString) → Lacks c s → split c s ≡ s ∷ []
unfolding split
split_one c [] h = refl
split_one c (x ∷ s) h = ground (arith, split_one c s h.1)

split-append : (c : ℕ) (s t : JsString) → Lacks c s → split c (s ++ c ∷ t) ≡ s ∷ split c t
unfolding split
split-append c [] t h = ground arith
split-append c (x ∷ s) t h = ground (arith, split-append c s t h.1)

split-join :
    (c : ℕ) (s : JsString) (ts : List JsString)
    → Lacks c s
    → All (Lacks c) ts
    → split c (join c s ts) ≡ s ∷ ts
split-join c s [] h hs = split_one c s h
split-join c s (t ∷ ts) h hs =
    split-append c s (join c t ts) h ∙ ap (◌∷◌ s) (split-join c t ts hs.0 hs.1)

map_fixed : (f : JsString → JsString) (ts : List JsString) → All (λ t. f t ≡ t) ts → map f ts ≡ ts
map_fixed f [] h = refl
map_fixed f (t ∷ ts) h = rw (h.0, map_fixed f ts h.1)

truthy-join : (t : JsString) (ts : List JsString) → truthy t ≡ true → truthy (join b',' t ts) ≡ true
truthy-join (c ∷ s) [] h = refl
truthy-join (c ∷ s) (t ∷ ts) h = refl
truthy-join [] ts h = cc

All-both :
    (P Q : JsString → Type 0) (ts : List JsString) → All (λ t. P t × Q t) ts → All P ts × All Q ts
All-both P Q [] h = (tt, tt)
All-both P Q (t ∷ ts) h = let (p, q) = All-both P Q ts h.1 in ((h.0.0, p), (h.0.1, q))

-- A non-empty list of event types that hold no comma and nothing to trim, the first not empty,
-- comes back from its text joined by commas; with no text, or an empty one, all five types are
-- taken.
pub parse_events-join :
    (t : JsString) (ts : List JsString)
    → truthy t ≡ true
    → All (λ s. Lacks b',' s × (trim s ≡ s)) (t ∷ ts)
    → (parse_events (some (join b',' t ts)) ≡ t ∷ ts)
      × (parse_events none ≡ all_events)
      × (parse_events (some []) ≡ all_events)
unfolding parse_events
parse_events-join t ts set h =
    let (plain, whole) = All-both (Lacks b',') (λ s. trim s ≡ s) (t ∷ ts) h in
    (
      rw (truthy-join t ts set, split-join b',' t ts plain.0 plain.1)
          (map_fixed trim (t ∷ ts) whole),
      refl,
      refl,
    )

lacks_iff : (opts : Options) → lacks_channel opts ≡ not (has_channel opts)
unfolding lacks_channel
lacks_iff opts = rw (has_channel_lem opts) (ground arith)

-- On a disk that can be written, subscribe without a channel ends with its usage message and
-- leaves the disk alone, and with one appends one subscriber under the new identifier with the
-- values of its options.
pub subscribe_outcome :
    (uuid : JsString) (args : List JsString) (d : Disk)
    → d.writable ≡ true
    → ((has_channel (options_of args) ≡ false) × (subscribe uuid args d ≡ (exits channel_usage, d)))
      ⊎ ((has_channel (options_of args) ≡ true)
          × ((d' : Disk) × (subscribe uuid args d
                ≡ (subscriber_added (subscriber_of uuid (options_of args)), d'))
              × (list_subscribers d'
                  ≡ list_subscribers d ++ subscriber_of uuid (options_of args) ∷ [])))
unfolding subscribe lacks_channel added
subscribe_outcome uuid args d w = elim (add_subscriber_outcome (options_of args) uuid d w) [
  | inl (c, e) ↦ inl (c, rw (lacks_iff (options_of args), c))
  | inr (c, (d', e, l, k)) ↦ inr (c, (d', rw (lacks_iff (options_of args), c, e), l))
]

abbrev pub Ends : Output → Type 0
Ends (exits message) = Unit
Ends (failed e) = Unit
Ends _ = ⊥

added-Ends :
    (d : Disk) (r : Result StoreError (Subscriber × Disk)) → Ends (added d r).0 → (added d r).1 ≡ d
unfolding added
added-Ends d (ok (s, d')) h = absurd h
added-Ends d (throws e) h = refl

removed-Ends :
    (id : JsString) (d : Disk) (r : Result StoreError (Bool × Disk))
    → Ends (removed id d r).0
    → (removed id d r).1 ≡ d
unfolding removed
removed-Ends id d (ok (true, d')) h = absurd h
removed-Ends id d (ok (false, d')) h = absurd h
removed-Ends id d (throws e) h = refl

watching-Ends :
    (d : Disk) (r : Result JsString (Disk × List Notified))
    → Ends (watching d r).0
    → (watching d r).1 ≡ d
unfolding watching
watching-Ends d (ok (d', notified)) h = absurd h
watching-Ends d (throws message) h = refl

-- Whatever the command, a run that ends by `process.exit(1)` leaves the disk as it was.
pub main-Ends :
    (transport : Transport) (env : Env) (contract_id : JsString) (servers : List Horizon)
    (uuid : JsString) (parsed : Parsed) (d : Disk)
    → Ends (main transport env contract_id servers uuid parsed d).0
    → (main transport env contract_id servers uuid parsed d).1 ≡ d
unfolding main subscribe unsubscribe
main-Ends transport env contract_id servers uuid parsed d h = ground (
  arith,
  watching-Ends d (start_watcher transport env contract_id servers d),
  added-Ends d (add_subscriber (options_of parsed.args) uuid d),
  removed-Ends (or_else (get_elem? parsed.args 0) []) d
      (remove_subscriber (or_else (get_elem? parsed.args 0) []) d),
)
