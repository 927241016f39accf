-- ===== src/Frontend/Wallet/Sessions.antt =====
-- Sessions of the wallet store, frontend/src/store/walletStore.ts.
use cosmosvote.Prelude.{
  ◌≢◌, ◌++◌, ℕ, ◌≡◌, refl, sym, ap, ◌∙◌, ◌↔◌, ◌⊎◌, inl, inr, Option, none, some, Bool, true, false,
  [], ◌∷◌, arith, JsString, truthy, Bool-cases, Result, ok, throws, ◌>>=◌,
}
use cosmosvote.Frontend.Wallet.{
  WalletName, freighter, xbull, AddressAnswer, Extensions, Store, initial_store, open_modal,
  close_modal, address_or_error, freighter_connected, xbull_address, address_of, connected_to,
  connect, disconnect, refresh_balance, balance_arrives, Step, opens, closes, connects, disconnects,
  refreshes, balance_comes, Reach, created, next,
}

-- The wallet's name and a non-empty address are set together or not at all.
abbrev pub IsPaired : Store → Type 0
IsPaired s =
    ((s.state.wallet_address ≡ none) × (s.state.wallet_name ≡ none))
    ⊎ ((a : JsString) × (w : WalletName) × (s.state.wallet_address ≡ some a)
        × (s.state.wallet_name ≡ some w)
        × (truthy a ≡ true))

connected_to-IsPaired :
    (wallet : WalletName) (address : JsString) (s : Store)
    → IsPaired s
    → IsPaired (connected_to wallet address s)
unfolding connected_to
connected_to-IsPaired wallet address s h = elim (Bool-cases (truthy address)) [
  | inl e ↦ rw e (inr (address, wallet, refl, refl, e))
  | inr e ↦ rw e h
]

connect_ok :
    (ext : Extensions) (wallet : WalletName) (s t : Store)
    → connect ext wallet s ≡ ok t
    → (address : JsString) × (address_of ext wallet ≡ ok address)
      × (t ≡ connected_to wallet address s)
unfolding connect
connect_ok ext wallet s t e = from (address_of ext wallet) refl e
  where
    from :
        (r : Result JsString JsString)
        → address_of ext wallet ≡ r
        → (r >>= (λ address. ok (connected_to wallet address s))) ≡ ok t
        → (address : JsString) × (address_of ext wallet ≡ ok address)
          × (t ≡ connected_to wallet address s)
    from (ok address) same h = (address, same, cc)
    from (throws err) same h = cc

Step-IsPaired : {s t : Store} → Step s t → IsPaired s → IsPaired t
unfolding open_modal close_modal disconnect refresh_balance balance_arrives
Step-IsPaired (opens e) h = rw e h
Step-IsPaired (closes e) h = rw e h
Step-IsPaired {s} {t} (connects ext wallet e) h =
    let (address, _, same) = connect_ok ext wallet s t e in
    rw same (connected_to-IsPaired wallet address s h)
Step-IsPaired (disconnects e) h = rw e (inl (refl, refl))
Step-IsPaired (refreshes e) h = rw e h
Step-IsPaired (balance_comes balance front back address way e) h = rw e h

-- Whatever happens, the store names a wallet exactly when it has its address, which is not empty.
pub Reach-IsPaired :
    {s : Store}
    → Reach s
    → ((s.state.wallet_address ≡ none) × (s.state.wallet_name ≡ none))
      ⊎ ((a : JsString) × (w : WalletName) × (s.state.wallet_address ≡ some a)
          × (s.state.wallet_name ≡ some w)
          × (truthy a ≡ true))
unfolding initial_store
Reach-IsPaired (created e) = rw e (inl (refl, refl))
Reach-IsPaired (next r st) = Step-IsPaired st (Reach-IsPaired r)

-- The extension gives an address.
abbrev pub Grants : Extensions → WalletName → JsString → Type 0
Grants ext freighter address =
    (answer : AddressAnswer) × (ext.is_connected ≡ ok true)
    × (ext.request_access ≡ ok tt)
    × (ext.get_address ≡ ok answer)
    × (answer.error ≡ none)
    × (answer.address ≡ address)
Grants ext xbull address = ext.xbull_sdk ≡ some (ok address)

address_or_error_ok :
    (given : JsString) (err : Option JsString) (address : JsString)
    → address_or_error given err ≡ ok address
    → (err ≡ none) × (given ≡ address)
unfolding address_or_error
address_or_error_ok given none address h = (refl, cc)
address_or_error_ok given (some message) address h = cc

freighter-Grants :
    (c : Result JsString Bool) (r : Result JsString (Unit {0})) (g : Result JsString AddressAnswer)
    (x : Option (Result JsString JsString)) (address : JsString)
    → let ext : Extensions = record {
      is_connected = c;
      request_access = r;
      get_address = g;
      xbull_sdk = x;
    } in
      address_of ext freighter ≡ ok address → Grants ext freighter address
unfolding address_of freighter_connected
freighter-Grants (throws e) r g x address h = cc
freighter-Grants (ok false) r g x address h = cc
freighter-Grants (ok true) (throws e) g x address h = cc
freighter-Grants (ok true) (ok unit) (throws e) x address h = cc
freighter-Grants (ok true) (ok unit) (ok answer) x address h =
    let (none_given, same) = address_or_error_ok answer.address answer.error address h in
    (answer, refl, refl, refl, none_given, same)

xbull-Grants :
    (x : Option (Result JsString JsString)) (address : JsString)
    → xbull_address x ≡ ok address
    → x ≡ some (ok address)
unfolding xbull_address
xbull-Grants none address h = cc
xbull-Grants (some answer) address h = ap some h

address_of-Grants :
    (ext : Extensions) (wallet : WalletName) (address : JsString)
    → address_of ext wallet ≡ ok address
    → Grants ext wallet address
unfolding address_of
address_of-Grants ext freighter address h =
    freighter-Grants ext.is_connected ext.request_access ext.get_address ext.xbull_sdk address h
address_of-Grants ext xbull address h = xbull-Grants ext.xbull_sdk address h

Grants-address_of :
    (ext : Extensions) (wallet : WalletName) (address : JsString)
    → Grants ext wallet address
    → address_of ext wallet ≡ ok address
unfolding address_of xbull_address freighter_connected address_or_error
Grants-address_of ext freighter address (answer, c, r, g, none_given, same) =
    rw (c, r, g, none_given, same) refl
Grants-address_of ext xbull address h = rw h refl

connect_to :
    (ext : Extensions) (wallet : WalletName) (s : Store) (address : JsString)
    → address_of ext wallet ≡ ok address
    → connect ext wallet s ≡ ok (connected_to wallet address s)
unfolding connect
connect_to ext wallet s address h = rw h refl

-- The store behind a `connect` that got an address: as before, if the address is empty; or else with the
-- address and the wallet, the dialog closed, the balance that was shown, and one more balance asked for.
abbrev pub IsConnected : WalletName → JsString → Store → Store → Type 0
IsConnected wallet address s t =
    ((address ≡ []) × (t ≡ s))
    ⊎ ((address ≢ [])
        × (t ≡ record {
          state = record {
            wallet_address = some address;
            wallet_name = some wallet;
            token_balance = s.state.token_balance;
            show_modal = false;
          };
          requests = s.requests ++ address ∷ [];
        }))

connected_to_iff :
    (wallet : WalletName) (address : JsString) (s t : Store)
    → (t ≡ connected_to wallet address s) ↔ IsConnected wallet address s t
unfolding connected_to
connected_to_iff wallet [] s t =
    (λ e. inl (refl, e), λ h. elim h [ inl (x, e) ↦ e | inr (x, e) ↦ absurd (x refl) ])
connected_to_iff wallet (c ∷ address) s t =
    (λ e. inr ((λ x. cc), e), λ h. elim h [ inl (x, e) ↦ absurd cc | inr (x, e) ↦ e ])

-- `connect` succeeds in two ways only: Freighter is there, grants access and answers with an address
-- and no error, or xBull is there and answers. The store then has this address and wallet, the dialog
-- is closed and the balance is asked for, with the old one shown until then; or it is as before, if
-- the address is empty.
pub connect_iff :
    (ext : Extensions) (wallet : WalletName) (s t : Store)
    → (connect ext wallet s ≡ ok t)
      ↔ ((address : JsString) × Grants ext wallet address × IsConnected wallet address s t)
connect_iff ext wallet s t = (
  λ e.
      let (address, given, same) = connect_ok ext wallet s t e in
      (
        address,
        address_of-Grants ext wallet address given,
        (connected_to_iff wallet address s t).0 same,
      ),
  λ (address, g, c).
      connect_to ext wallet s address (Grants-address_of ext wallet address g)
      ∙ ap ok (sym ((connected_to_iff wallet address s t).1 c)),
)

awaited :
    (wallet : WalletName) (address : JsString) (s : Store)
    → truthy address ≡ true
    → s.requests ≡ []
    → (connected_to wallet address s).requests ≡ address ∷ []
unfolding connected_to
awaited wallet address s given idle = ground (arith, given, idle)

-- Where no balance is awaited and the wallet grants an account, a store can be reached that has no
-- wallet and shows that account's balance, with nothing awaited that would correct it: the balance
-- arrives after the wallet is disconnected.
pub late_balance :
    {s : Store} (ext : Extensions) (wallet : WalletName) (address : JsString) (balance : ℕ)
    → Reach s
    → s.requests ≡ []
    → Grants ext wallet address
    → truthy address ≡ true
    → (t : Store) × Reach t
      × (t.state.wallet_address ≡ none)
      × (t.state.token_balance ≡ some balance)
      × (t.requests ≡ [])
unfolding balance_arrives disconnect
late_balance {s} ext wallet address balance r idle g given =
    let on = connected_to wallet address s in
    let off = disconnect on in
    let reached =
      next
        (next r (
          connects ext wallet
            (connect_to ext wallet s address (Grants-address_of ext wallet address g))))
        (disconnects refl) in
    (
      balance_arrives (some balance) [] [] off,
      next reached
          (balance_comes (some balance) [] [] address (awaited wallet address s given idle) refl),
      refl,
      refl,
      refl,
    )
