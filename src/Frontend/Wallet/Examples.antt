-- ===== src/Frontend/Wallet/Examples.antt =====
-- The theorems on frontend/src/store/walletStore.ts at a concrete wallet.
use cosmosvote.Prelude.{inr, ◌≡◌, refl, ◌↔◌, none, some, true, [], JsString, js, ok}
use cosmosvote.Frontend.Wallet.{
  freighter, Extensions, Store, initial_store, connected_to, connect, connects, Reach, created,
  next,
}
use cosmosvote.Frontend.Wallet.Sessions.{Grants, IsConnected, connect_iff, late_balance}

abbrev granting : Extensions
granting = record {
  is_connected = ok true;
  request_access = ok tt;
  get_address = ok record { address = js "GABC"; error = none };
  xbull_sdk = none;
}

Grants-granting : Grants granting freighter (js "GABC")
Grants-granting = (record { address = js "GABC"; error = none }, refl, refl, refl, refl, refl)

abbrev signed_in : Store
signed_in = connected_to freighter (js "GABC") initial_store

connect_iff_example : (connect granting freighter initial_store ≡ ok signed_in) ↔ (
    (address : JsString) × Grants granting freighter address
    × IsConnected freighter address initial_store signed_in)
connect_iff_example = connect_iff granting freighter initial_store signed_in

Reach-signed_in : Reach signed_in
unfolding connected_to initial_store js
Reach-signed_in = next (created refl) (
    connects granting freighter
      (connect_iff_example.1 (js "GABC", Grants-granting, inr ((λ x. cc), refl))))

late_balance_example :
    (t : Store) × Reach t
    × (t.state.wallet_address ≡ none)
    × (t.state.token_balance ≡ some 700)
    × (t.requests ≡ [])
unfolding js initial_store
late_balance_example =
    late_balance granting freighter (js "GABC") 700 (created refl) refl Grants-granting refl
