-- ===== src/Frontend/Wallet.antt =====
-- frontend/src/store/walletStore.ts. The wallet extensions are parameters, by what they answer. A balance,
-- which is not negative, is asked for and set when the answer arrives.
pub mod Sessions
mod Examples
use cosmosvote.Prelude.{
  ℕ, ◌≡◌, Option, none, some, Bool, true, false, List, [], ◌∷◌, ◌++◌, JsString, js, truthy,
  if◌then◌else◌, Result, ok, throws, ◌>>=◌, ◌>>◌,
}

pub data WalletName : Type 0 where
  freighter xbull : WalletName

pub record WalletState : Type 0 where
  pub wallet_address : Option JsString
  pub wallet_name : Option WalletName
  pub token_balance : Option ℕ
  pub show_modal : Bool

-- What `getAddress` of Freighter answers.
pub record AddressAnswer : Type 0 where
  pub address : JsString
  pub error : Option JsString

pub record Extensions : Type 0 where
  pub is_connected : Result JsString Bool
  pub request_access : Result JsString (Unit {0})
  pub get_address : Result JsString AddressAnswer
  pub xbull_sdk : Option (Result JsString JsString)

-- The store, and the addresses whose balance has been asked for and not answered.
pub record Store : Type 0 where
  pub state : WalletState
  pub requests : List JsString

pub initial_store : Store
initial_store = record {
  state = record {
    wallet_address = none;
    wallet_name = none;
    token_balance = none;
    show_modal = false;
  };
  requests = [];
}

pub open_modal : Store → Store
open_modal s = record s { state = record s.state { show_modal = true } }

pub close_modal : Store → Store
close_modal s = record s { state = record s.state { show_modal = false } }

-- `if (result.error) throw new Error(result.error.message)`
pub address_or_error : JsString → Option JsString → Result JsString JsString
address_or_error address none = ok address
address_or_error address (some message) = throws message

pub freighter_connected : Bool → Result JsString (Unit {0})
freighter_connected true = ok tt
freighter_connected false = throws (js "Freighter extension not found")

pub xbull_address : Option (Result JsString JsString) → Result JsString JsString
xbull_address none = throws (js "xBull extension not found")
xbull_address (some answer) = answer

-- The address that `connect` gets.
pub address_of : Extensions → WalletName → Result JsString JsString
unfolding address_or_error freighter_connected xbull_address
address_of ext freighter = do
  connected ← ext.is_connected
  _ ← freighter_connected connected
  _ ← ext.request_access
  answer ← ext.get_address
  address_or_error answer.address answer.error
address_of ext xbull = xbull_address ext.xbull_sdk

-- The end of `connect`: `if (!address) return`, the state, and the request for the balance.
pub connected_to : WalletName → JsString → Store → Store
connected_to wallet address s =
    if truthy address
    then record {
      state = record s.state {
        wallet_address = some address;
        wallet_name = some wallet;
        show_modal = false;
      };
      requests = s.requests ++ address ∷ [];
    }
    else s

pub connect : Extensions → WalletName → Store → Result JsString Store
unfolding address_of connected_to
connect ext wallet s = do address ← address_of ext wallet; ok (connected_to wallet address s)

pub disconnect : Store → Store
disconnect s = record s {
  state = record s.state { wallet_address = none; wallet_name = none; token_balance = none };
}

pub refresh_requests : Option JsString → List JsString
refresh_requests none = []
refresh_requests (some address) = if truthy address then address ∷ [] else []

-- `refreshBalance` up to its request.
pub refresh_balance : Store → Store
unfolding refresh_requests
refresh_balance s = record s { requests = s.requests ++ refresh_requests s.state.wallet_address }

-- An answer arrives for the request at a place; a failure sets null.
pub balance_arrives : Option ℕ → (front back : List JsString) → Store → Store
balance_arrives balance front back s = record {
  state = record s.state { token_balance = balance };
  requests = front ++ back;
}

pub data Step (s : Store) (t : Store) : Type 0 where
  opens : t ≡ open_modal s → Step s t
  closes : t ≡ close_modal s → Step s t
  connects : (ext : Extensions) (wallet : WalletName) → connect ext wallet s ≡ ok t → Step s t
  disconnects : t ≡ disconnect s → Step s t
  refreshes : t ≡ refresh_balance s → Step s t
  balance_comes :
      (balance : Option ℕ) (front back : List JsString) (address : JsString)
      → s.requests ≡ front ++ address ∷ back
      → t ≡ balance_arrives balance front back s
      → Step s t

pub data Reach : Store → Type 0 where
  created : {s : Store} → s ≡ initial_store → Reach s
  next : {s t : Store} → Reach s → Step s t → Reach t
