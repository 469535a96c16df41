-- ===== src/Session.antt =====
-- crates/server/src/session.rs: which clients are known, what they may do with which account, and
-- the connection state of each account.
pub mod Access
use ctp_system.Prelude.{
  String, Bool, true, false, Option, none, some, List, [], ◌∷◌, ◌++◌, Result, ok, err, ◌==◌,
  string_eq, if◌then◌else◌, elem,
}
use ctp_system.HashMap.{HashMap, get, insert, get_or}
use ctp_system.Model.Enums.{ConnectionState, ClientPermission, full, query_only, trade_only}
use ctp_system.Model.Types.{ClientId, AccountId}
use ctp_system.Protocol.{Failure, permission_error, permission_error_with_mode}

pub record ClientSession : Type 0 where
  pub client_id : ClientId
  pub bound_accounts : List AccountId

pub record SessionManager : Type 0 where
  pub clients : HashMap String ClientSession
  pub account_states : HashMap String ConnectionState
  pub account_subscribers : HashMap String (List ClientId)
  pub access_rules : HashMap String (HashMap String ClientPermission)

abbrev pub default : SessionManager
default = record { clients = []; account_states = []; account_subscribers = []; access_rules = [] }

unfoldable pub register_client : ClientId → SessionManager → SessionManager
register_client client_id s = record s {
  clients = insert client_id (record { client_id = client_id; bound_accounts = [] }) s.clients;
}

unfoldable pub allow_client_account :
    ClientId → AccountId → ClientPermission → SessionManager → SessionManager
allow_client_account client_id account_id permission s = record s {
  access_rules =
      insert client_id (insert account_id permission (get_or client_id [] s.access_rules))
        s.access_rules;
}

-- `push` unless the element is there.
push_new : String → List String → List String
push_new a xs = if elem a xs then xs else xs ++ a ∷ []

bind_client : AccountId → Option ClientSession → ClientId → SessionManager → SessionManager
unfolding push_new
bind_client account_id none client_id s = s
bind_client account_id (some session) client_id s = record s {
  clients =
      insert client_id
        (record session { bound_accounts = push_new account_id session.bound_accounts }) s.clients;
}

unfoldable pub bind_account : ClientId → AccountId → SessionManager → SessionManager
unfolding bind_client push_new
bind_account client_id account_id s =
    let bound = bind_client account_id (get client_id s.clients) client_id s in
    record bound {
      account_subscribers =
          insert account_id (push_new client_id (get_or account_id [] bound.account_subscribers))
            bound.account_subscribers;
    }

unfoldable pub set_account_state : AccountId → ConnectionState → SessionManager → SessionManager
set_account_state account_id state s = record s {
  account_states = insert account_id state s.account_states;
}

unfoldable pub permission_for : ClientId → AccountId → SessionManager → Option ClientPermission
permission_for client_id account_id s = elim (get client_id s.access_rules) [
  | none ↦ none
  | some accounts ↦ get account_id accounts
]

unfoldable pub ensure_account_access :
    ClientId → AccountId → String → SessionManager → Result Failure (Unit {0})
ensure_account_access client_id account_id operation s =
    elim (permission_for client_id account_id s) [
      | some _ ↦ ok tt
      | none ↦ err (permission_error client_id account_id operation "whitelist entry")
    ]

unfoldable pub ensure_read_access :
    ClientId → AccountId → String → SessionManager → Result Failure (Unit {0})
ensure_read_access client_id account_id operation s = elim (permission_for client_id account_id s) [
  | some full ↦ ok tt
  | some query_only ↦ ok tt
  | some trade_only ↦
      err (permission_error_with_mode client_id account_id operation trade_only "read")
  | none ↦ err (permission_error client_id account_id operation "read access")
]

unfoldable pub ensure_write_access :
    ClientId → AccountId → String → SessionManager → Result Failure (Unit {0})
ensure_write_access client_id account_id operation s =
    elim (permission_for client_id account_id s) [
      | some full ↦ ok tt
      | some trade_only ↦ ok tt
      | some query_only ↦
          err (permission_error_with_mode client_id account_id operation query_only "write")
      | none ↦ err (permission_error client_id account_id operation "write access")
    ]
