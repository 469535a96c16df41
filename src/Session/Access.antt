-- ===== src/Session/Access.antt =====
-- What the checks of crates/server/src/session.rs admit, against a table of rights.
use ctp_system.Prelude.{
  String, ◌≡◌, ◌↔◌, refl, Bool, true, false, ◌&&◌, Option, none, some, [], Result, ok, arith, ◌==◌,
  string_eq, if◌then◌else◌,
}
use text.Mathlib.TextEquality.{eq_iff}
use ctp_system.HashMap.{get-insert, get-empty, get_or, insert}
use ctp_system.Model.Enums.{ClientPermission, full, query_only, trade_only, ConnectionState}
use ctp_system.Model.Types.{ClientId, AccountId}
use ctp_system.Protocol.{Failure}
use ctp_system.Session.{
  SessionManager, register_client, allow_client_account, bind_account, set_account_state,
  permission_for, ensure_account_access, ensure_read_access, ensure_write_access,
}

-- What an operation needs of an account.
pub data Access : Type 0 where
  any_access read_access write_access : Access

-- The table of rights: read needs a permission to query, write one to trade.
abbrev pub allows : Option ClientPermission → Access → Bool
allows none _ = false
allows (some _) any_access = true
allows (some full) _ = true
allows (some query_only) read_access = true
allows (some query_only) write_access = false
allows (some trade_only) read_access = false
allows (some trade_only) write_access = true

abbrev pub ensure :
    Access → ClientId → AccountId → String → SessionManager → Result Failure (Unit {0})
ensure any_access = ensure_account_access
ensure read_access = ensure_read_access
ensure write_access = ensure_write_access

-- Each check succeeds exactly where the table of rights allows its access under the permission
-- that the client has on the account.
pub ensure_iff :
    (a : Access) (client account : String) (operation : String) (s : SessionManager)
    → (ensure a client account operation s ≡ ok tt)
      ↔ (allows (permission_for client account s) a ≡ true)
unfolding ensure_account_access ensure_read_access ensure_write_access
ensure_iff any_access client account operation s = ground arith
ensure_iff read_access client account operation s = ground arith
ensure_iff write_access client account operation s = ground arith

-- Granting one client a permission on one account sets that entry and no other.
pub permission_for-allow_client_account :
    (c d : ClientId) (a b : AccountId) (p : ClientPermission) (s : SessionManager)
    → permission_for d b (allow_client_account c a p s)
      ≡ (if (c == d) && (a == b) then some p else permission_for d b s)
unfolding permission_for allow_client_account
permission_for-allow_client_account c d a b p s =
    let accounts = get_or c [] s.access_rules in
    ground (
      arith,
      get-insert c d (insert a p accounts) s.access_rules,
      get-insert a b p accounts,
      get-empty {V = ClientPermission} b,
      eq_iff c d,
    )

-- No other operation of the session manager touches the rules.
pub access_rules-register_client :
    (c : ClientId) (s : SessionManager) → (register_client c s).access_rules ≡ s.access_rules
unfolding register_client
access_rules-register_client c s = refl

pub access_rules-bind_account :
    (c : ClientId) (a : AccountId) (s : SessionManager)
    → (bind_account c a s).access_rules ≡ s.access_rules
unfolding bind_account
access_rules-bind_account c a s = ground arith

pub access_rules-set_account_state :
    (a : AccountId) (state : ConnectionState) (s : SessionManager)
    → (set_account_state a state s).access_rules ≡ s.access_rules
unfolding set_account_state
access_rules-set_account_state a state s = refl
