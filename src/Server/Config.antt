-- ===== src/Server/Config.antt =====
-- `ServerActorState::from_config` of crates/server/src/actor/common.rs over the access part of
-- crates/server/src/config.rs. `trim` of the standard library is a parameter.
pub mod Load
use ctp_system.Prelude.{
  String, ◌≡◌, refl, Option, none, some, List, [], ◌∷◌, arith, ◌==◌, string_eq, if◌then◌else◌,
}
use ctp_system.HashMap.{HashMap, get-empty}
use ctp_system.Model.Enums.{ClientPermission}
use ctp_system.Model.Types.{ClientId, AccountId}
use ctp_system.Session.{SessionManager, allow_client_account, permission_for, default}
use ctp_system.Session.Access.{permission_for-allow_client_account}

pub record ClientAccessConfig : Type 0 where
  pub client_id : String
  pub accounts : List String
  pub permission : ClientPermission

module _ (trim : String → String) where
  -- The inner loop of `from_config`.
  allow_accounts : ClientId → ClientPermission → List String → SessionManager → SessionManager
  allow_accounts client_id permission [] s = s
  allow_accounts client_id permission (account ∷ accounts) s =
      allow_accounts client_id permission accounts
        (allow_client_account client_id (trim account) permission s)

  unfoldable pub allow_clients : List ClientAccessConfig → SessionManager → SessionManager
  unfolding allow_accounts
  allow_clients [] s = s
  allow_clients (client ∷ clients) s =
      allow_clients clients
        (allow_accounts (trim client.client_id) client.permission client.accounts s)

  -- The sessions of the state that `from_config` makes; its other fields are empty.
  unfoldable pub from_config : List ClientAccessConfig → SessionManager
  unfolding allow_clients
  from_config clients = allow_clients clients default

  -- The file read as a table: the last line for a client and an account counts.
  pub last_line : ClientId → AccountId → ClientPermission → List String → Option ClientPermission
  last_line c a p [] = none
  last_line c a p (account ∷ accounts) =
      let later = last_line c a p accounts in
      elim later [ some q ↦ some q | none ↦ if trim account == a then some p else none ]

  pub last_entry : ClientId → AccountId → List ClientAccessConfig → Option ClientPermission
  last_entry c a [] = none
  last_entry c a (client ∷ clients) =
      let later = last_entry c a clients in
      elim later [
        | some q ↦ some q
        | none ↦
            if trim client.client_id == c
            then last_line c a client.permission client.accounts
            else none
      ]

  abbrev or_else : Option ClientPermission → Option ClientPermission → Option ClientPermission
  or_else (some p) _ = some p
  or_else none q = q

  permission_for-allow_accounts :
      (d c : ClientId) (a : AccountId) (p : ClientPermission) (accounts : List String)
      (s : SessionManager)
      → permission_for c a (allow_accounts d p accounts s)
        ≡ or_else (if d == c then last_line c a p accounts else none) (permission_for c a s)
  unfolding allow_accounts last_line
  permission_for-allow_accounts d c a p [] s = ground arith
  permission_for-allow_accounts d c a p (account ∷ accounts) s = ground (
    arith,
    permission_for-allow_accounts d c a p accounts (allow_client_account d (trim account) p s),
    permission_for-allow_client_account d c (trim account) a p s,
  )

  permission_for-allow_clients :
      (c : ClientId) (a : AccountId) (clients : List ClientAccessConfig) (s : SessionManager)
      → permission_for c a (allow_clients clients s)
        ≡ or_else (last_entry c a clients) (permission_for c a s)
  unfolding allow_clients last_entry
  permission_for-allow_clients c a [] s = refl
  permission_for-allow_clients c a (client ∷ clients) s = ground (
    arith,
    permission_for-allow_clients c a clients
        (allow_accounts (trim client.client_id) client.permission client.accounts s),
    permission_for-allow_accounts (trim client.client_id) c a client.permission client.accounts s,
  )

  -- After loading, a client's permission on an account is the one on the last line of the
  -- configuration that names both, and there is none where no line does.
  pub permission_for-from_config :
      (clients : List ClientAccessConfig) (c : ClientId) (a : AccountId)
      → permission_for c a (from_config clients) ≡ last_entry c a clients
  unfolding from_config permission_for
  permission_for-from_config clients c a = ground (
    arith,
    permission_for-allow_clients c a clients default,
    get-empty {V = HashMap String ClientPermission} c,
  )
