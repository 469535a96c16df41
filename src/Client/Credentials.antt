-- ===== src/Client/Credentials.antt =====
-- crates/client/src/credentials.rs. The environment, `str::trim` and `str::contains` are parameters.
use ctp_system.Prelude.{
  String, Bool, ◌||◌, Option, none, some, Result, ok, err, ◌==◌, string_eq, if◌then◌else◌,
}
use ctp_system.Model.Types.{ClientId, AccountCredentials}

pub data CredentialsError : Type 0 where
  -- "missing CTP_CLIENT_ID (e.g. CY, HB)" and "CTP_CLIENT_ID must not be empty"
  missing_client_id empty_client_id : CredentialsError
  -- "missing env {name}" and "env {name} is not configured"
  missing not_configured : String → CredentialsError

infixl 5 ◌>>=◌
◌>>=◌ :
    {A B : Type 0}
    → Result CredentialsError A
    → (A → Result CredentialsError B)
    → Result CredentialsError B
ok a >>= f = f a
err e >>= f = err e

module _ (var : String → Option String) (trim : String → String)
    (contains : String → String → Bool) where
  unfoldable pub client_id_from_env : Result CredentialsError ClientId
  client_id_from_env = elim (var "CTP_CLIENT_ID") [
    | none ↦ err missing_client_id
    | some id ↦ if trim id == "" then err empty_client_id else ok (trim id)
  ]

  unfoldable pub required_env : String → Result CredentialsError String
  required_env name = elim (var name) [
    | none ↦ err (missing name)
    | some value ↦
        if trim value == "" || contains value "your-" || contains value "your_"
        then err (not_configured name)
        else ok value
  ]

  unfoldable pub load_trade_credentials : Result CredentialsError AccountCredentials
  unfolding required_env ◌>>=◌
  load_trade_credentials = do
    account_id ← required_env "CTP_CLIENT_USER_ID"
    password ← required_env "CTP_CLIENT_PASSWORD"
    broker_id ← required_env "CTP_BROKER_ID"
    app_id ← required_env "CTP_APP_ID"
    auth_code ← required_env "CTP_AUTH_CODE"
    ok (record {
      account_id = account_id;
      password = password;
      broker_id = broker_id;
      app_id = app_id;
      auth_code = auth_code;
    })
