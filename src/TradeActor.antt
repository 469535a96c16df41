-- ===== src/TradeActor.antt =====
-- crates/server/src/actor/trade.rs: the task that owns one account's trading connection. A loop
-- that awaits events runs over the deliveries that it receives; when they run out it is waiting.
pub mod Loop
pub mod Login
pub mod Cancel
pub mod Query
pub mod Commands
use ctp_system.Prelude.{
  ℕ, ◌-◌, ◌^◌, String, Option, none, some, List, [], ◌∷◌, Result, ok, err, Exec,
}
use ctp_system.Model.Enums.{ConnectionState}
use ctp_system.Model.Types.{I32, DateTime, AccountId, AccountState}
use ctp_system.Protocol.{Failure, text}
use ctp_system.Server
use ctp_system.Server.{Server, OrderRegistry, EnvelopeTx}
use ctp_system.TradeSession.{TradeSession}
use ctp_system.TradeSession.Events.{TradeSessionEvent}
use ctp_system.TradeSession.Spi.{SharedState}

-- The variables of the task, the shared server and the time that the clock showed last.
pub record Actor : Type 0 where
  pub account_id : AccountId
  pub session : Option TradeSession
  pub logged_in_ids : Option (I32 × I32)
  pub order_registry : OrderRegistry
  pub server : Server
  pub now : DateTime

-- What `recv().await` returns, with what the CTP thread did to the connection's shared state (the
-- pending queries), what the other tasks did to the server, and the time by then.
pub record Delivery : Type 0 where
  pub event : Option TradeSessionEvent
  pub callbacks : SharedState → SharedState
  pub others : Server → Server
  pub at : DateTime

-- Where a handler stands: it has returned, with deliveries left over, or it awaits the next one.
pub data Status : Type 0 where
  returned : Result Failure (Unit {0}) → List Delivery → Status
  waiting : Status

-- The code -n.
abbrev pub neg : ℕ → I32
neg n = 2 ^ 32 - n

abbrev hear_on : (SharedState → SharedState) → Option SharedState → Option SharedState
hear_on callbacks none = none
hear_on callbacks (some shared) = some (callbacks shared)

abbrev pub hear : (SharedState → SharedState) → Option TradeSession → Option TradeSession
hear callbacks none = none
hear callbacks (some s) = some (record s { shared = hear_on callbacks s.shared })

unfoldable pub arrive : Delivery → Actor → Actor
arrive d a = record a {
  session = hear d.callbacks a.session;
  server = d.others a.server;
  now = d.at;
}

-- loop { let event = session.recv().await.ok_or_else(..)?; match event { .. } }, over the loop's
-- variables, for a body that returns a result or goes round again.
module _ {L : Type 0} (arrives : Delivery → L → L)
    (body : TradeSessionEvent → L → Option (Result Failure (Unit {0})) × L) where
  unfoldable pub drive : List Delivery → L → Status × L
  drive [] l = (waiting, l)
  drive (d ∷ ds) l =
      let l' = arrives d l in
      elim d.event [
        | none ↦ (returned (err (text "trade session event channel closed")) ds, l')
        | some event ↦
            let (result, next) = body event l' in
            elim result [ some r ↦ (returned r ds, next) | none ↦ drive ds next ]
      ]

-- An action on the connection; `missing` is the error where there is none.
unfoldable pub on_session :
    Failure → Exec Failure TradeSession I32 → Actor → Result Failure I32 × Actor
on_session missing m a = elim a.session [
  | none ↦ (err missing, a)
  | some s ↦ let (r, s') = m s in (r, record a { session = some s' })
]

abbrev pub on_server : (Server → Server) → Actor → Actor
on_server f a = record a { server = f a.server }

unfoldable pub send_state : EnvelopeTx → AccountId → ConnectionState → Actor → Actor
send_state reply_to account_id state a =
    on_server (Server.send_account_state reply_to (Server.account_state account_id state a.now)) a

abbrev pub logged_in_state : AccountId → I32 → I32 → DateTime → AccountState
logged_in_state account_id front_id session_id now = record {
  account_id = account_id;
  state = ConnectionState.logged_in;
  front_id = some front_id;
  session_id = some session_id;
  updated_at = now;
}

unfoldable pub send_logged_in : EnvelopeTx → AccountId → I32 × I32 → Actor → Actor
send_logged_in reply_to account_id (front_id, session_id) a =
    on_server
      (Server.send_account_state reply_to (logged_in_state account_id front_id session_id a.now)) a

unfoldable pub send_error : EnvelopeTx → I32 → Failure → Actor → Actor
send_error reply_to code message a = on_server (Server.send_error reply_to code message) a
