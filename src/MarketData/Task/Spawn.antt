-- ===== src/MarketData/Task/Spawn.antt =====
-- The loop of `MarketDataSessionActor::spawn` in crates/server/src/actor/data.rs, and the session that
-- it opens. Making the session's client is a parameter, as in crates/server/src/adapter/exchange/md.rs.
use ctp_system.Prelude.{
  String, Bool, true, Option, none, some, unwrap_or, List, [], ◌∷◌, Result, ok, err, ◌≡◌, refl,
  is_some, ◌||◌, not,
}
use ctp_system.Model.Types.{I32}
use ctp_system.Protocol.{Failure, text}
use ctp_system.Server.{Server, MarketDataSessionCommand}
use ctp_system.MarketData.Task.{
  MdRequest, MdSession, MdTask, MdDelivery, MdStatus, returned, waiting, handle_market_data_command,
  handle_market_data_event,
}

pub record MdSessionConfig : Type 0 where
  pub dynlib_path : String
  pub flow_path : String
  pub md_front : String
  pub broker_id : String
  pub user_id : String
  pub password : String

-- With the environment, what `server_md_credentials` answers, and the path of the library.
unfoldable pub create_md_session :
    (String → Option String)
    → Result String (String × String)
    → String
    → Result Failure MdSessionConfig
create_md_session var (err e) dynlib_path = err (text e)
create_md_session var (ok (user_id, password)) dynlib_path = ok (record {
  dynlib_path = dynlib_path;
  flow_path = "./flow/md_";
  md_front = unwrap_or (var "CTP_MD_FRONT") "tcp://182.254.243.31:30011";
  broker_id = unwrap_or (var "CTP_BROKER_ID") "9999";
  user_id = user_id;
  password = password;
})

-- `create_md_session` and then `md.connect()`.
unfoldable pub open_session :
    (MdSessionConfig → Result Failure MdSession)
    → Result Failure MdSessionConfig
    → Result Failure MdSession
open_session connect (err e) = err e
open_session connect (ok config) = connect config

-- The variables of the task and the shared server.
pub record MdActor : Type 0 where
  pub session : Option MdSession
  pub logged_in : Bool
  pub server : Server

-- A command (none where the channel is closed) with what other tasks have done to the server until it
-- came, what opening a session gives then, and the events from there to the next command.
pub record Turn : Type 0 where
  pub others : Server → Server
  pub command : Option MarketDataSessionCommand
  pub opening : Result Failure MdSession
  pub deliveries : List MdDelivery

-- The loop goes on, has ended, or waits in a handler.
pub data LoopState : Type 0 where
  going ended stuck : LoopState

abbrev actor_of : MdTask → MdActor
actor_of t = record { session = some t.md; logged_in = t.logged_in; server = t.server }

module _ (answers : MdRequest → I32) where
  -- The branch for an event; a failure of the handler is logged.
  unfoldable pub events : List MdDelivery → MdTask → LoopState × MdTask
  unfolding handle_market_data_event
  events [] t = (going, t)
  events (d ∷ ds) t =
      let now = record t { server = d.others t.server } in
      elim d.event [
        | none ↦ (ended, now)
        | some event ↦ events ds (handle_market_data_event answers event now).1
      ]

  -- After the handler of a command.
  unfoldable pub after_command : MdStatus × MdTask → LoopState × MdActor
  unfolding events
  after_command (waiting, t) = (stuck, actor_of t)
  after_command (returned result ds, t) = let (state, t') = events ds t in (state, actor_of t')

  on_session :
      MdSession → MarketDataSessionCommand → List MdDelivery → MdActor → LoopState × MdActor
  unfolding handle_market_data_command after_command
  on_session md command ds a = after_command (
      handle_market_data_command answers command ds
        (record { md = md; logged_in = a.logged_in; server = a.server }))

  -- A command where there may be no session yet: one that cannot be opened drops the command.
  with_session :
      Option MdSession
      → Result Failure MdSession
      → MarketDataSessionCommand
      → List MdDelivery
      → MdActor
      → LoopState × MdActor
  unfolding on_session
  with_session (some md) opening command ds a = on_session md command ds a
  with_session none (ok md) command ds a = on_session md command ds a
  with_session none (err e) command ds a = (going, a)

  turn_command :
      Option MarketDataSessionCommand
      → Result Failure MdSession
      → List MdDelivery
      → MdActor
      → LoopState × MdActor
  unfolding with_session
  turn_command none opening ds a = (ended, a)
  turn_command (some command) opening ds a = with_session a.session opening command ds a

  unfoldable pub spawn : List Turn → MdActor → LoopState × MdActor
  unfolding turn_command
  spawn [] a = (going, a)
  spawn (turn ∷ turns) a =
      let (state, a') =
        turn_command turn.command turn.opening turn.deliveries
          (record a { server = turn.others a.server }) in
      elim state [ going ↦ spawn turns a' | ended ↦ (ended, a') | stuck ↦ (stuck, a') ]

  -- The task is logged in only over a session.
  abbrev pub IsCoherent : MdActor → Type 0
  IsCoherent a = (is_some a.session || not a.logged_in) ≡ true

  after_command-IsCoherent : (r : MdStatus × MdTask) → IsCoherent (after_command r).1
  unfolding after_command
  after_command-IsCoherent (waiting, t) = refl
  after_command-IsCoherent (returned result ds, t) = refl

  with_session-IsCoherent :
      (session : Option MdSession) (opening : Result Failure MdSession)
      (command : MarketDataSessionCommand) (ds : List MdDelivery) (a : MdActor)
      → IsCoherent a
      → IsCoherent (with_session session opening command ds a).1
  unfolding with_session on_session
  with_session-IsCoherent (some md) opening command ds a h = after_command-IsCoherent _
  with_session-IsCoherent none (ok md) command ds a h = after_command-IsCoherent _
  with_session-IsCoherent none (err e) command ds a h = h

  turn_command-IsCoherent :
      (command : Option MarketDataSessionCommand) (opening : Result Failure MdSession)
      (ds : List MdDelivery) (a : MdActor)
      → IsCoherent a
      → IsCoherent (turn_command command opening ds a).1
  unfolding turn_command
  turn_command-IsCoherent none opening ds a h = h
  turn_command-IsCoherent (some command) opening ds a h =
      with_session-IsCoherent a.session opening command ds a h

  -- Whatever commands and events come, and whether sessions can be opened or not: a task that is
  -- logged in has a session.
  pub spawn-IsCoherent :
      (turns : List Turn) (a : MdActor) → IsCoherent a → IsCoherent (spawn turns a).1
  unfolding spawn
  spawn-IsCoherent [] a h = h
  spawn-IsCoherent (turn ∷ turns) a h =
      next (turn_command turn.command turn.opening turn.deliveries here)
        (λ a' k. spawn-IsCoherent turns a' k)
        (turn_command-IsCoherent turn.command turn.opening turn.deliveries here h)
    where
      here : MdActor
      here = record a { server = turn.others a.server }

      next :
          (r : LoopState × MdActor)
          → ((a' : MdActor) → IsCoherent a' → IsCoherent (spawn turns a').1)
          → IsCoherent r.1
          → IsCoherent
              (elim r.0 as (λ s. LoopState × MdActor) [
                | going ↦ spawn turns r.1
                | ended ↦ (ended, r.1)
                | stuck ↦ (stuck, r.1)
              ]).1
      next (going, a') rest k = rest a' k
      next (ended, a') rest k = k
      next (stuck, a') rest k = k
