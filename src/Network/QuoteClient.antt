-- ===== src/Network/QuoteClient.antt =====
-- The callbacks and the event channel of the quote client: crates/common/src/network/ctp_client
-- (client.rs, config.rs). The requests of the client are those of MarketData.Task.
pub mod Delivery
use ctp_system.Prelude.{
  ℕ, String, Bool, true, false, ◌&&◌, Option, none, some, List, [], ◌∷◌, ◌++◌, length, ltb,
  is_empty, Result, ok, if◌then◌else◌,
}
use ctp_system.Model.Types.{I32, F64}
use ctp_system.MarketData.{MarketDataTick}
use ctp_system.Protocol.{Failure}
use ctp_system.MarketData.Task.{
  MdRequest, MdSession, subscribe_market_data, call, CtpEvent, front_connected, front_disconnected,
  heart_beat_warning, login_ok, subscribe_ok, login_failed, subscribe_failed, market_data, error,
}
use ctp_system.Network.Mode.{ConnectionMode, active, reconnect, disconnect, closed}
use ctp_system.TradeSession.Fields.{Text, RspInfoField, unwrap_or_default}
use ctp_system.TradeSession.Spi.{rsp_error}

pub record CtpClientConfig : Type 0 where
  pub dynlib_path : String
  pub flow_path : String
  pub md_front : String
  pub broker_id : String
  pub user_id : String
  pub password : String
  pub use_udp : Bool
  pub use_multicast : Bool
  pub instruments : List String
  pub event_buffer : ℕ

-- `CtpClientConfig::new` over the defaults.
unfoldable pub new : String → String → CtpClientConfig
new dynlib_path md_front = record {
  dynlib_path = dynlib_path;
  flow_path = "./flow/md_";
  md_front = md_front;
  broker_id = "9999";
  user_id = "";
  password = "";
  use_udp = false;
  use_multicast = false;
  instruments = [];
  event_buffer = 4096;
}

unfoldable pub with_credentials : String → String → String → CtpClientConfig → CtpClientConfig
with_credentials broker_id user_id password config = record config {
  broker_id = broker_id;
  user_id = user_id;
  password = password;
}

unfoldable pub with_instruments : List String → CtpClientConfig → CtpClientConfig
with_instruments instruments config = record config { instruments = instruments }

-- `SharedState` with the event channel, oldest event first, and whether its receiver is there.
pub record SharedState : Type 0 where
  pub mode : ConnectionMode
  pub config : CtpClientConfig
  pub events : List CtpEvent
  pub is_open : Bool

-- What `connect` shares with the callbacks.
unfoldable pub connect : CtpClientConfig → SharedState
connect config = record { mode = reconnect; config = config; events = []; is_open = true }

-- `try_send`: an event that finds the channel full or closed is dropped.
unfoldable pub emit : CtpEvent → SharedState → SharedState
emit event s =
    if s.is_open && ltb (length s.events) s.config.event_buffer
    then record s { events = s.events ++ event ∷ [] }
    else s

unfoldable pub store_mode : ConnectionMode → SharedState → SharedState
store_mode mode s = record s { mode = mode }

-- The text of `SpecificInstrumentField`, and the fields of a tick that are read.
pub record DepthMarketDataField : Type 0 where
  pub instrument_id : Text
  pub exchange_id : Text
  pub last_price : F64
  pub volume : I32
  pub turnover : F64
  pub open_interest : F64
  pub bid_price1 : F64
  pub bid_volume1 : I32
  pub ask_price1 : F64
  pub ask_volume1 : I32
  pub update_time : Text
  pub update_millisec : I32
  pub trading_day : Text

unfoldable pub to_tick : DepthMarketDataField → MarketDataTick
to_tick d = record {
  instrument_id = unwrap_or_default d.instrument_id;
  exchange_id = unwrap_or_default d.exchange_id;
  last_price = d.last_price;
  volume = d.volume;
  turnover = d.turnover;
  open_interest = d.open_interest;
  bid_price1 = d.bid_price1;
  bid_volume1 = d.bid_volume1;
  ask_price1 = d.ask_price1;
  ask_volume1 = d.ask_volume1;
  update_time = unwrap_or_default d.update_time;
  update_millisec = d.update_millisec;
  trading_day = unwrap_or_default d.trading_day;
}

-- A text of a struct that may be missing.
unfoldable pub text_of : Option Text → String
text_of none = ""
text_of (some text) = unwrap_or_default text

unfoldable pub on_front_connected : SharedState → SharedState
unfolding emit store_mode
on_front_connected s = emit front_connected (store_mode active s)

unfoldable pub on_front_disconnected : I32 → SharedState → SharedState
unfolding emit store_mode
on_front_disconnected reason s = emit (front_disconnected reason) (store_mode reconnect s)

unfoldable pub on_heart_beat_warning : I32 → SharedState → SharedState
unfolding emit
on_heart_beat_warning time_lapse s = emit (heart_beat_warning time_lapse) s

-- on_rsp_user_login, with its error and the trading day
unfoldable pub login_answer : Option (I32 × String) → String → SharedState → SharedState
unfolding emit store_mode
login_answer none trading_day s = emit (login_ok trading_day) (store_mode active s)
login_answer (some (error_id, error_msg)) trading_day s = emit (login_failed error_id error_msg) s

unfoldable pub on_rsp_user_login : Option Text → Option RspInfoField → SharedState → SharedState
unfolding login_answer text_of
on_rsp_user_login trading_day info s = login_answer (rsp_error info) (text_of trading_day) s

unfoldable pub subscribe_answer : Option (I32 × String) → String → SharedState → SharedState
unfolding emit
subscribe_answer none instrument_id s = emit (subscribe_ok instrument_id) s
subscribe_answer (some (error_id, error_msg)) instrument_id s =
    emit (subscribe_failed instrument_id error_id error_msg) s

unfoldable pub on_rsp_sub_market_data :
    Option Text → Option RspInfoField → SharedState → SharedState
unfolding subscribe_answer text_of
on_rsp_sub_market_data instrument_id info s =
    subscribe_answer (rsp_error info) (text_of instrument_id) s

unfoldable pub on_rsp_error : Option RspInfoField → I32 → SharedState → SharedState
unfolding emit
on_rsp_error none request_id s = s
on_rsp_error (some info) request_id s =
    emit (error info.error_id (unwrap_or_default info.error_msg) request_id) s

unfoldable pub on_rtn_depth_market_data : Option DepthMarketDataField → SharedState → SharedState
unfolding emit to_tick
on_rtn_depth_market_data none s = s
on_rtn_depth_market_data (some d) s = emit (market_data (to_tick d)) s

unfoldable pub first : List CtpEvent → Option CtpEvent × List CtpEvent
first [] = (none, [])
first (event ∷ events) = (some event, events)

-- `try_recv`, and `recv` where an event is there.
unfoldable pub recv : SharedState → Option CtpEvent × SharedState
unfolding first
recv s = let (event, rest) = first s.events in (event, record s { events = rest })

-- `close`: the disconnect that it stores first lasts while the api is released.
unfoldable pub close : SharedState → SharedState
unfolding store_mode
close s = store_mode closed (store_mode disconnect s)

-- `subscribe_configured`, with the instruments of the configuration.
unfoldable pub subscribe_configured :
    (MdRequest → I32) → SharedState → MdSession → Result Failure (Unit {0}) × MdSession
unfolding call
subscribe_configured answers s session =
    if is_empty s.config.instruments
    then (ok tt, session)
    else call answers "subscribe_market_data" (subscribe_market_data s.config.instruments) session
