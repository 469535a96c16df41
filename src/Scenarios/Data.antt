-- ===== src/Scenarios/Data.antt =====
-- The data of the scenarios. Identifiers are those of the repository's own tests and documents.
use ctp_system.Prelude.{string_eq, true, none, some, [], ◌∷◌}
use ctp_system.Model.Enums.{buy, opening, limit, full, query_only, partially_filled}
use ctp_system.Model.Types.{
  I32, ClientId, AccountId, AccountCredentials, OrderRequest, CancelRequest,
}
use ctp_system.Model.Reports.{OrderReport, TradeReport, TimeParser}
use ctp_system.Session.{SessionManager}
use ctp_system.Server.{Server}
use ctp_system.TradeSession.{Ctp, TradeSession, TradeSessionConfig}
use ctp_system.TradeSession.Fields.{OrderField, TradeField, InvestorPositionField}
use ctp_system.TradeSession.Events.{PendingQuery, TradeSessionEvent}
use ctp_system.TradeSession.Spi.{SharedState}
use ctp_system.TradeActor.{Actor, Delivery}
use ctp_system.TradeActor.Login.{Surroundings}

abbrev pub client_1 : ClientId
client_1 = "client-1"

abbrev pub client_2 : ClientId
client_2 = "client-2"

abbrev pub account : AccountId
account = "268508"

abbrev pub sessions : SessionManager
sessions = record {
  clients = [];
  account_states = [];
  account_subscribers = [];
  access_rules =
      ("client-1", ("268508", full) ∷ []) ∷ ("client-2", ("268508", query_only) ∷ []) ∷ [];
}

-- The task of the account takes commands from channel 7, client-1 reads from channel 1.
abbrev pub server : Server
server = record {
  state = record {
    sessions = sessions;
    trading_clients =
        ("client-1", record { client_id = "client-1"; peer = 40001; outbound = 1 }) ∷ [];
    market_data_clients =
        ("client-1", record { client_id = "client-1"; peer = 40002; outbound = 2 })
        ∷ ("client-2", record { client_id = "client-2"; peer = 40003; outbound = 3 })
        ∷ [];
    trade_sessions = ("268508", record { account_id = "268508"; command_tx = 7 }) ∷ [];
    market_data_session = none;
    market_data_subscriptions = ("IF2606", "client-1" ∷ "client-2" ∷ []) ∷ [];
  };
  envelopes = [];
  trade_commands = [];
  market_data_commands = [];
  next_channel = 8;
  is_open = λ c. true;
}

abbrev pub credentials : AccountCredentials
credentials = record {
  account_id = "268508";
  password = "secret";
  broker_id = "9999";
  app_id = "client_1.0";
  auth_code = "0000";
}

abbrev pub order : OrderRequest
order = record {
  client_order_id = "order-2026-0001";
  account_id = "268508";
  instrument_id = "IF2606";
  direction = buy;
  offset = opening;
  order_type = limit;
  volume = 2;
  price = 3800;
}

abbrev pub cancel : CancelRequest
cancel = record {
  account_id = "268508";
  instrument_id = "IF2606";
  client_order_id = some "order2026000";
  exchange_order_id = none;
}

-- A library that takes every request.
abbrev pub ctp : Ctp
ctp = record {
  d_buy = b'0';
  d_sell = b'1';
  opt_any_price = b'1';
  opt_limit_price = b'2';
  tc_ioc = b'1';
  tc_gfd = b'3';
  vc_cv = b'3';
  vc_av = b'1';
  cc_immediately = b'1';
  fcc_not_force_close = b'0';
  af_delete = b'0';
  answer = λ r. 0;
}

abbrev pub parse_time : TimeParser
parse_time day time = none

abbrev pub config : TradeSessionConfig
config = record {
  account_id = "268508";
  broker_id = "9999";
  password = "secret";
  app_id = "client_1.0";
  auth_code = "0000";
  trade_front = "tcp://182.254.243.31:30001";
  dynlib_path = "thosttraderapi_se.so";
  flow_path = "./flow/trade_268508";
}

abbrev pub shared : SharedState
shared = record { pending_queries = []; events = [] }

abbrev pub session : TradeSession
session = record { config = config; shared = some shared; request_id = 3; requests = [] }

abbrev pub env : Surroundings
env = record { trade_front = none; build_error = none }

abbrev pub logged_in : Actor
logged_in = record {
  account_id = "268508";
  session = some session;
  logged_in_ids = some (1, 77);
  order_registry = [];
  server = server;
  now = 1000;
}

abbrev pub logged_out : Actor
logged_out = record logged_in { session = none; logged_in_ids = none }

abbrev pub delivery : TradeSessionEvent → Delivery
delivery e = record { event = some e; callbacks = λ sh. sh; others = λ w. w; at = 1001 }

abbrev pub order_report : OrderReport
order_report = record {
  client_order_id = "order2026000";
  exchange_order_id = some "42";
  instrument_id = "IF2606";
  direction = buy;
  offset = opening;
  price = 3800;
  volume_total = 2;
  volume_traded = 1;
  status = partially_filled;
  status_msg = none;
  exchange_time = none;
}

abbrev pub trade_report : TradeReport
trade_report = record {
  trade_id = "T1";
  client_order_id = some "order2026000";
  exchange_order_id = "42";
  instrument_id = "IF2606";
  direction = buy;
  offset = opening;
  price = 3800;
  volume = 1;
  trade_date = "20260605";
  trade_time = "09:30:00";
}

abbrev pub order_field : OrderField
order_field = record {
  order_ref = some "order2026000";
  order_sys_id = some "42";
  instrument_id = some "IF2606";
  direction = b'0';
  comb_offset_flag = b'0' ∷ [];
  order_status = b'1';
  status_msg = none;
  insert_date = some "20260605";
  update_time = some "09:30:00";
  limit_price = 3800;
  volume_total_original = 2;
  volume_traded = 1;
}

abbrev pub trade_field : TradeField
trade_field = record {
  order_ref = some "order2026000";
  order_sys_id = some "42";
  instrument_id = some "IF2606";
  direction = b'0';
  offset_flag = b'0';
  trade_id = some "T1";
  price = 3800;
  volume = 1;
  trade_date = some "20260605";
  trade_time = some "09:30:00";
}

abbrev pub position_field : I32 → InvestorPositionField
position_field volume = record {
  instrument_id = some "IF2606";
  investor_id = some "268508";
  posi_direction = b'2';
  position = volume;
  yd_position = 0;
  open_cost = 0;
  position_cost = 0;
  use_margin = 0;
  position_profit = 0;
}

-- Query 5 is awaited beside query 6.
abbrev pub pending : PendingQuery → SharedState
pending kind = record { pending_queries = (5, kind) ∷ (6, PendingQuery.account) ∷ []; events = [] }
