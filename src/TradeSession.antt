-- ===== src/TradeSession.antt =====
-- crates/server/src/adapter/exchange/trade.rs: one CTP trading connection. The requests are here,
-- the callbacks in `Spi`. The native library is a parameter: its constants, and the return code
-- with which it answers each request.
pub mod Events
pub mod Fields
pub mod Echo
pub mod Spi
pub mod Callbacks
use ctp_system.Prelude.{
  ℕ, ◌+◌, ◌%◌, ◌^◌, String, Bool, true, false, Option, none, some, List, [], ◌∷◌, Result, ok, err,
  Exec, pure, fail, modify, ◌>>=◌, ◌>>◌, ◌==◌, nat_eq, if◌then◌else◌,
}
use ctp_system.HashMap.{insert}
use ctp_system.Model.Enums.{
  Direction, buy, sell, OffsetFlag, opening, close, close_today, close_yesterday, OrderType, market,
  limit, fak, fok,
}
use ctp_system.Model.Types.{I32, F64, OrderRequest, CancelRequest}
use ctp_system.Model.Ctp.{normalize_order_ref}
use ctp_system.Protocol.{Failure, text, api_returned}
use Events.{PendingQuery, account, positions, orders, trades, cancel}
use Spi.{SharedState, register_query}

pub record TradeSessionConfig : Type 0 where
  pub account_id : String
  pub broker_id : String
  pub password : String
  pub app_id : String
  pub auth_code : String
  pub trade_front : String
  pub dynlib_path : String
  pub flow_path : String

pub record InputOrderField : Type 0 where
  pub broker_id : String
  pub investor_id : String
  pub user_id : String
  pub account_id : String
  pub instrument_id : String
  pub order_ref : String
  pub order_price_type : ℕ
  pub direction : ℕ
  pub comb_offset_flag : String
  pub comb_hedge_flag : String
  pub limit_price : F64
  pub volume_total_original : I32
  pub time_condition : ℕ
  pub volume_condition : ℕ
  pub min_volume : I32
  pub contingent_condition : ℕ
  pub force_close_reason : ℕ
  pub is_auto_suspend : I32
  pub user_force_close : I32
  pub is_swap_order : I32
  pub request_id : I32

-- `none` where the field keeps its default.
pub record InputOrderActionField : Type 0 where
  pub broker_id : String
  pub investor_id : String
  pub user_id : String
  pub front_id : I32
  pub session_id : I32
  pub action_flag : ℕ
  pub instrument_id : String
  pub order_sys_id : Option String
  pub order_ref : Option String
  pub request_id : I32

-- A request of the TraderApi, with the texts that its fields are set to and the request id.
pub data CtpRequest : Type 0 where
  -- broker, user, product, auth code, app
  req_authenticate : String → String → String → String → String → I32 → CtpRequest
  -- broker, user, password, product
  req_user_login : String → String → String → String → I32 → CtpRequest
  -- broker, investor, account
  req_settlement_info_confirm : String → String → String → I32 → CtpRequest
  req_order_insert : InputOrderField → I32 → CtpRequest
  req_order_action : InputOrderActionField → I32 → CtpRequest
  -- broker, investor, currency
  req_qry_trading_account : String → String → String → I32 → CtpRequest
  -- broker, investor, instrument
  req_qry_investor_position req_qry_order req_qry_trade :
      String → String → Option String → I32 → CtpRequest

pub record Ctp : Type 0 where
  pub d_buy : ℕ
  pub d_sell : ℕ
  pub opt_any_price : ℕ
  pub opt_limit_price : ℕ
  pub tc_ioc : ℕ
  pub tc_gfd : ℕ
  pub vc_cv : ℕ
  pub vc_av : ℕ
  pub cc_immediately : ℕ
  pub fcc_not_force_close : ℕ
  pub af_delete : ℕ
  pub answer : CtpRequest → I32

-- `shared` is there once `connect` has built the api; the requests made are kept, newest first.
pub record TradeSession : Type 0 where
  pub config : TradeSessionConfig
  pub shared : Option SharedState
  pub request_id : I32
  pub requests : List CtpRequest

unfoldable pub new : TradeSessionConfig → TradeSession
new config = record { config = config; shared = none; request_id = 0; requests = [] }

-- `connect`; `built` says whether the directories and the native api could be made.
unfoldable pub connect : Option Failure → Exec Failure TradeSession (Unit {0})
connect (some e) s = (err e, s)
connect none s = (ok tt, record s { shared = some (record { pending_queries = []; events = [] }) })

-- fetch_add(1) + 1 on an i32
unfoldable pub next_request_id : Exec Failure TradeSession I32
next_request_id s = let rid = (s.request_id + 1) % 2 ^ 32 in (ok rid, record s { request_id = rid })

register_in : Option SharedState → I32 → PendingQuery → Option SharedState
register_in none rid kind = none
register_in (some shared) rid kind = some (register_query rid kind shared)

-- if let Some(shared) = self.shared_state() { shared.register_query(rid, kind) }
unfoldable pub register : I32 → PendingQuery → TradeSession → TradeSession
unfolding register_in
register rid kind s = record s { shared = register_in s.shared rid kind }

unfoldable pub direction : Ctp → Direction → ℕ
direction ctp buy = ctp.d_buy
direction ctp sell = ctp.d_sell

unfoldable pub offset_flag : OffsetFlag → String
offset_flag opening = "0"
offset_flag close = "1"
offset_flag close_today = "3"
offset_flag close_yesterday = "4"

unfoldable pub order_price_type : Ctp → OrderType → ℕ
order_price_type ctp market = ctp.opt_any_price
order_price_type ctp limit = ctp.opt_limit_price
order_price_type ctp fak = ctp.opt_limit_price
order_price_type ctp fok = ctp.opt_limit_price

unfoldable pub time_condition : Ctp → OrderType → ℕ
time_condition ctp fak = ctp.tc_ioc
time_condition ctp fok = ctp.tc_ioc
time_condition ctp limit = ctp.tc_gfd
time_condition ctp market = ctp.tc_gfd

unfoldable pub volume_condition : Ctp → OrderType → ℕ
volume_condition ctp fok = ctp.vc_cv
volume_condition ctp limit = ctp.vc_av
volume_condition ctp market = ctp.vc_av
volume_condition ctp fak = ctp.vc_av

module _ (ctp : Ctp) where
  -- let rc = self.api()?.request(..); if rc != 0 { bail! } Ok(rid)
  unfoldable pub call : String → CtpRequest → I32 → Exec Failure TradeSession I32
  call name request rid s = elim s.shared [
    | none ↦ (err (text "Trade session is not connected"), s)
    | some _ ↦
        let sent = record s { requests = request ∷ s.requests } in
        let rc = ctp.answer request in
        if rc == 0 then (ok rid, sent) else (err (api_returned name rc), sent)
  ]

  unfoldable pub authenticate : Exec Failure TradeSession I32
  unfolding call next_request_id
  authenticate s =
      let c = s.config in
      (do
        rid ← next_request_id
        call "req_authenticate"
            (req_authenticate c.broker_id c.account_id "quantSystem" c.auth_code c.app_id rid) rid)
        s

  unfoldable pub login : Exec Failure TradeSession I32
  unfolding call next_request_id
  login s =
      let c = s.config in
      (do
        rid ← next_request_id
        call "req_user_login" (req_user_login c.broker_id c.account_id c.password "quantSystem" rid)
            rid)
        s

  unfoldable pub confirm_settlement : Exec Failure TradeSession I32
  unfolding call next_request_id
  confirm_settlement s =
      let c = s.config in
      (do
        rid ← next_request_id
        call "req_settlement_info_confirm"
            (req_settlement_info_confirm c.broker_id c.account_id c.account_id rid) rid)
        s

  unfoldable pub input_order : TradeSessionConfig → OrderRequest → I32 → InputOrderField
  unfolding direction offset_flag order_price_type time_condition volume_condition
  input_order c order rid = record {
    broker_id = c.broker_id;
    investor_id = c.account_id;
    user_id = c.account_id;
    account_id = c.account_id;
    instrument_id = order.instrument_id;
    order_ref = normalize_order_ref order.client_order_id;
    order_price_type = order_price_type ctp order.order_type;
    direction = direction ctp order.direction;
    comb_offset_flag = offset_flag order.offset;
    comb_hedge_flag = "1";
    limit_price = order.price;
    volume_total_original = order.volume;
    time_condition = time_condition ctp order.order_type;
    volume_condition = volume_condition ctp order.order_type;
    min_volume = 1;
    contingent_condition = ctp.cc_immediately;
    force_close_reason = ctp.fcc_not_force_close;
    is_auto_suspend = 0;
    user_force_close = 0;
    is_swap_order = 0;
    request_id = rid;
  }

  unfoldable pub insert_order : OrderRequest → Exec Failure TradeSession I32
  unfolding call next_request_id input_order
  insert_order order s =
      (do
        rid ← next_request_id
        call "req_order_insert" (req_order_insert (input_order s.config order rid) rid) rid)
        s

  unfoldable pub input_order_action :
      TradeSessionConfig → CancelRequest → I32 → I32 → I32 → InputOrderActionField
  input_order_action c request front_id session_id rid = record {
    broker_id = c.broker_id;
    investor_id = c.account_id;
    user_id = c.account_id;
    front_id = front_id;
    session_id = session_id;
    action_flag = ctp.af_delete;
    instrument_id = request.instrument_id;
    order_sys_id = request.exchange_order_id;
    order_ref = elim request.client_order_id [
      | none ↦ none
      | some id ↦ some (normalize_order_ref id)
    ];
    request_id = rid;
  }

  -- A request whose answer is awaited: the query is registered before the call.
  pending_call : PendingQuery → String → (I32 → CtpRequest) → Exec Failure TradeSession I32
  unfolding call next_request_id register
  pending_call kind name request = do
    rid ← next_request_id
    modify (register rid kind)
    call name (request rid) rid

  unfoldable pub cancel_order : CancelRequest → I32 → I32 → Exec Failure TradeSession I32
  unfolding pending_call input_order_action
  cancel_order request front_id session_id s =
      pending_call cancel "req_order_action"
        (λ rid. req_order_action (input_order_action s.config request front_id session_id rid) rid)
        s

  unfoldable pub query_trading_account : Exec Failure TradeSession I32
  unfolding pending_call
  query_trading_account s =
      pending_call account "req_qry_trading_account"
        (req_qry_trading_account s.config.broker_id s.config.account_id "CNY") s

  unfoldable pub query_investor_position : Option String → Exec Failure TradeSession I32
  unfolding pending_call
  query_investor_position instrument_id s =
      pending_call (positions []) "req_qry_investor_position"
        (req_qry_investor_position s.config.broker_id s.config.account_id instrument_id) s

  unfoldable pub query_orders : Option String → Exec Failure TradeSession I32
  unfolding pending_call
  query_orders instrument_id s =
      pending_call (orders []) "req_qry_order"
        (req_qry_order s.config.broker_id s.config.account_id instrument_id) s

  unfoldable pub query_trades : Option String → Exec Failure TradeSession I32
  unfolding pending_call
  query_trades instrument_id s =
      pending_call (trades []) "req_qry_trade"
        (req_qry_trade s.config.broker_id s.config.account_id instrument_id) s
