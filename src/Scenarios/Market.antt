-- ===== src/Scenarios/Market.antt =====
-- The theorems on market-data subscriptions at concrete inputs.
use ctp_system.Prelude.{string_eq, ◌≡◌, refl, List, [], ◌∷◌, ◌++◌, All, elem, if◌then◌else◌}
use ctp_system.HashMap.{get}
use ctp_system.Model.Types.{InstrumentId}
use ctp_system.Server.{EnvelopeTx}
use ctp_system.Protocol.{Message}
use ctp_system.MarketData.{MarketDataTick, Subscriptions, fanout_market_data_tick, tick_message}
use ctp_system.MarketData.Subscriptions.{subscribed, active, IsTidy, subscribers}
use ctp_system.MarketData.Exchange.{
  Request, subscribes, unsubscribes, disconnects, step, run, wants, changes, elem-run,
  subscribed-run,
}
use ctp_system.MarketData.Fanout.{outbound_of, holders, sent_to, fanout_lem}
use ctp_system.Scenarios.Data.{server}

abbrev if_future : InstrumentId
if_future = "IF2606"

abbrev ic_future : InstrumentId
ic_future = "IC2606"

abbrev requests : List Request
requests =
    subscribes "client-1" ("IF2606" ∷ "IC2606" ∷ [])
    ∷ subscribes "client-2" ("IF2606" ∷ [])
    ∷ unsubscribes "client-1" ("IC2606" ∷ [])
    ∷ disconnects "client-1"
    ∷ []

elem-run_example :
    elem "IF2606" (step (disconnects "client-2") (run requests [])).0
    ≡ changes
        (disconnects "client-2")
        (active "IF2606" (run requests []))
        (active "IF2606" (step (disconnects "client-2") (run requests [])).1)
elem-run_example = elem-run requests (disconnects "client-2") [] "IF2606" tt

subscribed-run_example :
    subscribed "client-2" "IF2606" (run requests [])
    ≡ wants requests "client-2" "IF2606" (subscribed "client-2" "IF2606" [])
subscribed-run_example = subscribed-run requests [] "client-2" "IF2606" tt

abbrev subs : Subscriptions
subs = ("IF2606", "client-1" ∷ []) ∷ []

subs-IsTidy : IsTidy subs
unfolding get
subs-IsTidy = (refl, refl, tt)

abbrev tick : MarketDataTick
tick = record {
  instrument_id = "IF2606";
  exchange_id = "CFFEX";
  last_price = 3800;
  volume = 10;
  turnover = 0;
  open_interest = 0;
  bid_price1 = 3799;
  bid_volume1 = 1;
  ask_price1 = 3801;
  ask_volume1 = 1;
  update_time = "09:30:00";
  update_millisec = 500;
  trading_day = "20260605";
}

fanout_lem_example :
    (new : List (EnvelopeTx × Message)) × ((fanout_market_data_tick tick server).envelopes
      ≡ new ++ server.envelopes)
    × All (λ e. e.1 ≡ tick_message tick) new
    × ((tx : EnvelopeTx)
        → sent_to tx new ≡ (
            if server.is_open tx
            then holders
                (λ c. outbound_of c server)
                tx
                (subscribers "IF2606" server.state.market_data_subscriptions)
            else 0))
    × ((fanout_market_data_tick tick server).state ≡ server.state)
fanout_lem_example = fanout_lem tick server
