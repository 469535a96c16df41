-- ===== src/Scenarios/Network.antt =====
-- The theorems on the market-data task and on reconnecting at concrete inputs.
use ctp_system.Prelude.{
  ℕ, ◌+◌, ◌≤◌, string_eq, nat_eq, ◌≡◌, refl, true, false, some, List, [], ◌∷◌, ◌++◌, All, elem,
}
use ctp_system.HashMap.{get, keys}
use ctp_system.Server.{subscribe}
use ctp_system.MarketData.Subscriptions.{IsTidy, active}
use ctp_system.MarketData.Task.{
  MdTask, MdDelivery, CtpEvent, front_connected, login_ok, handle_market_data_event,
  handle_market_data_command,
}
use ctp_system.MarketData.Task.Login.{
  resubscription, login_ok-resubscribes, CommandOutcome, handle_market_data_command-CommandOutcome,
}
use ctp_system.Network.Backoff.{ExponentialBackoff, new, reset, from_millis}
use ctp_system.Network.Backoff.Bounds.{delays, attempts, delays_lem}
use ctp_system.Scenarios.Data.{server}

abbrev task : MdTask
task = record { md = record { request_id = 0; requests = [] }; logged_in = false; server = server }

server-IsTidy : IsTidy server.state.market_data_subscriptions
unfolding get
server-IsTidy = (refl, refl, tt)

login_ok-resubscribes_example :
    ((handle_market_data_event (λ r. 0) (login_ok "20260605") task).1.md.requests
      ≡ resubscription task ++ task.md.requests)
    × ((handle_market_data_event (λ r. 0) (login_ok "20260605") task).1.logged_in ≡ true)
    × (elem "IF2606" (keys server.state.market_data_subscriptions)
        ≡ active "IF2606" server.state.market_data_subscriptions)
login_ok-resubscribes_example =
    login_ok-resubscribes (λ r. 0) "20260605" task "IF2606" server-IsTidy

abbrev arrives : CtpEvent → MdDelivery
arrives e = record { event = some e; others = λ w. w }

abbrev answers : List MdDelivery
answers = arrives front_connected ∷ arrives (login_ok "20260605") ∷ []

handle_market_data_command-CommandOutcome_example :
    CommandOutcome
      (λ r. 0)
      (subscribe ("IC2606" ∷ []))
      task
      (handle_market_data_command (λ r. 0) (subscribe ("IC2606" ∷ [])) answers task)
handle_market_data_command-CommandOutcome_example =
    handle_market_data_command-CommandOutcome (λ r. 0) (subscribe ("IC2606" ∷ [])) answers task

-- A delay that doubles, from half a second to at most 10 seconds, with up to 100 ms of jitter.
abbrev backoff : ExponentialBackoff
backoff = record {
  delay_initial = 500000000;
  delay_max = 10000000000;
  delay_current = 500000000;
  factor = 2;
  jitter_ms = 100;
  immediate_reconnect = true;
}

abbrev grow : ℕ → ℕ → ℕ
grow current factor = 1000

delays_lem_example :
    All
      (λ delay. (500000000 ≤ delay) × (delay ≤ 10000000000 + from_millis 100))
      (delays grow (7 ∷ 8 ∷ []) (reset (attempts grow (5 ∷ 6 ∷ []) backoff)))
unfolding new
delays_lem_example =
    delays_lem grow (λ f. true) 500000000 10000000000 2 100 true backoff (5 ∷ 6 ∷ []) (7 ∷ 8 ∷ [])
      refl
