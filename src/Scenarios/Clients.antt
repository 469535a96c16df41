-- ===== src/Scenarios/Clients.antt =====
-- The theorems on the clients at concrete inputs.
use ctp_system.Prelude.{
  unwrap_or, ◌⊎◌, ◌≡◌, refl, String, true, false, none, List, [], ◌∷◌, ◌++◌, elem, string_eq,
  Result, ok, arith,
}
use ctp_system.Protocol
use ctp_system.Protocol.{Failure, Envelope, Message}
use ctp_system.Network.Frame.{Bytes}
use ctp_system.Network.TcpClient.{TcpClient, start}
use ctp_system.Gateway.Writer.{write_loop}
use ctp_system.Client
use ctp_system.Client.{ClientConnection, Encoder}
use ctp_system.Client.Inbound.{read_all, read_all-write_loop}
use ctp_system.Client.Trading
use ctp_system.Client.Trading.{TradingClient, Stamps, connect}
use ctp_system.Client.Trading.Calls
use ctp_system.Client.MarketData
use ctp_system.Client.MarketData.{MarketDataClient}
use ctp_system.Client.MarketData.Replay.{Restores, subscribed-run-connect}
use ctp_system.Client.MarketData.Restore
use ctp_system.Client.MarketData.Restore.{wanted}
use ctp_system.Scenarios.Data.{credentials, order}
use ctp_system.Client.Trading.Greeting
use ctp_system.Client.Trading.Greeting.{calls, acts}
use ctp_system.Client.Trading.Greeting.First.{BeginsWithHello, run-connect-BeginsWithHello}
use ctp_system.Network.TcpClient.Replay.{replayed, since}
use ctp_system.Network.TcpClient.Run.{
  reader_ends, writer_receives, writer_writes, controller_wakes, connect_answers, writer_swapped,
}
use ctp_system.Scenarios.Transport.{backoff, grow}

abbrev transport : TcpClient
transport = start none none backoff 1

abbrev tick : Envelope
tick = Protocol.new "r-1" 1000 (Message.query_orders "268508")

abbrev encode : Envelope → Result Failure Bytes
encode e = ok (1 ∷ 2 ∷ [])

abbrev decode : Bytes → Result String Envelope
decode payload = ok tick

read_all-write_loop_example :
    ((write_loop encode (tick ∷ tick ∷ [])).1 ≡ ok tt)
    × ((read_all decode (write_loop encode (tick ∷ tick ∷ [])).0 (Client.new transport)).inbound
        ≡ (Client.new transport).inbound ++ tick ∷ tick ∷ [])
read_all-write_loop_example =
    read_all-write_loop encode decode (tick ∷ tick ∷ []) (Client.new transport)
      ((1 ∷ 2 ∷ [], refl, refl, omega arith), ((1 ∷ 2 ∷ [], refl, refl, omega arith), tt))

abbrev to_vec : Encoder
to_vec e = ok (1 ∷ 2 ∷ [])

abbrev stamps : Stamps
stamps k = ("r-1", 1000)

abbrev trading : TradingClient
trading = Trading.new "client-1" "127.0.0.1:9000"

abbrev turns : List Calls.Turn
turns =
    record { stamps = stamps; wakes = []; call = Calls.login_account credentials }
    ∷ record { stamps = stamps; wakes = []; call = Calls.place_order order }
    ∷ []

-- A login, a lost connection, and the frames on the next one.
abbrev happenings : List Greeting.Happening
happenings =
    calls stamps (Calls.login_account credentials)
    ∷ acts reader_ends
    ∷ acts writer_receives
    ∷ acts writer_receives
    ∷ acts (controller_wakes 7)
    ∷ acts (connect_answers (ok 2))
    ∷ acts writer_receives
    ∷ acts (writer_swapped [])
    ∷ acts writer_receives
    ∷ acts (writer_writes true)
    ∷ []

abbrev reconnected : ClientConnection
reconnected =
    unwrap_or
      (Greeting.run grow to_vec happenings
        (connect to_vec stamps [] (ok transport) trading).1).connection
      (Client.new transport)

run-connect-BeginsWithHello_example :
    (replayed reconnected.transport.log ≡ [])
    ⊎ BeginsWithHello to_vec
        (Greeting.run grow to_vec happenings
          (connect to_vec stamps [] (ok transport) trading).1).client_id
        reconnected.transport.log
unfolding connect start Trading.new Greeting.run
run-connect-BeginsWithHello_example =
    run-connect-BeginsWithHello to_vec grow none none backoff 1 stamps happenings trading
      reconnected refl refl

-- There the hello has been written on the second connection.
reconnected_frames : since reconnected.transport.log ≡ (2, 1 ∷ 2 ∷ []) ∷ []
unfolding connect start Trading.new Greeting.run since
reconnected_frames = refl

abbrev quotes : MarketDataClient
quotes = record {
  client_id = "client-2";
  server_addr = "127.0.0.1:9001";
  connection = none;
  subscriptions = [];
}

abbrev subscriptions : List Restore.Turn
subscriptions =
    record { stamps = stamps; wakes = []; call = Restore.subscribe ("IF2606" ∷ "IC2606" ∷ []) }
    ∷ record { stamps = stamps; wakes = []; call = Restore.unsubscribe ("IC2606" ∷ []) }
    ∷ []

subscribed-run-connect_example :
    let connected = (MarketData.connect to_vec stamps [] (ok transport) quotes).1 in
    Restores to_vec
      (Restore.run to_vec subscriptions connected)
      []
      "IF2606"
      (wanted to_vec subscriptions connected "IF2606" (elem "IF2606" connected.subscriptions))
unfolding MarketData.connect start
subscribed-run-connect_example =
    subscribed-run-connect to_vec stamps [] transport subscriptions quotes [] "IF2606"
      (λ e. (1 ∷ 2 ∷ [], refl)) refl tt

-- What the client wants is what it asked for and did not give back.
wanted_subscribed :
    wanted to_vec subscriptions
      (MarketData.connect to_vec stamps [] (ok transport) quotes).1
      "IF2606"
      false
    ≡ true
unfolding MarketData.connect Restore.perform start Client.new
wanted_subscribed = refl
