-- ===== src/Network/QuoteClient/Delivery.antt =====
-- What the client receives of the events of the callbacks.
use ctp_system.Prelude.{
  ℕ, String, ◌≤◌, sym, subst, ◌&&◌, Option, none, some, List, [], ◌∷◌, ◌++◌, length, length-append,
  ltb, arith, if_intro,
}
use mathlib.Core.List.{append-nil, append_assoc}
use ctp_system.Model.Types.{I32}
use ctp_system.MarketData.Task.{
  CtpEvent, front_connected, front_disconnected, heart_beat_warning, login_ok, subscribe_ok,
  login_failed, subscribe_failed, market_data, error,
}
use ctp_system.Network.Mode.{active, reconnect}
use ctp_system.TradeSession.Fields.{Text, RspInfoField, unwrap_or_default}
use ctp_system.TradeSession.Spi.{rsp_error}
use ctp_system.Network.QuoteClient.{
  CtpClientConfig, SharedState, DepthMarketDataField, connect, emit, store_mode, to_tick, text_of,
  on_front_connected, on_front_disconnected, on_heart_beat_warning, login_answer, on_rsp_user_login,
  subscribe_answer, on_rsp_sub_market_data, on_rsp_error, on_rtn_depth_market_data, recv, first,
}

-- A callback of the library, or the client that receives.
pub data Step : Type 0 where
  connects receives : Step
  disconnects heart_beats : I32 → Step
  login_answered subscribe_answered : Option Text → Option RspInfoField → Step
  fails : Option RspInfoField → I32 → Step
  ticks : Option DepthMarketDataField → Step

-- The state and what was received, oldest first.
pub record Run : Type 0 where
  pub shared : SharedState
  pub received : List CtpEvent

abbrev keep : Option CtpEvent → List CtpEvent → List CtpEvent
keep none received = received
keep (some event) received = received ++ event ∷ []

unfoldable pub step : Step → Run → Run
unfolding on_front_connected on_front_disconnected on_heart_beat_warning on_rsp_user_login
    on_rsp_sub_market_data on_rsp_error on_rtn_depth_market_data recv
step connects r = record r { shared = on_front_connected r.shared }
step (disconnects reason) r = record r { shared = on_front_disconnected reason r.shared }
step (heart_beats time_lapse) r = record r { shared = on_heart_beat_warning time_lapse r.shared }
step (login_answered day info) r = record r { shared = on_rsp_user_login day info r.shared }
step (subscribe_answered instrument info) r = record r {
  shared = on_rsp_sub_market_data instrument info r.shared;
}
step (fails info request_id) r = record r { shared = on_rsp_error info request_id r.shared }
step (ticks d) r = record r { shared = on_rtn_depth_market_data d r.shared }
step receives r =
    let (event, shared) = recv r.shared in
    record { shared = shared; received = keep event r.received }

unfoldable pub run : List Step → Run → Run
unfolding step
run [] r = r
run (s ∷ steps) r = run steps (step s r)

-- The event of a callback, if it has one.
abbrev answer : Option (I32 × String) → (I32 → String → CtpEvent) → CtpEvent → CtpEvent
answer none failed success = success
answer (some (error_id, error_msg)) failed success = failed error_id error_msg

abbrev event_of : Step → List CtpEvent
event_of connects = front_connected ∷ []
event_of receives = []
event_of (disconnects reason) = front_disconnected reason ∷ []
event_of (heart_beats time_lapse) = heart_beat_warning time_lapse ∷ []
event_of (login_answered day info) =
    answer (rsp_error info) login_failed (login_ok (text_of day)) ∷ []
event_of (subscribe_answered instrument info) =
    answer (rsp_error info) (subscribe_failed (text_of instrument))
      (subscribe_ok (text_of instrument))
    ∷ []
event_of (fails none request_id) = []
event_of (fails (some info) request_id) =
    error info.error_id (unwrap_or_default info.error_msg) request_id ∷ []
event_of (ticks none) = []
event_of (ticks (some d)) = market_data (to_tick d) ∷ []

abbrev pub events_of : List Step → List CtpEvent
events_of [] = []
events_of (s ∷ steps) = event_of s ++ events_of steps

-- Some of the elements of a list, in its order.
pub data IsPartOf {A : Type 0} : List A → List A → Type 0 where
  empty : IsPartOf [] []
  taken : {a : A} {xs ys : List A} → IsPartOf xs ys → IsPartOf (a ∷ xs) (a ∷ ys)
  dropped : {a : A} {xs ys : List A} → IsPartOf xs ys → IsPartOf xs (a ∷ ys)

taken_last :
    {A : Type 0} {xs ys : List A} (a : A) → IsPartOf xs ys → IsPartOf (xs ++ a ∷ []) (ys ++ a ∷ [])
taken_last a empty = taken empty
taken_last a (taken h) = taken (taken_last a h)
taken_last a (dropped h) = dropped (taken_last a h)

dropped_last : {A : Type 0} {xs ys : List A} (a : A) → IsPartOf xs ys → IsPartOf xs (ys ++ a ∷ [])
dropped_last a empty = dropped empty
dropped_last a (taken h) = taken (dropped_last a h)
dropped_last a (dropped h) = dropped (dropped_last a h)

-- The channel holds no more than it may, and with what was received it is part of what happened.
abbrev pub IsDelivered : List CtpEvent → List CtpEvent → SharedState → Type 0
IsDelivered happened received s =
    (length s.events ≤ s.config.event_buffer) × IsPartOf (received ++ s.events) happened

module _ (happened received : List CtpEvent) where
  emit-IsDelivered :
      (event : CtpEvent) (s : SharedState)
      → IsDelivered happened received s
      → IsDelivered (happened ++ event ∷ []) received (emit event s)
  unfolding emit
  emit-IsDelivered event s (h, k) =
      if_intro (IsDelivered (happened ++ event ∷ []) received)
        (s.is_open && ltb (length s.events) s.config.event_buffer) _ _
        (λ t. (
          ground (arith, t, length-append s.events (event ∷ [])),
          subst (λ events. IsPartOf events (happened ++ event ∷ []))
              (append_assoc received s.events (event ∷ [])) (taken_last event k),
        ))
        λ t. (h, dropped_last event k)

  login-IsDelivered :
      (failure : Option (I32 × String)) (day : String) (s : SharedState)
      → IsDelivered happened received s
      → IsDelivered
          (happened ++ answer failure login_failed (login_ok day) ∷ [])
          received
          (login_answer failure day s)
  unfolding login_answer store_mode
  login-IsDelivered none day s h = emit-IsDelivered (login_ok day) (store_mode active s) h
  login-IsDelivered (some (error_id, error_msg)) day s h =
      emit-IsDelivered (login_failed error_id error_msg) s h

  subscribe-IsDelivered :
      (failure : Option (I32 × String)) (instrument : String) (s : SharedState)
      → IsDelivered happened received s
      → IsDelivered
          (happened ++ answer failure (subscribe_failed instrument) (subscribe_ok instrument) ∷ [])
          received
          (subscribe_answer failure instrument s)
  unfolding subscribe_answer
  subscribe-IsDelivered none instrument s h = emit-IsDelivered (subscribe_ok instrument) s h
  subscribe-IsDelivered (some (error_id, error_msg)) instrument s h =
      emit-IsDelivered (subscribe_failed instrument error_id error_msg) s h

  nothing_happens :
      (s : SharedState) → IsDelivered happened received s → IsDelivered (happened ++ []) received s
  nothing_happens s h = subst (λ all. IsDelivered all received s) (sym (append-nil happened)) h

received_first :
    (happened received events : List CtpEvent)
    → IsPartOf (received ++ events) happened
    → IsPartOf (keep (first events).0 received ++ (first events).1) happened
unfolding first
received_first happened received [] h = h
received_first happened received (event ∷ events) h =
    subst (λ all. IsPartOf all happened) (sym (append_assoc received (event ∷ []) events)) h

first_shorter : (events : List CtpEvent) (n : ℕ) → length events ≤ n → length (first events).1 ≤ n
unfolding first
first_shorter [] n h = h
first_shorter (event ∷ events) n h = omega (arith, h)

step-IsDelivered :
    (s : Step) (happened : List CtpEvent) (r : Run)
    → IsDelivered happened r.received r.shared
    → IsDelivered (happened ++ event_of s) (step s r).received (step s r).shared
unfolding step store_mode
step-IsDelivered connects happened r h =
    emit-IsDelivered happened r.received front_connected (store_mode active r.shared) h
step-IsDelivered (disconnects reason) happened r h =
    emit-IsDelivered happened r.received (front_disconnected reason) (store_mode reconnect r.shared)
      h
step-IsDelivered (heart_beats time_lapse) happened r h =
    emit-IsDelivered happened r.received (heart_beat_warning time_lapse) r.shared h
step-IsDelivered (login_answered day info) happened r h =
    login-IsDelivered happened r.received (rsp_error info) (text_of day) r.shared h
step-IsDelivered (subscribe_answered instrument info) happened r h =
    subscribe-IsDelivered happened r.received (rsp_error info) (text_of instrument) r.shared h
step-IsDelivered (fails none request_id) happened r h =
    nothing_happens happened r.received r.shared h
step-IsDelivered (fails (some info) request_id) happened r h =
    emit-IsDelivered happened r.received _ r.shared h
step-IsDelivered (ticks none) happened r h = nothing_happens happened r.received r.shared h
step-IsDelivered (ticks (some d)) happened r h =
    emit-IsDelivered happened r.received (market_data (to_tick d)) r.shared h
step-IsDelivered receives happened r (h, k) =
    nothing_happens happened (step receives r).received (step receives r).shared
      (first_shorter r.shared.events _ h, received_first happened r.received r.shared.events k)

run-IsDelivered :
    (steps : List Step) (happened : List CtpEvent) (r : Run)
    → IsDelivered happened r.received r.shared
    → IsDelivered (happened ++ events_of steps) (run steps r).received (run steps r).shared
unfolding run
run-IsDelivered [] happened r h = nothing_happens happened r.received r.shared h
run-IsDelivered (s ∷ steps) happened r h =
    let rest =
      run-IsDelivered steps (happened ++ event_of s) (step s r) (step-IsDelivered s happened r h) in
    subst (λ all. IsDelivered all (run steps (step s r)).received (run steps (step s r)).shared)
      (append_assoc happened (event_of s) (events_of steps)) rest

-- Whatever callbacks come from the connect on, and however the client receives between them: the
-- channel never holds more events than its capacity, and what was received, with what still waits in
-- the channel, is part of the events of the callbacks, each at most once and in their order.
pub run-connect-IsDelivered :
    (config : CtpClientConfig) (steps : List Step)
    → IsDelivered
        (events_of steps)
        (run steps (record { shared = connect config; received = [] })).received
        (run steps (record { shared = connect config; received = [] })).shared
unfolding connect
run-connect-IsDelivered config steps =
    run-IsDelivered steps [] (record { shared = connect config; received = [] })
      (omega arith, empty)
