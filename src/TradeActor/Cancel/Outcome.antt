-- ===== src/TradeActor/Cancel/Outcome.antt =====
-- When `drive_cancel_order` of crates/server/src/actor/trade.rs returns, for a cancel with a normal id.
use ctp_system.Prelude.{
  ◌≡◌, refl, ap, ◌∙◌, Bool, true, false, not, ◌&&◌, ◌||◌, Option, sym, String, string_eq, none,
  some, List, ◌∷◌, ◌++◌, ok, arith, ◌==◌, nat_eq,
}
use ctp_system.Model.Types.{I32, CancelRequest}
use ctp_system.Model.Enums.{
  OrderStatus, submitted, accepted, partially_filled, filled, cancelled, rejected, unknown,
}
use ctp_system.Model.Ctp.Normalize.{normalize_order_ref}
use ctp_system.Model.Reports.{OrderReport, TimeParser}
use ctp_system.Server.{EnvelopeTx}
use ctp_system.TradeSession.Events.{
  TradeSessionEvent, front_disconnected, order_return, cancel_action_ok, cancel_action_failed,
}
use ctp_system.TradeActor.{Actor, Delivery, Status, returned, waiting, arrive, drive}
use ctp_system.TradeActor.Loop.{Quiet, drive-waits, drive-append, drive-return}
use ctp_system.TradeActor.Cancel.{same_id, is_target, is_terminal, cancel_event, cancel_loop}

abbrev pub final : OrderStatus → Bool
final cancelled = true
final filled = true
final rejected = true
final submitted = false
final accepted = false
final partially_filled = false
final unknown = false

-- The reference that CTP knows an order of the id by.
abbrev pub ref_of : Option String → Option String
ref_of none = none
ref_of (some client_order_id) = some (normalize_order_ref client_order_id)

abbrev is_same : Option String → Option String → Bool
is_same (some a) (some b) = a == b
is_same (some a) none = false
is_same none b = false

-- The cancel names the order of the report, by its reference or by its id at the exchange.
abbrev pub names : CancelRequest → OrderReport → Bool
names cancel report =
    is_same (ref_of cancel.client_order_id) (some report.client_order_id)
    || is_same cancel.exchange_order_id report.exchange_order_id

-- The events that end a cancel: the answer to its own request, a final report of the order that it
-- names, and a lost connection.
abbrev pub ends_cancel : CancelRequest → I32 → TradeSessionEvent → Bool
ends_cancel cancel rid (order_return report) = names cancel report && final report.status
ends_cancel cancel rid (cancel_action_ok request_id) = request_id == rid
ends_cancel cancel rid (cancel_action_failed request_id error_id msg) = request_id == rid
ends_cancel cancel rid (front_disconnected reason) = true
ends_cancel cancel rid _ = false

is_terminal-final : (status : OrderStatus) → is_terminal status ≡ final status
unfolding is_terminal
is_terminal-final submitted = refl
is_terminal-final accepted = refl
is_terminal-final partially_filled = refl
is_terminal-final filled = refl
is_terminal-final cancelled = refl
is_terminal-final rejected = refl
is_terminal-final unknown = refl

same_id-is_same : (a b : Option String) → same_id a b ≡ is_same a b
same_id-is_same (some a) (some b) = refl
same_id-is_same (some a) none = refl
same_id-is_same none b = refl

is_target-names :
    (cancel : CancelRequest) (report : OrderReport)
    → ref_of cancel.client_order_id ≡ cancel.client_order_id
    → is_target cancel report ≡ names cancel report
unfolding is_target
is_target-names cancel report n =
    ap (λ same. same || same_id cancel.exchange_order_id report.exchange_order_id)
      (same_id-is_same cancel.client_order_id (some report.client_order_id)
        ∙ ap (λ id. is_same id (some report.client_order_id)) (sym n))
    ∙ ap (λ same. is_same (ref_of cancel.client_order_id) (some report.client_order_id) || same)
        (same_id-is_same cancel.exchange_order_id report.exchange_order_id)

module _ (parse_time : TimeParser) (cancel : CancelRequest) (tx : EnvelopeTx) (rid : I32)
    (normal : ref_of cancel.client_order_id ≡ cancel.client_order_id) where
  cancel_event-again :
      (e : TradeSessionEvent) (a : Actor)
      → not (ends_cancel cancel rid e) ≡ true
      → (cancel_event parse_time cancel tx rid e a).0 ≡ none
  unfolding cancel_event
  cancel_event-again (order_return report) a h =
      ground (arith, h, is_target-names cancel report normal, is_terminal-final report.status)
  cancel_event-again _ a h = ground arith

  cancel_event-ends :
      (e : TradeSessionEvent) (a : Actor)
      → ends_cancel cancel rid e ≡ true
      → (cancel_event parse_time cancel tx rid e a).0 ≡ some (ok tt)
  unfolding cancel_event
  cancel_event-ends (order_return report) a h =
      ground (arith, h, is_target-names cancel report normal, is_terminal-final report.status)
  cancel_event-ends _ a h = ground arith

  quiet : TradeSessionEvent → Bool
  quiet e = not (ends_cancel cancel rid e)

  -- While no event that ends a cancel comes, the cancel waits.
  pub cancel_loop-waits :
      (ds : List Delivery) (a : Actor)
      → Quiet (λ e. not (ends_cancel cancel rid e)) ds
      → (cancel_loop parse_time cancel tx rid ds a).0 ≡ waiting
  unfolding cancel_loop quiet
  cancel_loop-waits ds a q =
      drive-waits arrive (cancel_event parse_time cancel tx rid) quiet cancel_event-again ds a q

  -- Where the client order id of the cancel, if it has one, is in the normal form of CTP: the cancel
  -- returns at the first event that ends it, with success and with what follows that event still to
  -- be received. Those are the answers to its own request, a report that the order it names (by the
  -- normal form of its id or by the exchange's) is cancelled, filled or rejected, and the loss of the
  -- connection.
  pub cancel_loop-ends :
      (before rest : List Delivery) (d : Delivery) (e : TradeSessionEvent) (a : Actor)
      → Quiet (λ e. not (ends_cancel cancel rid e)) before
      → d.event ≡ some e
      → ends_cancel cancel rid e ≡ true
      → (cancel_loop parse_time cancel tx rid (before ++ d ∷ rest) a).0 ≡ returned (ok tt) rest
  unfolding cancel_loop quiet
  cancel_loop-ends before rest d e a q h k =
      let body = cancel_event parse_time cancel tx rid in
      let b = arrive d (drive arrive body before a).1 in
      ap (λ (r : Status × Actor). r.0)
        (drive-append arrive body quiet cancel_event-again before (d ∷ rest) a q
          ∙ drive-return arrive body d rest (drive arrive body before a).1 e (ok tt) h
              (cancel_event-ends e b k))
