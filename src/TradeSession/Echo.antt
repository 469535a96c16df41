-- ===== src/TradeSession/Echo.antt =====
-- The fields of a request of crates/server/src/adapter/exchange/trade.rs, read back from a report
-- that echoes them.
use Prim.Native.Char.{code}
use Prim.Native.String.{[], ◌∷◌}
use ctp_system.Prelude.{ℕ, String, ◌≡◌, refl, ap, ◌∙◌, some, List, ok, nat_eq}
use ctp_system.Model.Enums.{
  Direction, buy, sell, OffsetFlag, opening, close, close_today, close_yesterday,
}
use ctp_system.Model.Types.{I32, OrderRequest}
use ctp_system.Model.Ctp.{direction_from_ctp, offset_from_ctp, normalize_order_ref}
use ctp_system.Model.Reports.{OrderReport}
use ctp_system.TradeSession.{
  Ctp, TradeSessionConfig, InputOrderField, direction, offset_flag, input_order,
}
use ctp_system.TradeSession.Fields.{
  OrderField, first_char, order_field_to_report, report_in, unwrap_or_default,
}

-- The bytes of an ASCII text.
abbrev pub bytes : String → List ℕ
bytes [] = List.[]
bytes (c ∷ s) = List.◌∷◌ (code c) (bytes s)

offset_from_ctp-offset_flag :
    (o : OffsetFlag) → offset_from_ctp (first_char (bytes (offset_flag o))) ≡ o
unfolding offset_from_ctp first_char offset_flag
offset_from_ctp-offset_flag opening = refl
offset_from_ctp-offset_flag close = refl
offset_from_ctp-offset_flag close_today = refl
offset_from_ctp-offset_flag close_yesterday = refl

direction_from_ctp-direction :
    (ctp : Ctp) (d : Direction)
    → ctp.d_buy ≡ b'0'
    → ctp.d_sell ≡ b'1'
    → direction_from_ctp (direction ctp d) ≡ some d
unfolding direction_from_ctp direction
direction_from_ctp-direction ctp buy h k = rw h refl
direction_from_ctp-direction ctp sell h k = rw k refl

-- The report repeats what the request set.
pub record Echoes (field : OrderField) (input : InputOrderField) : Type 0 where
  pub order_ref : field.order_ref ≡ some input.order_ref
  pub instrument_id : field.instrument_id ≡ some input.instrument_id
  pub direction : field.direction ≡ input.direction
  pub comb_offset_flag : field.comb_offset_flag ≡ bytes input.comb_offset_flag
  pub limit_price : field.limit_price ≡ input.limit_price
  pub volume : field.volume_total_original ≡ input.volume_total_original

-- The report is about the order.
pub record IsReportOn (report : OrderReport) (order : OrderRequest) : Type 0 where
  pub client_order_id : report.client_order_id ≡ normalize_order_ref order.client_order_id
  pub instrument_id : report.instrument_id ≡ order.instrument_id
  pub direction : report.direction ≡ order.direction
  pub offset : report.offset ≡ order.offset
  pub price : report.price ≡ order.price
  pub volume_total : report.volume_total ≡ order.volume

-- Where the exchange's characters for buy and sell are 0 and 1, a report that repeats the fields of
-- the request for an order can be read, and gives back the order's instrument, direction, offset,
-- price and volume, under the normal form of the order's id.
pub order_field_to_report-input_order :
    (ctp : Ctp) (c : TradeSessionConfig) (order : OrderRequest) (rid : I32) (field : OrderField)
    → ctp.d_buy ≡ b'0'
    → ctp.d_sell ≡ b'1'
    → Echoes field (input_order ctp c order rid)
    → (report : OrderReport) × (order_field_to_report field ≡ ok report) × IsReportOn report order
unfolding order_field_to_report input_order report_in
order_field_to_report-input_order ctp c order rid field h k e =
    let d : direction_from_ctp field.direction ≡ some order.direction =
      ap direction_from_ctp e.direction ∙ direction_from_ctp-direction ctp order.direction h k in
    (
      report_in field order.direction,
      simp (d, order_field_to_report),
      record {
        client_order_id = ap unwrap_or_default e.order_ref;
        instrument_id = ap unwrap_or_default e.instrument_id;
        direction = refl;
        offset =
            ap (λ b. offset_from_ctp (first_char b)) e.comb_offset_flag
            ∙ offset_from_ctp-offset_flag order.offset;
        price = e.limit_price;
        volume_total = e.volume;
      },
    )
