-- ===== src/Client/Main.antt =====
-- The helpers of crates/client/src/main.rs. The environment, text functions, parsers and the
-- arithmetic of f64 are parameters; the program itself is not modelled.
use ctp_system.Prelude.{
  ℕ, ◌%◌, String, Bool, true, false, ◌||◌, Option, none, some, unwrap_or, List, [], ◌∷◌, map,
  Result, ok, err, ◌==◌, string_eq, if◌then◌else◌,
}
use ctp_system.Model.Enums.{
  Direction, buy, sell, opening, limit, OrderStatus, submitted, accepted, partially_filled, filled,
  cancelled, rejected,
}
use ctp_system.Model.Types.{I32, F64, AccountId, InstrumentId, OrderRequest}

pub data OrderError : Type 0 where
  no_instrument no_price : OrderError
  invalid_direction : String → OrderError
  not_a_number : String → OrderError
  not_present not_configured : String → OrderError

infixl 5 ◌>>=◌
◌>>=◌ : {A B : Type 0} → Result OrderError A → (A → Result OrderError B) → Result OrderError B
ok a >>= f = f a
err e >>= f = err e

ok_or : {A : Type 0} → OrderError → Option A → Result OrderError A
ok_or e none = err e
ok_or e (some a) = ok a

unfoldable pub non_empty : List String → List String
non_empty [] = []
non_empty (s ∷ ss) = let rest = non_empty ss in if s == "" then rest else s ∷ rest

-- With the variable's value; `value.contains` is a parameter.
unfoldable pub required_env :
    (String → String) → (String → String → Bool) → String → Option String → Result OrderError String
required_env trim contains name none = err (not_present name)
required_env trim contains name (some value) =
    if trim value == "" || contains value "your-" || contains value "your_"
    then err (not_configured name)
    else ok value

-- `value.split(',')` and `str::trim` are the parameters.
unfoldable pub parse_instruments :
    (String → List String) → (String → String) → String → List InstrumentId
unfolding non_empty
parse_instruments split trim value = non_empty (map trim (split value))

-- (price * 0.98).floor().max(1.0) and (price * 1.02).ceil()
unfoldable pub passive_limit_price : (F64 → F64) → (F64 → F64) → F64 → Direction → F64
passive_limit_price below above last_price buy = below last_price
passive_limit_price below above last_price sell = above last_price

unfoldable pub is_cancelable_status : OrderStatus → Bool
is_cancelable_status submitted = true
is_cancelable_status accepted = true
is_cancelable_status partially_filled = true
is_cancelable_status status = false

unfoldable pub is_terminal_status : OrderStatus → Bool
is_terminal_status cancelled = true
is_terminal_status filled = true
is_terminal_status rejected = true
is_terminal_status status = false

unfoldable pub parse_direction : (String → String) → String → Result OrderError Direction
parse_direction to_ascii_lowercase value =
    let lower = to_ascii_lowercase value in
    if lower == "buy" || lower == "b"
    then ok buy
    else if lower == "sell" || lower == "s"
    then ok sell
    else err (invalid_direction value)

-- optional_env_f64 and optional_env_i32, by the parser.
unfoldable pub optional_env :
    {A : Type 0}
    → (String → Option A)
    → (String → String)
    → Option String
    → Result OrderError (Option A)
optional_env parse trim none = ok none
optional_env parse trim (some value) =
    if trim value == ""
    then ok none
    else elim (parse value) [ none ↦ err (not_a_number value) | some a ↦ ok (some a) ]

-- What the program takes from outside.
pub record Outside : Type 0 where
  pub var : String → Option String
  pub trim : String → String
  pub to_ascii_lowercase : String → String
  pub parse_f64 : String → Option F64
  pub parse_i32 : String → Option I32
  pub below : F64 → F64
  pub above : F64 → F64
  pub show : ℕ → String
  pub now : ℕ

or_instrument : Option String → Option (InstrumentId × F64) → Option InstrumentId
or_instrument (some instrument) last_tick = some instrument
or_instrument none none = none
or_instrument none (some (instrument, price)) = some instrument

price_of : Option (InstrumentId × F64) → Option F64
price_of none = none
price_of (some (instrument, price)) = some price

unfoldable pub build_passive_test_order :
    Outside → AccountId → Option (InstrumentId × F64) → Result OrderError OrderRequest
unfolding ◌>>=◌ ok_or or_instrument price_of parse_direction passive_limit_price optional_env
build_passive_test_order o account_id last_tick = do
  instrument_id ← ok_or no_instrument (or_instrument (o.var "CTP_TEST_ORDER_INSTRUMENT") last_tick)
  direction ←
      parse_direction o.to_ascii_lowercase (unwrap_or (o.var "CTP_TEST_ORDER_DIRECTION") "Buy")
  last_price ← ok_or no_price (price_of last_tick)
  price ← optional_env o.parse_f64 o.trim (o.var "CTP_TEST_ORDER_PRICE")
  volume ← optional_env o.parse_i32 o.trim (o.var "CTP_TEST_ORDER_VOLUME")
  ok (record {
    client_order_id = o.show (o.now % 1000000000000);
    account_id = account_id;
    instrument_id = instrument_id;
    direction = direction;
    offset = opening;
    order_type = limit;
    volume = unwrap_or volume 1;
    price = unwrap_or price (passive_limit_price o.below o.above last_price direction);
  })
