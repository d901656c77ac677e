-- ===== src/Order/Row.antt =====
-- app/models/db/order_log.py and order_cash_reservation.py: the rows of the order ledger and of
-- its cash reservations. Times are numbers of a clock; a nullable column is an `Option`.
use trade_ai_server.Prelude.{ℕ, Option, String}
use trade_ai_server.Prelude.Int.{ℤ}

abbrev pub Time : Type 0
Time = ℕ

-- `OrderLog`
pub record OrderLog (D : Type 0) : Type 0 where
  pub id : ℕ
  pub request_id : String
  pub request_fingerprint : Option String
  pub symbol : String
  pub action : String
  pub qty : D
  pub price : Option D
  pub order_qty : D
  pub limit_price : Option D
  pub order_id : Option String
  pub status : String
  pub state : String
  pub mode : String
  pub order_type : String
  pub account_ref : Option String
  pub rounded_limit_price : Option D
  pub filled_qty : D
  pub last_fill_qty : D
  pub avg_price : Option D
  pub reservation_created_at : Option Time
  pub send_started_at : Option Time
  pub sent_at : Option Time
  pub finalized_at : Option Time
  pub error_code : Option String
  pub config_version : Option String
  pub profile_code : Option String
  pub matrix_message : Option String
  pub error_message : Option String

-- `OrderCashReservation`
pub record Reservation (D : Type 0) : Type 0 where
  pub request_id : String
  pub symbol : String
  pub side : String
  pub reserved_qty : ℤ
  pub remaining_qty : ℤ
  pub limit_price : D
  pub reserved_amount_tl : D
  pub status : String
  pub created_at : Time
  pub released_at : Option Time
