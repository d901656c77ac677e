-- ===== src/Order/Ledger.antt =====
-- app/services/order_ledger.py: an order is reserved under its request before it is sent. `sha256`
-- and the texts of numbers are parameters, and so is what other transactions commit before the
-- insertion.
pub mod Sent
pub mod Once
pub mod Trace
use Prim.Native.String
use trade_ai_server.Prelude.{
  ℕ, ◌≡◌, Bool, true, false, not, ◌&&◌, ◌||◌, Option, none, some, List, [], ◌∷◌, ◌++◌, String,
  if◌then◌else◌, select, on_some,
}
use trade_ai_server.Prelude.Int.{ℤ}
use trade_ai_server.Prelude.Text.{str_eq, upper, strip, member}
use trade_ai_server.Prelude.Table.{row_at, put}
use trade_ai_server.Prelude.Result.{
  Result, ok, raised, value_error, runtime_error, multiple_rows, ◌>>=◌, ◌>>◌, raise_if,
}
use trade_ai_server.Number.{Number, nought}
use trade_ai_server.Order.Row.{OrderLog, Reservation, Time}
use trade_ai_server.Order.StateMachine.{final_states}
use trade_ai_server.Order.Reservation.{pending_states, sync_cash_reservation, Synced}

-- What `reserve_order` is given, and the code outside: `hashlib.sha256`, `str` of an integer,
-- `format(x, "f")`, the id of a new row, and what is committed before the insertion.
pub record Outside (D : Type 0) : Type 0 where
  pub sha256 : String → String
  pub int_text : ℤ → String
  pub fixed_text : D → String
  pub new_id : List (OrderLog D) → ℕ
  pub committed : List (OrderLog D) → List (OrderLog D)

pub record OrderRequest (D : Type 0) : Type 0 where
  pub request_id : String
  pub symbol : String
  pub side : String
  pub qty : D
  pub limit_price : D
  pub mode : String
  pub order_type : String
  pub config_version : Option String
  pub profile_code : Option String
  pub account_ref : Option String

-- The row, whether it may be sent, and the rejection.
pub record Reserved (D : Type 0) : Type 0 where
  pub row : OrderLog D
  pub may_send : Bool
  pub rejection : Option String

-- `s or None`
abbrev text_or_none : Option String → Option String
text_or_none none = none
text_or_none (some s) = if str_eq s "" then none else some s

-- `row.request_fingerprint and row.request_fingerprint != fp`
unfoldable pub differs : Option String → String → Bool
differs none fp = false
differs (some old) fp = not (str_eq old "") && not (str_eq old fp)

abbrev bar : String → String → String
bar s t = String.◌++◌ s (String.◌++◌ "|" t)

module _ {D : Type 0} ⦃n : Number D⦄ where
  open n use {le, eq, is_finite, whole, of_int, round_half_up, to_decimal, to_float}

  abbrev pub order_at : String → List (OrderLog D) → Option (OrderLog D)
  order_at = row_at (λ row. row.request_id)

  -- `fingerprint`: the hash, and the limit price in whole kuruş
  unfoldable pub fingerprint : Outside D → OrderRequest D → String × D
  fingerprint env request =
      let rounded = round_half_up 2 (to_decimal request.limit_price) in
      let payload = bar (upper (strip request.symbol)) (
        bar (upper (strip request.side)) (
          bar (env.int_text (whole request.qty)) (
            bar (env.fixed_text rounded)
              (bar (upper (strip request.mode)) (upper (strip request.order_type)))))) in
      (env.sha256 payload, to_float rounded)

  -- the orders of the same symbol and side that are not final
  unfoldable pub is_pending_of : String → String → OrderLog D → Bool
  is_pending_of symbol side row =
      str_eq row.symbol symbol && str_eq row.action side && member row.status pending_states

  -- `.scalar_one_or_none()`
  unfoldable pub one_or_none : List (OrderLog D) → Result (Option (OrderLog D))
  one_or_none [] = ok none
  one_or_none (row ∷ []) = ok (some row)
  one_or_none (row ∷ other ∷ rows) = raised multiple_rows

  unfoldable pub reserved_row : Outside D → Time → OrderRequest D → String → ℕ → OrderLog D
  unfolding fingerprint
  reserved_row env now request request_id id = record {
    id = id;
    request_id = request_id;
    request_fingerprint = some (fingerprint env request).0;
    symbol = upper (strip request.symbol);
    action = upper (strip request.side);
    qty = to_float request.qty;
    price = some (to_float request.limit_price);
    order_qty = to_float request.qty;
    limit_price = some (to_float request.limit_price);
    order_id = none;
    status = "RESERVED";
    state = "RESERVED";
    mode = upper (strip request.mode);
    order_type = upper (strip request.order_type);
    account_ref = text_or_none request.account_ref;
    rounded_limit_price = some (fingerprint env request).1;
    filled_qty = nought;
    last_fill_qty = nought;
    avg_price = none;
    reservation_created_at = some now;
    send_started_at = none;
    sent_at = none;
    finalized_at = none;
    error_code = none;
    config_version = request.config_version;
    profile_code = request.profile_code;
    matrix_message = none;
    error_message = none;
  }

  -- a request that has a row already
  unfoldable pub repeated : OrderLog D → Bool → Reserved D
  repeated row mismatch = record {
    row = row;
    may_send = false;
    rejection = if mismatch then some "requestId fingerprint mismatch" else none;
  }

  -- the insertion with `on_conflict_do_nothing`, and the row that is read back
  unfoldable pub inserted :
      Outside D
      → Time
      → OrderRequest D
      → String
      → List (OrderLog D)
      → Option (OrderLog D)
      → Reserved D × List (OrderLog D)
  unfolding repeated reserved_row
  inserted env now request request_id table (some row) = (
    repeated row
        (not (on_some (λ old. str_eq old (fingerprint env request).0) row.request_fingerprint)),
    table,
  )
  inserted env now request request_id table none =
      let row = reserved_row env now request request_id (env.new_id table) in
      (record { row = row; may_send = true; rejection = none }, table ++ (row ∷ []))

  unfoldable pub reserve_new :
      Outside D
      → Time
      → OrderRequest D
      → String
      → List (OrderLog D)
      → Option (OrderLog D)
      → Reserved D × List (OrderLog D)
  unfolding inserted
  reserve_new env now request request_id table (some pending) = (
    record { row = pending; may_send = false; rejection = some "pending symbol+side order exists" },
    table,
  )
  reserve_new env now request request_id table none =
      let committed = env.committed table in
      inserted env now request request_id committed (order_at request_id committed)

  unfoldable pub reserve_at :
      Outside D
      → Time
      → OrderRequest D
      → String
      → List (OrderLog D)
      → Option (OrderLog D)
      → Result (Reserved D × List (OrderLog D))
  unfolding repeated is_pending_of one_or_none reserve_new differs
  reserve_at env now request request_id table (some row) =
      ok (repeated row (differs row.request_fingerprint (fingerprint env request).0), table)
  reserve_at env now request request_id table none = do
    pending ←
        one_or_none
          (select (is_pending_of (upper (strip request.symbol)) (upper (strip request.side))) table)
    ok (reserve_new env now request request_id table pending)

  -- the checks of the arguments
  unfoldable pub check_request : OrderRequest D → Result (Unit {0})
  check_request request = do
    raise_if (str_eq (strip request.request_id) "") (value_error "request_id is required")
    raise_if
        (not (is_finite request.qty)
          || le request.qty nought
          || not (eq (of_int (whole request.qty)) (to_float request.qty)))
        (value_error "qty must be a positive integer")
    raise_if (not (is_finite request.limit_price) || le request.limit_price nought)
        (value_error "limit_price must be finite and positive")

  -- `reserve_order`
  unfoldable pub reserve_order :
      Outside D
      → Time
      → OrderRequest D
      → List (OrderLog D)
      → Result (Reserved D × List (OrderLog D))
  unfolding reserve_at check_request
  reserve_order env now request table =
      let request_id = strip request.request_id in
      check_request request
      >> reserve_at env now request request_id table (order_at request_id table)
