-- ===== src/AiCallGate.antt =====
-- app/services/ai_call_gate.py and app/models/db/ai_call_claim.py: one call of the language model for a
-- symbol, a bar and a setup. `nat_text` and `int_text` are the texts of numbers, and a time is its
-- timestamp in whole seconds. The hash of a setup is not modelled.
pub mod Once
use Prim.Native.String
use trade_ai_server.Prelude.{
  ℕ, zero, suc, Bool, true, false, ◌&&◌, Option, none, some, List, [], ◌∷◌, ◌++◌, String,
  if◌then◌else◌, exists, ◌-◌, ◌%◌,
}
use trade_ai_server.Prelude.Int.{ℤ}
use trade_ai_server.Prelude.Text.{str_eq, upper}
use trade_ai_server.Order.Row.{Time}

-- the fields of `SignalRequest` that name a bar
pub record BarTimes : Type 0 where
  pub indicator_period_seconds : Option ℕ
  pub actual_bar_period_seconds : Option ℕ
  pub bar_event_utc : Option Time
  pub actual_bar_period : Option String
  pub bar_data_index : Option ℤ

-- `a or b`, of periods
unfoldable pub period_of : Option ℕ → Option ℕ → Option ℕ
period_of none b = b
period_of (some zero) b = b
period_of (some (suc n)) b = some (suc n)

module _ (nat_text : ℕ → String) (int_text : ℤ → String) where
  unfoldable pub index_key : Option String → Option ℤ → Option String
  index_key none index = none
  index_key (some period) none = none
  index_key (some period) (some index) =
      if str_eq period ""
      then none
      else some (String.◌++◌ period (String.◌++◌ ":" (int_text index)))

  unfoldable pub bar_key : Option Time → Option ℕ → Option String → Option String
  bar_key none period other = other
  bar_key (some epoch) none other = other
  bar_key (some epoch) (some zero) other = other
  bar_key (some epoch) (some (suc n)) other = some (nat_text (epoch - epoch % suc n))

  -- `resolve_bar_key`
  unfoldable pub resolve_bar_key : BarTimes → Option String
  unfolding bar_key index_key period_of
  resolve_bar_key request =
      bar_key request.bar_event_utc
        (period_of request.indicator_period_seconds request.actual_bar_period_seconds)
        (index_key request.actual_bar_period request.bar_data_index)

-- `AiCallClaim`
pub record AiCallClaim : Type 0 where
  pub symbol : String
  pub bar_key : String
  pub setup_fingerprint : String
  pub evaluation_purpose : Option String
  pub created_at : Time

-- the columns of the unique constraint
unfoldable pub is_claim_of : String → String → String → AiCallClaim → Bool
is_claim_of symbol bar_key setup_fingerprint claim =
    str_eq claim.symbol symbol
    && str_eq claim.bar_key bar_key
    && str_eq claim.setup_fingerprint setup_fingerprint

-- the insertion, which the unique constraint refuses where the claim is there already
unfoldable pub insert_claim : AiCallClaim → List AiCallClaim → Bool × List AiCallClaim
unfolding is_claim_of
insert_claim claim claims =
    if exists (is_claim_of claim.symbol claim.bar_key claim.setup_fingerprint) claims
    then (false, claims)
    else (true, claims ++ (claim ∷ []))

-- `try_claim_ai_call`
unfoldable pub try_claim_ai_call :
    Time
    → String
    → Option String
    → String
    → Option String
    → List AiCallClaim
    → Bool × List AiCallClaim
unfolding insert_claim
try_claim_ai_call now symbol none setup_fingerprint evaluation_purpose claims = (true, claims)
try_claim_ai_call now symbol (some key) setup_fingerprint evaluation_purpose claims =
    insert_claim
      (record {
        symbol = upper symbol;
        bar_key = key;
        setup_fingerprint = setup_fingerprint;
        evaluation_purpose = evaluation_purpose;
        created_at = now;
      })
      claims
