-- ===== src/Lifecycle/Trail.antt =====
-- The active stop of a position over any sequence of its updates.
use trade_ai_server.Prelude.{
  ◌≡◌, Bool, true, Option, none, some, List, [], ◌∷◌, String, arith, refl, Bool-cases, inl, inr,
}
use trade_ai_server.Prelude.Text.{member}
use trade_ai_server.Prelude.Result.{Result, ok, raised}
use trade_ai_server.Number.{Number}
use trade_ai_server.Number.Laws.{IsOrdered}
use trade_ai_server.Fill.{OrderFill, to_decimal}
use trade_ai_server.Lifecycle.{PositionLifecycle}
use trade_ai_server.Lifecycle.Stop.{stop_event_types, tighter_stop, tightened, tighten_active_stop}
use trade_ai_server.Lifecycle.Rows.{merged, merged_stop, sold}

-- What updates a position: a BUY fill with the levels of its decision, a SELL fill, and a call of
-- `tighten_active_stop` with its candidate, event type and reason.
pub data Update (D : Type 0) : Type 0 where
  buy : OrderFill D → Option D × Option D → Update D
  sell : OrderFill D → Update D
  tighten : D → String → String → Update D

module _ {D : Type 0} ⦃n : Number D⦄ where
  open n use {lt, le}

  -- the row after a call that raises nothing, and the old row otherwise
  unfoldable pub row_of :
      {E : Type 0}
      → PositionLifecycle D
      → Result (Bool × PositionLifecycle D × E)
      → PositionLifecycle D
  row_of old (ok result) = result.1
  row_of old (raised _) = old

  unfoldable pub update : Update D → PositionLifecycle D → PositionLifecycle D
  unfolding row_of
  update (buy fill levels) row = merged fill levels row
  update (sell fill) row = sold fill row
  update (tighten candidate event_type reason) row =
      row_of row (tighten_active_stop row candidate event_type reason)

  unfoldable pub updated : List (Update D) → PositionLifecycle D → PositionLifecycle D
  unfolding update
  updated [] row = row
  updated (u ∷ us) row = updated us (update u row)

  -- A stop that is set stays set, and is not lowered.
  abbrev pub IsKept : Option D → Option D → Type 0
  IsKept none new = Unit
  IsKept (some old) new = (stop : D) × (new ≡ some stop) × (le old stop ≡ true)

module _ {D : Type 0} ⦃n : Number D⦄ (ordered : IsOrdered D)
    (decimal : (x : D) → to_decimal (some x) ≡ some x) where
  open n use {lt, le}

  IsKept-refl : (o : Option D) → IsKept o o
  IsKept-refl none = tt
  IsKept-refl (some s) = (s, refl, ordered.le_refl s)

  IsKept-trans : (a b c : Option D) → IsKept a b → IsKept b c → IsKept a c
  IsKept-trans none b c h k = tt
  IsKept-trans (some a) b c (s, e, l) k =
      let (t, f, m) = rw e at k in (t, f, ordered.le_trans a s t l m)

  merged_stop-IsKept : (old stop : Option D) → IsKept old (merged_stop old stop)
  unfolding merged_stop
  merged_stop-IsKept none stop = tt
  merged_stop-IsKept (some old) none = IsKept-refl (some old)
  merged_stop-IsKept (some old) (some stop) = elim (Bool-cases (lt old stop)) [
    | inl e ↦ rw (e, e) (stop, refl, ordered.le_of_lt old stop e)
    | inr e ↦ (
      old,
      ground (arith, e, ordered.lt-not-le old old, ordered.le_refl old),
      ordered.le_refl old,
    )
  ]

  tighter_stop-above :
      (old candidate stop : D) → tighter_stop (some old) candidate ≡ some stop → le old stop ≡ true
  unfolding tighter_stop
  tighter_stop-above old candidate stop h =
      let price = n.quantize 10 candidate in
      ground (arith, ordered.lt-not-le old price, ordered.le_of_lt old price)

  tighter_stop-IsKept :
      (old : Option D) (candidate stop : D)
      → tighter_stop (to_decimal old) candidate ≡ some stop
      → IsKept old (some stop)
  tighter_stop-IsKept none candidate stop h = tt
  tighter_stop-IsKept (some old) candidate stop h =
      (stop, refl, tighter_stop-above old candidate stop (rw decimal at h))

  tightened-IsKept :
      (row : PositionLifecycle D) (event_type reason : String) (price : Option D)
      → ((stop : D) → price ≡ some stop → IsKept row.active_stop_loss (some stop))
      → IsKept row.active_stop_loss (tightened row event_type reason price).1.active_stop_loss
  unfolding tightened
  tightened-IsKept row event_type reason none h = IsKept-refl row.active_stop_loss
  tightened-IsKept row event_type reason (some stop) h = h stop refl

  tighten-IsKept :
      (row : PositionLifecycle D) (candidate : D) (event_type reason : String)
      → IsKept row.active_stop_loss
          (row_of row (tighten_active_stop row candidate event_type reason)).active_stop_loss
  unfolding row_of tighten_active_stop
  tighten-IsKept row candidate event_type reason =
      elim (Bool-cases (member event_type stop_event_types)) [
        | inl e ↦
            rw (e, decimal)
              (tightened-IsKept row event_type reason
                (tighter_stop (to_decimal row.active_stop_loss) candidate)
                (tighter_stop-IsKept row.active_stop_loss candidate))
        | inr e ↦ rw e (IsKept-refl row.active_stop_loss)
      ]

  sold-active_stop :
      (fill : OrderFill D) (row : PositionLifecycle D)
      → (sold fill row).active_stop_loss ≡ row.active_stop_loss
  unfolding sold
  sold-active_stop fill row = ground arith

  update-IsKept :
      (u : Update D) (row : PositionLifecycle D)
      → IsKept row.active_stop_loss (update u row).active_stop_loss
  unfolding update merged
  update-IsKept (buy fill levels) row = merged_stop-IsKept row.active_stop_loss levels.0
  update-IsKept (sell fill) row = rw sold-active_stop (IsKept-refl row.active_stop_loss)
  update-IsKept (tighten candidate event_type reason) row =
      tighten-IsKept row candidate event_type reason

  -- Over any sequence of BUY fills, SELL fills and calls of `tighten_active_stop`, the active stop of
  -- a position that has one is never removed and ends at least as high as it began. Numbers are in a
  -- total order and `to_decimal` gives them back as they are.
  pub updated-IsKept :
      (us : List (Update D)) (row : PositionLifecycle D)
      → IsKept row.active_stop_loss (updated us row).active_stop_loss
  unfolding updated
  updated-IsKept [] row = IsKept-refl row.active_stop_loss
  updated-IsKept (u ∷ us) row =
      IsKept-trans row.active_stop_loss (update u row).active_stop_loss
        (updated us (update u row)).active_stop_loss (update-IsKept u row)
        (updated-IsKept us (update u row))
