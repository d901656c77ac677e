-- ===== src/Order/StateMachine.antt =====
-- app/services/order_state_machine.py: the one place that decides whether a status report of the
-- gateway may be applied. A refusal carries its reason.
use trade_ai_server.Prelude.{
  ℕ, ◌≤◌, ◌≡◌, Bool, true, false, not, ◌&&◌, Option, none, some, List, [], ◌∷◌, String, arith, ltb,
  or_else, if◌then◌else◌,
}
use trade_ai_server.Prelude.Text.{
  str_eq, upper, member, member-All, lookup_word, lookup_word-All, str_eq→path,
}
use trade_ai_server.Number.{Number}

-- `FINAL`
abbrev pub final_states : List String
final_states = "FILLED" ∷ "REJECTED" ∷ "CANCELED" ∷ "CANCELLED" ∷ "EXPIRED" ∷ []

-- `RANK`
abbrev pub ranks : List (String × ℕ)
ranks =
    ("RESERVED", 1)
    ∷ ("SEND_IN_PROGRESS", 5)
    ∷ ("SENT_PENDING", 10)
    ∷ ("SEND_UNKNOWN", 15)
    ∷ ("NEW", 20)
    ∷ ("CANCEL_REQUESTED", 30)
    ∷ ("PARTIALLY_FILLED", 40)
    ∷ ("ERROR_RECONCILIATION_REQUIRED", 90)
    ∷ ("FILLED", 100)
    ∷ ("REJECTED", 100)
    ∷ ("CANCELED", 100)
    ∷ ("CANCELLED", 100)
    ∷ ("EXPIRED", 100)
    ∷ []

-- `RANK.get(status, 0)`
unfoldable pub rank : String → ℕ
rank s = or_else (lookup_word s ranks) 0

-- `status in FINAL`
unfoldable pub is_final : String → Bool
is_final s = member s final_states

-- `(current or "RESERVED").upper()`
unfoldable pub current_status : Option String → String
current_status none = "RESERVED"
current_status (some s) = upper (if str_eq s "" then "RESERVED" else s)

module _ {D : Type 0} ⦃n : Number D⦄ where
  unfoldable pub transition : Option String → String → D → D → Bool × String
  transition current incoming current_filled incoming_filled =
      let old = current_status current in
      let new = upper incoming in
      if is_final old && not (str_eq new old)
      then (false, "conflicting final event")
      else if ltb (rank new) (rank old)
      then (false, "status regression")
      else if n.lt incoming_filled current_filled
      then (false, "filled quantity regression")
      else (true, "")

-- Every final status has the highest rank.
pub rank-is_final : (s : String) → is_final s ≡ true → rank s ≡ 100
unfolding is_final rank
rank-is_final s h = member-All (λ t. rank t ≡ 100) s final_states (omega arith) h

pub rank-le : (s : String) → rank s ≤ 100
unfolding rank
rank-le s = lookup_word-All (λ r. r ≤ 100) 0 s ranks (omega arith) (omega arith)

module _ {D : Type 0} ⦃n : Number D⦄ where
  -- A report that `transition` allows has a status of at least the rank of the current one, a filled
  -- quantity that is not below the current one, and the same status if the current one is final.
  pub transition_allowed :
      (current : Option String) (incoming : String) (old_filled new_filled : D)
      → (transition current incoming old_filled new_filled).0 ≡ true
      → (rank (current_status current) ≤ rank (upper incoming))
        × (n.lt new_filled old_filled ≡ false)
        × (is_final (current_status current) ≡ true → upper incoming ≡ current_status current)
  unfolding transition
  transition_allowed current incoming old_filled new_filled h =
      ground (arith, str_eq→path (upper incoming) (current_status current))
