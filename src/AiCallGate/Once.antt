-- ===== src/AiCallGate/Once.antt =====
-- A setup on a bar is claimed once, however often and in whatever order it is asked for.
use trade_ai_server.Prelude.{
  ◌≡◌, refl, Bool, true, false, not, ◌&&◌, ◌||◌, Option, none, some, List, [], ◌∷◌, ◌++◌, String,
  arith, if◌then◌else◌, exists, select, length, and_true, Bool-cases, inl, inr,
}
use trade_ai_server.Prelude.Text.{str_eq, str_eq→path, upper}
use trade_ai_server.Order.Row.{Time}
use trade_ai_server.AiCallGate.{AiCallClaim, is_claim_of, insert_claim, try_claim_ai_call}

-- The arguments of `try_claim_ai_call`.
pub record ClaimCall : Type 0 where
  pub at : Time
  pub symbol : String
  pub bar : Option String
  pub setup_fingerprint : String
  pub evaluation_purpose : Option String

unfoldable pub claimed : ClaimCall → List AiCallClaim → Bool × List AiCallClaim
claimed call claims =
    try_claim_ai_call call.at call.symbol call.bar call.setup_fingerprint call.evaluation_purpose
      claims

-- The answers to some calls, each with its call.
unfoldable pub answers : List ClaimCall → List AiCallClaim → List (ClaimCall × Bool)
unfolding claimed
answers [] claims = []
answers (call ∷ calls) claims =
    let result = claimed call claims in (call, result.0) ∷ answers calls result.1

unfoldable pub is_bar : String → Option String → Bool
is_bar key none = false
is_bar key (some bar) = str_eq bar key

-- Whether a call is about a symbol, a bar and a setup.
unfoldable pub is_about : String → String → String → ClaimCall → Bool
unfolding is_bar
is_about symbol key setup call =
    str_eq (upper call.symbol) symbol && is_bar key call.bar && str_eq call.setup_fingerprint setup

exists-append {ℓ} :
    {A : Type ℓ} (p : A → Bool) (xs : List A) (y : A)
    → exists p (xs ++ (y ∷ [])) ≡ (exists p xs || p y)
exists-append p [] y = ground arith
exists-append p (x ∷ xs) y = ground (arith, exists-append p xs y)

module _ (symbol key setup : String) where
  mine_lem :
      (claim : AiCallClaim)
      → is_claim_of symbol key setup claim ≡ true
      → is_claim_of claim.symbol claim.bar_key claim.setup_fingerprint
        ≡ is_claim_of symbol key setup
  unfolding is_claim_of
  mine_lem claim h =
      let (first, f) =
        and_true (str_eq claim.symbol symbol && str_eq claim.bar_key key)
          (str_eq claim.setup_fingerprint setup) h in
      let (s, k) = and_true (str_eq claim.symbol symbol) (str_eq claim.bar_key key) first in
      rw (str_eq→path claim.symbol symbol s) (
        rw (str_eq→path claim.bar_key key k)
          (rw (str_eq→path claim.setup_fingerprint setup f) refl))

  insert_claim_lem :
      (claim : AiCallClaim) (claims : List AiCallClaim)
      → (exists (is_claim_of symbol key setup) (insert_claim claim claims).1
          ≡ (exists (is_claim_of symbol key setup) claims || is_claim_of symbol key setup claim))
        × ((is_claim_of symbol key setup claim && (insert_claim claim claims).0) ≡ (
            is_claim_of symbol key setup claim
            && not (exists (is_claim_of symbol key setup) claims)))
  unfolding insert_claim
  insert_claim_lem claim claims =
      let grown = exists-append (is_claim_of symbol key setup) claims claim in
      elim (Bool-cases (is_claim_of symbol key setup claim)) [
        | inl e ↦ let same = mine_lem claim e in rw same (ground (arith, e, grown))
        | inr e ↦
            let found =
              exists (is_claim_of claim.symbol claim.bar_key claim.setup_fingerprint) claims in
            elim (Bool-cases found) [
              | inl f ↦ rw f (ground (arith, e, grown))
              | inr f ↦ rw f (ground (arith, e, grown))
            ]
      ]

  -- the claims after a call, and whether it was allowed
  claimed_lem :
      (call : ClaimCall) (bar : Option String) (claims : List AiCallClaim)
      → call.bar ≡ bar
      → (exists (is_claim_of symbol key setup) (claimed call claims).1
          ≡ (exists (is_claim_of symbol key setup) claims || is_about symbol key setup call))
        × ((is_about symbol key setup call && (claimed call claims).0) ≡ (
            is_about symbol key setup call && not (exists (is_claim_of symbol key setup) claims)))
  unfolding claimed try_claim_ai_call is_about is_claim_of
  claimed_lem call none claims e = rw e (unfold is_bar in ground arith)
  claimed_lem call (some bar) claims e = rw e (unfold is_bar in insert_claim_lem _ claims)

  -- However often a setup on a bar is asked for, in whatever order with others, the language model may
  -- be called for it once if no claim of it was there, and not at all otherwise.
  pub answers-once :
      (calls : List ClaimCall) (claims : List AiCallClaim)
      → length (
          select
            (λ (call, allowed). is_about symbol key setup call && allowed)
            (answers calls claims))
        ≡ (if exists (is_about symbol key setup) calls
              && not (exists (is_claim_of symbol key setup) claims)
            then 1
            else 0)
  unfolding answers
  answers-once [] claims = refl
  answers-once (call ∷ calls) claims =
      let (after, allowed) = claimed_lem call call.bar claims refl in
      ground (arith, after, allowed, answers-once calls (claimed call claims).1)
