-- ===== src/Examples/Claiming.antt =====
-- Claims of calls of the language model at concrete inputs.
use trade_ai_server.Prelude.{
  ◌≡◌, not, ◌&&◌, none, some, List, [], ◌∷◌, if◌then◌else◌, exists, select, length,
}
use trade_ai_server.AiCallGate.{is_claim_of}
use trade_ai_server.AiCallGate.Once.{ClaimCall, answers, is_about, answers-once}

abbrev call : ClaimCall
call = record {
  at = 7;
  symbol = "thyao";
  bar = some "600";
  setup_fingerprint = "f";
  evaluation_purpose = none;
}

-- the same setup three times, once in capitals, and others between them
abbrev calls : List ClaimCall
calls =
    call
    ∷ record call { bar = some "900" }
    ∷ record call { at = 8; symbol = "THYAO" }
    ∷ record call { bar = none }
    ∷ call
    ∷ []

answers-once_example :
    length
      (select (λ (call, allowed). is_about "THYAO" "600" "f" call && allowed) (answers calls []))
    ≡ (if exists (is_about "THYAO" "600" "f") calls
          && not (exists (is_claim_of "THYAO" "600" "f") [])
        then 1
        else 0)
answers-once_example = answers-once "THYAO" "600" "f" calls []
