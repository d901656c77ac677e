-- ===== src/Examples/Replaying.antt =====
-- The classifier of blocks and the cache of decisions at concrete inputs.
use trade_ai_server.Prelude.{◌≡◌, ◌↔◌, some, List, [], ◌∷◌, String, refl}
use trade_ai_server.Prelude.Int.{ℤ, pos}
use trade_ai_server.Prelude.Text.{upper, strip}
use trade_ai_server.Prelude.Result.{Ensures}
use trade_ai_server.Number.Whole.{whole_number}
use trade_ai_server.DecisionGate.{NewsContext, item, words}
use trade_ai_server.BlockReason.{format_block_reason, classify_block_reason}
use trade_ai_server.BlockReason.RoundTrip.{classify-format}
use trade_ai_server.DecisionGate.Cache.{answer, cache_get, cache_key, news_fingerprint}
use trade_ai_server.DecisionGate.Replay.{
  Answer, CacheCall, stored, cleared, after_call, after_calls, latest, cache_get-latest,
}
use trade_ai_server.DecisionGate.Repeat.{IsLive, IsCopy, get-put}

classify-format_example :
    Ensures
      (λ text. classify_block_reason (some text) ≡ upper (strip " kill_switch "))
      (format_block_reason " kill_switch " "the daily [PAPER_MODE] limit")
classify-format_example = classify-format " kill_switch " "the daily [PAPER_MODE] limit"

-- the same news in two orders
abbrev morning : NewsContext
morning = some (
    (
      "THYAO",
      some (record {
        kap_news = "k" ∷ [];
        latest_news = item (words "t1") (some "b") ∷ item (words "t2") (some "a") ∷ [];
      }),
    )
    ∷ [])

abbrev evening : NewsContext
evening = some (
    (
      "THYAO",
      some (record {
        kap_news = "k" ∷ [];
        latest_news = item (words "t2") (some "a") ∷ item (words "t1") (some "b") ∷ [];
      }),
    )
    ∷ [])

abbrev decision : Answer ℤ String
decision = record {
  at = 100;
  symbol = "thyao";
  last_price = pos 250;
  context = morning;
  raw = ("action", "BUY") ∷ ("reason", "trend") ∷ [];
  context_fingerprint = "c";
}

abbrev calls : List (CacheCall ℤ String)
calls = stored decision ∷ cleared (some "THYAO") ∷ stored decision ∷ []

cache_get-latest_example :
    cache_get 15
      (pos 1)
      (λ s. s)
      (λ s. s)
      (λ d. "0.00")
      (λ now at. "0")
      110
      " THYAO "
      (pos 251)
      evening
      "c"
      (after_calls calls)
    ≡ answer 15
        (pos 1)
        (λ s. s)
        (λ s. s)
        (λ d. "0.00")
        (λ now at. "0")
        110
        (pos 251)
        (news_fingerprint " THYAO " evening)
        "c"
        (latest (cache_key " THYAO ") calls)
cache_get-latest_example =
    cache_get-latest 15 (pos 1) (λ s. s) (λ s. s) (λ d. "0.00") (λ now at. "0") calls 110 " THYAO "
      (pos 251) evening "c"

get-put_example :
    ((raw : List (String × String)) × (cache_get 15
          (pos 1)
          (λ s. s)
          (λ s. s)
          (λ d. "0.00")
          (λ now at. "0")
          110
          " THYAO "
          (pos 251)
          evening
          "c"
          (after_call (stored decision) [])
        ≡ some raw)
      × IsCopy (λ s. s) (λ s. s) (λ d. "0.00") (λ now at. "0") decision 110 (pos 251) raw)
    ↔ IsLive 15 (pos 1) decision 110 " THYAO " (pos 251) evening "c"
unfolding cache_key upper strip
get-put_example =
    get-put 15 (pos 1) (λ s. s) (λ s. s) (λ d. "0.00") (λ now at. "0") [] decision 110 " THYAO "
      (pos 251) evening "c" refl refl
