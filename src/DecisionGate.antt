-- ===== src/DecisionGate.antt =====
-- app/services/decision_gate.py: the tests before the language model is asked. `parse` is
-- `datetime.fromisoformat` in UTC, `window` the twelve hours of `_FRESH_NEWS_WINDOW`.
pub mod Cache
pub mod Replay
pub mod Repeat
use trade_ai_server.Prelude.{
  ◌+◌, Bool, true, false, not, ◌&&◌, ◌||◌, Option, none, some, List, [], ◌∷◌, ◌++◌, String, or_else,
  if◌then◌else◌, leb,
}
use Prim.Native.String
use trade_ai_server.Prelude.Text.{str_eq, upper, strip, lookup_word}
use trade_ai_server.Prelude.Result.{Result, ok, ◌>>=◌}
use trade_ai_server.Number.{Number, nought}
use trade_ai_server.Order.Row.{Time}
use trade_ai_server.BlockReason.{format_block_reason}

-- `publishedAt` of an item
pub data Published : Type 0 where
  missing : Published
  datetime : Time → Published
  words : String → Published
  other : Published

-- an item of `latestNews`; one that is not a dictionary raises where it is read
pub data NewsItem : Type 0 where
  item : Published → Option String → NewsItem
  malformed : NewsItem

pub record NewsEntry : Type 0 where
  pub kap_news : List String  -- `str(item)` of each
  pub latest_news : List NewsItem

-- The context by symbol; `none` is a value that is not a dictionary.
abbrev pub NewsContext : Type 0
NewsContext = Option (List (String × Option NewsEntry))

-- `news_context.get(symbol.strip().upper())`, where it is a dictionary
unfoldable pub entry_of : String → NewsContext → Option NewsEntry
entry_of symbol none = none
entry_of symbol (some context) = or_else (lookup_word (upper (strip symbol)) context) none

is_empty : List String → Bool
is_empty [] = true
is_empty (_ ∷ _) = false

-- `value is True`
unfoldable pub is_true : Option Bool → Bool
is_true none = false
is_true (some b) = b

-- `repr(value)`
abbrev repr_of : Option Bool → String
repr_of none = "None"
repr_of (some true) = "True"
repr_of (some false) = "False"

unfoldable pub purpose_of : String → String
purpose_of purpose = upper (strip (if str_eq purpose "" then "TRADING" else purpose))

module _ (parse : String → Option Time) (window : Time) where
  unfoldable pub is_recent : Time → Option Time → Bool
  is_recent now none = true
  is_recent now (some published) = leb now (published + window)

  unfoldable pub is_fresh : Time → Published → Bool
  unfolding is_recent
  is_fresh now missing = true
  is_fresh now (datetime published) = is_recent now (some published)
  is_fresh now (words text) = if str_eq text "" then true else is_recent now (parse text)
  is_fresh now other = true

  -- the loop over `latestNews`
  unfoldable pub fresh_items : Time → List NewsItem → Bool
  unfolding is_fresh
  fresh_items now [] = false
  fresh_items now (malformed ∷ items) = true
  fresh_items now (item published title ∷ items) = is_fresh now published || fresh_items now items

  -- ... of the entry of the symbol, whose `kapNews` may have items
  unfoldable pub fresh_entry : Time → Option NewsEntry → Bool
  unfolding fresh_items is_empty
  fresh_entry now none = false
  fresh_entry now (some entry) = not (is_empty entry.kap_news) || fresh_items now entry.latest_news

  -- `_has_fresh_news`
  unfoldable pub has_fresh_news : Time → String → NewsContext → Bool
  unfolding fresh_entry entry_of
  has_fresh_news now symbol context = fresh_entry now (entry_of symbol context)

  module _ {D : Type 0} ⦃n : Number D⦄ where
    open n use {lt}

    -- the early returns between the two gates
    unfoldable pub is_spared :
        Time → String → Option String → D → NewsContext → String → Bool → Bool
    unfolding purpose_of
    is_spared now symbol consensus bot_position_qty context purpose trade_eligible =
        str_eq (purpose_of purpose) "RESEARCH_DISCOVERY"
        || (str_eq (purpose_of purpose) "TRADING" && trade_eligible)
        || lt nought bot_position_qty
        || not (str_eq (upper (strip (or_else consensus ""))) "NEUTRAL")
        || has_fresh_news now symbol context

    -- `preflight_wait_reason`
    unfoldable pub preflight_wait_reason :
        Time
        → String
        → Option String
        → D
        → NewsContext
        → String
        → Bool
        → Option Bool
        → Option Bool
        → Result (Option String)
    unfolding is_true is_spared
    preflight_wait_reason now symbol consensus bot_position_qty context purpose trade_eligible quote
          ohlc =
        if not (is_true quote) || not (is_true ohlc)
        then (format_block_reason "DATA_QUALITY_UNRELIABLE" (
              String.◌++◌
                "Pre-flight data-quality gate: quoteReliable and ohlcReliable must both be true (quoteReliable="
                (String.◌++◌ (repr_of quote) (
                  String.◌++◌ ", ohlcReliable="
                    (String.◌++◌ (repr_of ohlc) "); WAIT without LLM call."))))
            >>= (λ reason. ok (some reason)))
        else if is_spared now symbol consensus bot_position_qty context purpose trade_eligible
        then ok none
        else (format_block_reason "PREFLIGHT_NEUTRAL"
              "Pre-flight cost gate: indicator consensus NEUTRAL, no fresh news, no open position, and not an active TRADING watchlist evaluation; WAIT without LLM call."
            >>= (λ reason. ok (some reason)))
