-- ===== src/BlockReason.antt =====
-- app/services/block_reason_classifier.py: the category of the text of a block.
pub mod RoundTrip
use Prim.Native.String
use Prim.Native.Char.{code}
use mathlib.Core.Option.{map as option_map}
use trade_ai_server.Prelude.{
  ℕ, Bool, true, false, not, ◌&&◌, ◌||◌, Option, none, some, List, [], ◌∷◌, String, if◌then◌else◌,
  leb, ◌==◌, exists, find, or_else,
}
use trade_ai_server.Prelude.Text.{str_eq, upper, strip, casefold, is_upper, is_part, member}
use trade_ai_server.Prelude.Result.{Result, ok, raised, value_error}

-- `_RULES`; a needle that is not ASCII is in no text here
abbrev pub rules : List (String × List String)
rules =
    ("DATA_QUALITY_UNRELIABLE", "pre-flight data-quality gate" ∷ "data quality unreliable" ∷ [])
    ∷ (
      "PREFLIGHT_NEUTRAL",
      "pre-flight cost gate" ∷ "pre-flight gate: indicator consensus neutral" ∷ [],
    )
    ∷ ("KILL_SWITCH", "kill switch" ∷ [])
    ∷ ("CUTOFF", "cutoff" ∷ "trading cutoff" ∷ [])
    ∷ ("CONFIDENCE_LOW", "confidence" ∷ "güven" ∷ "guven" ∷ [])
    ∷ ("DAILY_LIMIT", "daily" ∷ "günlük" ∷ "gunluk" ∷ "orders per day" ∷ [])
    ∷ ("MAX_POSITION", "max position" ∷ "position value" ∷ [])
    ∷ ("MAX_ORDER_VALUE", "max order value" ∷ "order value" ∷ [])
    ∷ ("MAX_QTY", "max qty" ∷ "quantity" ∷ "adet limiti" ∷ [])
    ∷ ("MARKET_REGIME", "market regime" ∷ "rejim" ∷ [])
    ∷ ("NATR_HIGH", "natr" ∷ [])
    ∷ ("DEPTH_QUEUE_DROP", "depth" ∷ "queue drop" ∷ "derinlik" ∷ [])
    ∷ ("ALPHA_TREND_OPPOSES", "alpha trend" ∷ [])
    ∷ (
      "INDICATOR_CONSENSUS_OPPOSES",
      "indicatorconsensus=" ∷ "indicator consensus opposes" ∷ "consensus opposes" ∷ [],
    )
    ∷ ("PAPER_MODE", "paper mode" ∷ "paper" ∷ [])
    ∷ ("DEMO_NOT_ENABLED", "demo" ∷ [])
    ∷ ("REAL_NOT_ENABLED", "real live" ∷ "real" ∷ [])
    ∷ ("POSITIONS_NOT_LOADED", "positions not loaded" ∷ "pozisyonlar" ∷ [])
    ∷ ("SELL_NO_POSITION", "no position" ∷ "pozisyon yok" ∷ [])
    ∷ ("LOCKED_LONG_TERM", "locked long" ∷ "long term" ∷ [])
    ∷ ("GATEWAY_REJECTED", "rejected" ∷ "gateway" ∷ "matriks" ∷ [])
    ∷ ("DUPLICATE_REQUEST", "duplicate" ∷ [])
    ∷ ("COOLDOWN", "cooldown" ∷ [])
    ∷ []

categories : List (String × List String) → List String
categories [] = []
categories (rule ∷ others) = rule.0 ∷ categories others

-- `_STABLE_CATEGORIES`
unfoldable pub stable_categories : List String
unfolding categories
stable_categories = categories rules

-- `format_block_reason`
unfoldable pub format_block_reason : String → String → Result String
format_block_reason category reason =
    let normalized = upper (strip category) in
    if not (member normalized stable_categories)
    then raised (value_error "Unknown block category")
    else ok (String.◌++◌ "[" (String.◌++◌ normalized (String.◌++◌ "] " (strip reason))))

-- `[A-Z0-9_]`
unfoldable pub is_word : ℕ → Bool
unfolding is_upper
is_word n = is_upper n || (leb b'0' n && leb n b'9') || n == b'_'

-- `[A-Z0-9_]*\]`: what stands before the bracket
unfoldable pub word_of : String → Option String
unfolding is_word
word_of String.[] = none
word_of (String.◌∷◌ c s) =
    let rest = word_of s in
    if code c == b']'
    then some ""
    else if is_word (code c)
    then option_map (λ w. String.◌∷◌ c w) rest
    else none

-- `([A-Z][A-Z0-9_]*)\]`
unfoldable pub category_of : String → Option String
unfolding word_of
category_of String.[] = none
category_of (String.◌∷◌ c s) =
    if is_upper (code c) then option_map (λ w. String.◌∷◌ c w) (word_of s) else none

-- the match of `_STRUCTURED_CATEGORY_RE`
unfoldable pub structured : String → Option String
unfolding category_of
structured String.[] = none
structured (String.◌∷◌ c s) = if code c == b'[' then category_of s else none

-- the loop over the rules
unfoldable pub by_needles : String → List (String × List String) → String
by_needles text [] = "UNKNOWN"
by_needles text (rule ∷ others) =
    let rest = by_needles text others in
    if exists (λ needle. is_part needle text) rule.1 then rule.0 else rest

unfoldable pub classified : String → Option String → String
unfolding by_needles
classified raw none = by_needles (casefold raw) rules
classified raw (some category) =
    if member category stable_categories then category else by_needles (casefold raw) rules

-- `classify_block_reason`
unfoldable pub classify_block_reason : Option String → String
unfolding classified structured
classify_block_reason reason =
    let raw = strip (or_else reason "") in classified raw (structured raw)
