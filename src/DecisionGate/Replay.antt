-- ===== src/DecisionGate/Replay.antt =====
-- What `DecisionCache` repeats: the last answer that was stored for the symbol.
use trade_ai_server.Prelude.{
  ◌≡◌, ◌∙◌, ap, refl, Bool, true, false, not, ◌&&◌, ◌||◌, Option, none, some, List, [], ◌∷◌, String,
  if◌then◌else◌, leb, ◌+◌, select, arith,
}
use text.Mathlib.TextEquality.{eq_iff}
use text.Mathlib.TextPositions.{eq_refl}
use trade_ai_server.Prelude.Text.{str_eq}
use trade_ai_server.Prelude.Table.{row_at, row_at-put}
use trade_ai_server.Number.{Number, nought}
use trade_ai_server.Order.Row.{Time}
use trade_ai_server.DecisionGate.{NewsContext}
use trade_ai_server.DecisionGate.Cache.{
  CacheEntry, same_words, cache_key, cache_put, cache_clear, drift_of, replayed, answer, cache_get,
  news_fingerprint,
}

pub same_words_refl : (ws : List String) → same_words ws ws ≡ true
unfolding same_words
same_words_refl [] = refl
same_words_refl (w ∷ ws) = rw (eq_refl w) (same_words_refl ws)

-- Whether a call clears a key: all keys, if it names no symbol.
unfoldable pub clears : String → Option String → Bool
clears key none = true
clears key (some symbol) = str_eq symbol "" || str_eq (cache_key symbol) key

-- What is stored by one call.
pub record Answer (D J : Type 0) : Type 0 where
  pub at : Time
  pub symbol : String
  pub last_price : D
  pub context : NewsContext
  pub raw : List (String × J)
  pub context_fingerprint : String

-- The calls that change the cache.
pub data CacheCall (D J : Type 0) : Type 0 where
  stored : Answer D J → CacheCall D J
  cleared : Option String → CacheCall D J

module _ {D J : Type 0} ⦃n : Number D⦄ where
  open n use {lt, le}

  unfoldable pub entry_of_answer : Answer D J → CacheEntry D J
  entry_of_answer a = record {
    key = cache_key a.symbol;
    raw = a.raw;
    last_price = a.last_price;
    news_fingerprint = news_fingerprint a.symbol a.context;
    context_fingerprint = a.context_fingerprint;
    cached_at = a.at;
  }

  unfoldable pub after_call : CacheCall D J → List (CacheEntry D J) → List (CacheEntry D J)
  after_call (stored a) entries =
      cache_put a.at a.symbol a.last_price a.context a.raw a.context_fingerprint entries
  after_call (cleared symbol) entries = cache_clear symbol entries

  -- The cache after some calls, the latest call first.
  unfoldable pub after_calls : List (CacheCall D J) → List (CacheEntry D J)
  unfolding after_call
  after_calls [] = []
  after_calls (call ∷ earlier) = after_call call (after_calls earlier)

  unfoldable pub remembered :
      String → CacheCall D J → Option (CacheEntry D J) → Option (CacheEntry D J)
  unfolding entry_of_answer clears
  remembered key (stored a) before =
      if str_eq key (cache_key a.symbol) && not (le a.last_price nought)
      then some (entry_of_answer a)
      else before
  remembered key (cleared symbol) before = if clears key symbol then none else before

  -- The last answer of a key with a positive price, unless it was cleared since.
  unfoldable pub latest : String → List (CacheCall D J) → Option (CacheEntry D J)
  unfolding remembered
  latest key [] = none
  latest key (call ∷ earlier) = remembered key call (latest key earlier)

  row_at-select :
      (k key : String) (t : List (CacheEntry D J))
      → row_at (λ e. e.key) key (select (λ e. not (str_eq k e.key)) t)
        ≡ (if str_eq k key then none else row_at (λ e. e.key) key t)
  unfolding row_at
  row_at-select k key [] = ground arith
  row_at-select k key (e ∷ t) =
      ground (arith, eq_iff k e.key, eq_iff key e.key, eq_iff k key, row_at-select k key t)

  pub after_call_lem :
      (key : String) (call : CacheCall D J) (entries : List (CacheEntry D J))
      → row_at (λ e. e.key) key (after_call call entries)
        ≡ remembered key call (row_at (λ e. e.key) key entries)
  unfolding after_call remembered cache_put cache_clear row_at
  after_call_lem key (stored a) entries =
      ground (arith, row_at-put (λ e. e.key) key (entry_of_answer a) entries)
  after_call_lem key (cleared none) entries = refl
  after_call_lem key (cleared (some symbol)) entries =
      ground (arith, row_at-select (cache_key symbol) key entries)

  after_calls_lem :
      (key : String) (calls : List (CacheCall D J))
      → row_at (λ e. e.key) key (after_calls calls) ≡ latest key calls
  unfolding after_calls latest row_at
  after_calls_lem key [] = refl
  after_calls_lem key (call ∷ earlier) =
      after_call_lem key call (after_calls earlier)
      ∙ ap (remembered key call) (after_calls_lem key earlier)

module _ {D J : Type 0} ⦃n : Number D⦄ (ttl : Time) (max_price_drift : D) (shown : J → String)
    (as_text : String → J) (percent_text : D → String) (age_text : Time → Time → String) where
  open n use {lt, le}

  -- After any calls the cache answers from the last answer that was stored for the symbol with a
  -- positive price and not cleared since, and from nothing else.
  pub cache_get-latest :
      (calls : List (CacheCall D J)) (now : Time) (symbol : String) (last_price : D)
      (context : NewsContext) (context_fingerprint : String)
      → cache_get ttl max_price_drift shown as_text percent_text age_text now symbol last_price
          context context_fingerprint
          (after_calls calls)
        ≡ answer ttl max_price_drift shown as_text percent_text age_text now last_price
            (news_fingerprint symbol context)
            context_fingerprint
            (latest (cache_key symbol) calls)
  unfolding cache_get
  cache_get-latest calls now symbol last_price context context_fingerprint =
      ap
        (answer ttl max_price_drift shown as_text percent_text age_text now last_price
          (news_fingerprint symbol context) context_fingerprint)
        (after_calls_lem (cache_key symbol) calls)

  -- An answer that passes every test is repeated.
  pub answer_lem :
      (now : Time) (last_price : D) (news : List String) (context : String) (e : CacheEntry D J)
      → leb (e.cached_at + ttl) now ≡ false
      → le e.last_price nought ≡ false
      → le last_price nought ≡ false
      → lt max_price_drift (drift_of last_price e) ≡ false
      → same_words news e.news_fingerprint ≡ true
      → str_eq context e.context_fingerprint ≡ true
      → answer ttl max_price_drift shown as_text percent_text age_text now last_price news context
          (some e)
        ≡ some (
            replayed ttl max_price_drift shown as_text percent_text age_text now
              (drift_of last_price e)
              e)
  unfolding answer
  answer_lem now last_price news context e young priced price steady same known =
      rw young (rw priced (rw price (rw steady (rw same (rw known refl)))))
