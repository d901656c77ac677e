-- ===== src/DecisionGate/Cache.antt =====
-- `DecisionCache` of app/services/decision_gate.py: the last answer of the language model for a symbol.
-- A raw decision is a dictionary of values `J`; `shown` and `as_text` are the text of a value and the
-- value of a text, `percent_text` and `age_text` the texts of the drift and of the age in minutes. A
-- decision that is not a dictionary, which `put` ignores, is left out.
use trade_ai_server.Prelude.{
  Bool, true, false, not, ◌&&◌, ◌||◌, Option, none, some, List, [], ◌∷◌, ◌++◌, String,
  if◌then◌else◌, leb, or_else, ◌+◌, select,
}
use Prim.Native.Nat.{Ordering}
use Prim.Native.String
use mathlib.Core.Option.{map as option_map}
use trade_ai_server.Prelude.Text.{str_eq, upper, strip, lookup_word}
use trade_ai_server.Prelude.Table.{row_at, put}
use trade_ai_server.Number.{Number, nought, abs_of, hundred}
use trade_ai_server.Order.Row.{Time}
use trade_ai_server.DecisionGate.{NewsContext, NewsEntry, NewsItem, item, malformed, entry_of}

is_less : Ordering → Bool
is_less Ordering.lt = true
is_less Ordering.eq = false
is_less Ordering.gt = false

-- the place of a text in a sorted list
unfoldable pub insert_sorted : String → List String → List String
unfolding is_less
insert_sorted s [] = s ∷ []
insert_sorted s (t ∷ ts) =
    let rest = insert_sorted s ts in if is_less (String.compare t s) then t ∷ rest else s ∷ t ∷ ts

-- `sorted(titles)`
unfoldable pub sorted : List String → List String
unfolding insert_sorted
sorted [] = []
sorted (t ∷ ts) = insert_sorted t (sorted ts)

with_title : Option String → Option (List String) → Option (List String)
with_title title none = none
with_title none (some titles) = some titles
with_title (some title) (some titles) = some (if str_eq title "" then titles else title ∷ titles)

-- the titles of `latestNews`, unless an item is malformed
unfoldable pub titles_of : List NewsItem → Option (List String)
unfolding with_title
titles_of [] = some []
titles_of (malformed ∷ items) = none
titles_of (item published title ∷ items) = with_title title (titles_of items)

unfoldable pub identity : Option (List String) → List String → List String
unfolding sorted
identity none kap_news = "<unparseable>" ∷ []
identity (some titles) kap_news = sorted (titles ++ kap_news)

unfoldable pub entry_fingerprint : Option NewsEntry → List String
unfolding identity titles_of
entry_fingerprint none = []
entry_fingerprint (some entry) = identity (titles_of entry.latest_news) entry.kap_news

-- `_news_fingerprint`
unfoldable pub news_fingerprint : String → NewsContext → List String
unfolding entry_fingerprint entry_of
news_fingerprint symbol context = entry_fingerprint (entry_of symbol context)

-- `==` of tuples of texts
unfoldable pub same_words : List String → List String → Bool
same_words [] [] = true
same_words [] (_ ∷ _) = false
same_words (_ ∷ _) [] = false
same_words (s ∷ ss) (t ∷ ts) = str_eq s t && same_words ss ts

-- `symbol.strip().upper()`
unfoldable pub cache_key : String → String
cache_key symbol = upper (strip symbol)

module _ (D J : Type 0) where
  -- `_CacheEntry`, with the key that it is stored under
  pub record CacheEntry : Type 0 where
    pub key : String
    pub raw : List (String × J)
    pub last_price : D
    pub news_fingerprint : List String
    pub context_fingerprint : String
    pub cached_at : Time

module _ {D J : Type 0} ⦃n : Number D⦄ where
  open n use {sub, div, le}

  unfoldable pub drift_of : D → CacheEntry D J → D
  drift_of last_price entry = div (abs_of (sub last_price entry.last_price)) entry.last_price

  -- `DecisionCache.put`
  unfoldable pub cache_put :
      Time
      → String
      → D
      → NewsContext
      → List (String × J)
      → String
      → List (CacheEntry D J)
      → List (CacheEntry D J)
  unfolding cache_key
  cache_put now symbol last_price context raw context_fingerprint entries =
      if le last_price nought
      then entries
      else put (λ e. e.key)
          (record {
            key = cache_key symbol;
            raw = raw;
            last_price = last_price;
            news_fingerprint = news_fingerprint symbol context;
            context_fingerprint = context_fingerprint;
            cached_at = now;
          })
          entries

  -- `DecisionCache.clear`
  unfoldable pub cache_clear : Option String → List (CacheEntry D J) → List (CacheEntry D J)
  unfolding cache_key
  cache_clear none entries = []
  cache_clear (some symbol) entries =
      if str_eq symbol "" then [] else select (λ e. not (str_eq (cache_key symbol) e.key)) entries

module _ {D J : Type 0} ⦃n : Number D⦄ (ttl : Time) (max_price_drift : D) (shown : J → String)
    (as_text : String → J) (percent_text : D → String) (age_text : Time → Time → String) where
  open n use {mul, lt, le}

  -- the copy of the decision, with a note in its reason
  unfoldable pub replayed : Time → D → CacheEntry D J → List (String × J)
  replayed now drift entry =
      let reason = or_else (option_map shown (lookup_word "reason" entry.raw)) "" in
      put (λ pair. pair.0)
        (
          "reason",
          as_text (
              strip (
                String.◌++◌ reason (
                  String.◌++◌ " [cached decision: price drift " (
                    String.◌++◌ (percent_text (mul drift hundred)) (
                      String.◌++◌ "% < 1%, no new news, age "
                        (String.◌++◌ (age_text now entry.cached_at) "min]")))))),
        )
        entry.raw

  unfoldable pub answer :
      Time → D → List String → String → Option (CacheEntry D J) → Option (List (String × J))
  unfolding drift_of replayed
  answer now last_price news context_fingerprint none = none
  answer now last_price news context_fingerprint (some entry) =
      if leb (entry.cached_at + ttl) now
      then none
      else if le entry.last_price nought || le last_price nought
      then none
      else if lt max_price_drift (drift_of last_price entry)
      then none
      else if not (same_words news entry.news_fingerprint)
      then none
      else if not (str_eq context_fingerprint entry.context_fingerprint)
      then none
      else some (replayed now (drift_of last_price entry) entry)

  -- `DecisionCache.get`
  unfoldable pub cache_get :
      Time → String → D → NewsContext → String → List (CacheEntry D J) → Option (List (String × J))
  unfolding answer cache_key
  cache_get now symbol last_price context context_fingerprint entries =
      answer now last_price (news_fingerprint symbol context) context_fingerprint
        (row_at (λ e. e.key) (cache_key symbol) entries)
