-- ===== src/DecisionGate/Repeat.antt =====
-- When a stored answer is repeated, and what is repeated of it.
use Prim.Native.String
use mathlib.Core.Option.{map as option_map}
use trade_ai_server.Prelude.{
  ◌≡◌, ◌↔◌, ◌∙◌, ap, refl, sym, true, false, Option, some, List, [], ◌∷◌, String, if◌then◌else◌,
  or_else, leb, ◌+◌, arith, and_true,
}
use text.Mathlib.TextPositions.{eq_refl}
use trade_ai_server.Prelude.Text.{str_eq, str_eq→path, strip, lookup_word}
use trade_ai_server.Prelude.Table.{row_at, row_at-put}
use trade_ai_server.Number.{Number, nought, hundred, abs_of}
use trade_ai_server.Order.Row.{Time}
use trade_ai_server.DecisionGate.{NewsContext}
use trade_ai_server.DecisionGate.Cache.{
  CacheEntry, same_words, cache_key, drift_of, replayed, answer, cache_get, news_fingerprint,
}
use trade_ai_server.DecisionGate.Replay.{
  Answer, stored, after_call, entry_of_answer, remembered, same_words_refl, after_call_lem,
  answer_lem,
}

same_words-path : (vs ws : List String) → same_words vs ws ≡ true → vs ≡ ws
unfolding same_words
same_words-path [] [] h = refl
same_words-path [] (w ∷ ws) h = absurd (cc)
same_words-path (v ∷ vs) [] h = absurd (cc)
same_words-path (v ∷ vs) (w ∷ ws) h =
    let (first, rest) = and_true (str_eq v w) (same_words vs ws) h in
    rw (str_eq→path v w first) (ap (λ l. w ∷ l) (same_words-path vs ws rest))

module _ {D J : Type 0} ⦃n : Number D⦄ (ttl : Time) (max_price_drift : D) where
  open n use {sub, div, lt, le}

  -- A stored answer that may be repeated: it is young, the prices are positive and near each other, and
  -- the news and the context are the ones that it was given for.
  pub record IsLive (a : Answer D J) (now : Time) (symbol : String) (last_price : D)
      (context : NewsContext) (context_fingerprint : String) : Type 0 where
    pub young : leb (a.at + ttl) now ≡ false
    pub stored_price : le a.last_price nought ≡ false
    pub price : le last_price nought ≡ false
    pub steady :
        lt max_price_drift (div (abs_of (sub last_price a.last_price)) a.last_price) ≡ false
    pub news : news_fingerprint symbol context ≡ news_fingerprint a.symbol a.context
    pub known : context_fingerprint ≡ a.context_fingerprint

module _ {D J : Type 0} ⦃n : Number D⦄ (shown : J → String) (as_text : String → J)
    (percent_text : D → String) (age_text : Time → Time → String) where
  open n use {sub, mul, div}

  -- A copy of an answer: each field is the stored one, and the reason has a note of the drift and the
  -- age at its end.
  abbrev pub IsCopy : Answer D J → Time → D → List (String × J) → Type 0
  IsCopy a now last_price raw =
      (field : String)
      → row_at (λ pair. pair.0) field raw ≡ (
          if str_eq field "reason"
          then some (
            "reason",
            as_text (
                strip (
                  String.◌++◌ (or_else (option_map shown (lookup_word "reason" a.raw)) "") (
                    String.◌++◌ " [cached decision: price drift " (
                      String.◌++◌
                        (percent_text
                          (mul (div (abs_of (sub last_price a.last_price)) a.last_price) hundred))
                        (String.◌++◌ "% < 1%, no new news, age "
                          (String.◌++◌ (age_text now a.at) "min]")))))),
          )
          else row_at (λ pair. pair.0) field a.raw)

module _ {D J : Type 0} ⦃n : Number D⦄ (ttl : Time) (max_price_drift : D) (shown : J → String)
    (as_text : String → J) (percent_text : D → String) (age_text : Time → Time → String) where
  open n use {lt, le}

  answer-live :
      (now : Time) (last_price : D) (news : List String) (context : String) (e : CacheEntry D J)
      (raw : List (String × J))
      → answer ttl max_price_drift shown as_text percent_text age_text now last_price news context
          (some e)
        ≡ some raw
      → (leb (e.cached_at + ttl) now ≡ false)
        × (le e.last_price nought ≡ false)
        × (le last_price nought ≡ false)
        × (lt max_price_drift (drift_of last_price e) ≡ false)
        × (same_words news e.news_fingerprint ≡ true)
        × (str_eq context e.context_fingerprint ≡ true)
  unfolding answer
  answer-live now last_price news context e raw h = ground arith

  found_lem :
      (entries : List (CacheEntry D J)) (a : Answer D J) (symbol : String)
      → cache_key symbol ≡ cache_key a.symbol
      → le a.last_price nought ≡ false
      → row_at (λ e. e.key) (cache_key symbol) (after_call (stored a) entries)
        ≡ some (entry_of_answer a)
  found_lem entries a symbol key priced =
      ap (λ k. row_at (λ e. e.key) k (after_call (stored a) entries)) key
      ∙ after_call_lem (cache_key a.symbol) (stored a) entries
      ∙ (unfold remembered in rw (eq_refl (cache_key a.symbol)) (rw priced refl))

  -- After an answer with a positive price is stored, a call for a symbol with the same key gives a copy
  -- of it, with the note in its reason, exactly if it may be repeated: its time is not over, the price
  -- is positive and has not drifted too far, and neither the news nor the context have changed.
  pub get-put :
      (entries : List (CacheEntry D J)) (a : Answer D J) (now : Time) (symbol : String)
      (last_price : D) (context : NewsContext) (context_fingerprint : String)
      → cache_key symbol ≡ cache_key a.symbol
      → le a.last_price nought ≡ false
      → ((raw : List (String × J)) × (cache_get ttl max_price_drift shown as_text percent_text
              age_text now symbol last_price context context_fingerprint
              (after_call (stored a) entries)
            ≡ some raw)
          × IsCopy shown as_text percent_text age_text a now last_price raw)
        ↔ IsLive ttl max_price_drift a now symbol last_price context context_fingerprint
  unfolding cache_get entry_of_answer drift_of
  get-put entries a now symbol last_price context context_fingerprint key priced = (live, copied)
    where
      news : List String
      news = news_fingerprint symbol context

      found :
          row_at (λ e. e.key) (cache_key symbol) (after_call (stored a) entries)
          ≡ some (entry_of_answer a)
      found = found_lem entries a symbol key priced

      answered : Option (CacheEntry D J) → Option (List (String × J))
      answered o =
          answer ttl max_price_drift shown as_text percent_text age_text now last_price news
            context_fingerprint o

      live :
          ((raw : List (String × J)) × (answered
                (row_at (λ e. e.key) (cache_key symbol) (after_call (stored a) entries))
              ≡ some raw)
            × IsCopy shown as_text percent_text age_text a now last_price raw)
          → IsLive ttl max_price_drift a now symbol last_price context context_fingerprint
      live (raw, e, _) =
          let (young, stored_price, price, steady, same, known) =
            answer-live now last_price news context_fingerprint (entry_of_answer a) raw
              (ap answered (sym found) ∙ e) in
          record {
            young = young;
            stored_price = stored_price;
            price = price;
            steady = steady;
            news = same_words-path news (news_fingerprint a.symbol a.context) same;
            known = str_eq→path context_fingerprint a.context_fingerprint known;
          }

      copied :
          IsLive ttl max_price_drift a now symbol last_price context context_fingerprint
          → (raw : List (String × J)) × (answered
                (row_at (λ e. e.key) (cache_key symbol) (after_call (stored a) entries))
              ≡ some raw)
            × IsCopy shown as_text percent_text age_text a now last_price raw
      copied l = (
        replayed ttl max_price_drift shown as_text percent_text age_text now
            (drift_of last_price (entry_of_answer a)) (entry_of_answer a),
        ap answered found
            ∙ answer_lem ttl max_price_drift shown as_text percent_text age_text now last_price news
                context_fingerprint (entry_of_answer a) l.young l.stored_price l.price l.steady
                (rw (l.news) (same_words_refl (news_fingerprint a.symbol a.context)))
                (rw (l.known) (eq_refl a.context_fingerprint)),
        λ field. (unfold replayed in row_at-put (λ pair. pair.0) field _ a.raw),
      )
