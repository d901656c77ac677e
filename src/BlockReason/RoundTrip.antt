-- ===== src/BlockReason/RoundTrip.antt =====
-- The category that is written in front of a reason is read again.
use Prim.Native.String
use Prim.Native.String.append
use Prim.Native.Char.{Char, code}
use trade_ai_server.Prelude.{
  ◌≡◌, ◌∙◌, ap, sym, and_true, refl, Bool, true, false, not, ◌&&◌, some, String, arith, Bool-cases,
  inl, inr, ◌==◌, every,
}
use trade_ai_server.Prelude.Text.{
  upper, strip, strip_right, strip_left, is_space, strip_right-append, is_upper, member,
  member-every,
}
use trade_ai_server.Prelude.Result.{Ensures, returns, raises}
use trade_ai_server.BlockReason.{
  stable_categories, format_block_reason, is_word, word_of, category_of, structured, classified,
  classify_block_reason,
}

is_name : String → Bool
is_name String.[] = true
is_name (String.◌∷◌ c s) = not (code c == b']') && is_word (code c) && is_name s

is_category : String → Bool
unfolding is_name
is_category String.[] = false
is_category (String.◌∷◌ c s) = is_upper (code c) && is_name s

stable-is_category : every is_category stable_categories ≡ true
unfolding is_category stable_categories is_word is_upper
stable-is_category = refl

is_name-cons : (a b c : Bool) → (not a && b && c) ≡ true → (a ≡ false) × (b ≡ true) × (c ≡ true)
is_name-cons a b c h = ground arith

word_of-append :
    (w : String) (c : Char) (t : String)
    → is_name w ≡ true
    → (code c == b']') ≡ true
    → word_of (String.◌++◌ w (String.◌∷◌ c t)) ≡ some w
unfolding word_of is_name
word_of-append String.[] c t h k = rw append.nil (rw k refl)
word_of-append (String.◌∷◌ d w) c t h k =
    let (solid, known, rest) = is_name-cons (code d == b']') (is_word (code d)) (is_name w) h in
    rw append.cons (rw solid (rw known (rw (word_of-append w c t rest k) refl)))

structured-append :
    (w : String) (b c : Char) (t : String)
    → is_category w ≡ true
    → (code b == b'[') ≡ true
    → (code c == b']') ≡ true
    → structured (String.◌∷◌ b (String.◌++◌ w (String.◌∷◌ c t))) ≡ some w
unfolding structured category_of is_category
structured-append String.[] b c t h i k = absurd (cc)
structured-append (String.◌∷◌ d w) b c t h i k =
    let (first, rest) = and_true (is_upper (code d)) (is_name w) h in
    rw append.cons (rw i (rw first (rw (word_of-append w c t rest k) refl)))

strip-append :
    (w : String) (b c : Char) (t : String)
    → is_space (code b) ≡ false
    → is_space (code c) ≡ false
    → strip (String.◌∷◌ b (String.◌++◌ w (String.◌∷◌ c t)))
      ≡ String.◌∷◌ b (String.◌++◌ w (String.◌∷◌ c (strip_right t)))
unfolding strip strip_left
strip-append w b c t h k = rw h (
    ap strip_right (sym (append.cons b w (String.◌∷◌ c t)))
    ∙ strip_right-append (String.◌∷◌ b w) c t k
    ∙ append.cons b w (String.◌∷◌ c (strip_right t)))

classified_lem :
    (category : String) (b c : Char) (t : String)
    → member category stable_categories ≡ true
    → (code b == b'[') ≡ true
    → (code c == b']') ≡ true
    → is_space (code b) ≡ false
    → is_space (code c) ≡ false
    → classify_block_reason (some (String.◌∷◌ b (String.◌++◌ category (String.◌∷◌ c t)))) ≡ category
unfolding classify_block_reason classified
classified_lem category b c t h i j k l =
    let known = member-every is_category category stable_categories stable-is_category h in
    rw (strip-append category b c t k l)
      (rw (structured-append category b c (strip_right t) known i j) (rw h refl))

classify_lem :
    (category reason : String)
    → member category stable_categories ≡ true
    → classify_block_reason
        (some (String.◌++◌ "[" (String.◌++◌ category (String.◌++◌ "] " reason))))
      ≡ category
unfolding is_space
classify_lem category reason h =
    let start = append.cons "[" "" (String.◌++◌ category (String.◌++◌ "] " reason)) in
    let close = append.cons "]" " " reason in
    rw start (
      rw close (
        rw append.nil
          (classified_lem category "[" "]" (String.◌++◌ " " reason) h refl refl refl refl)))

-- The category that `format_block_reason` writes in front of a reason is the one that
-- `classify_block_reason` reads, whatever the words of the reason are.
pub classify-format :
    (category reason : String)
    → Ensures
        (λ text. classify_block_reason (some text) ≡ upper (strip category))
        (format_block_reason category reason)
unfolding format_block_reason
classify-format category reason =
    elim (Bool-cases (member (upper (strip category)) stable_categories)) [
      | inl e ↦ rw e (returns (classify_lem (upper (strip category)) (strip reason) e))
      | inr e ↦ rw e raises
    ]
