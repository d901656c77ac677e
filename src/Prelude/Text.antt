-- ===== src/Prelude/Text.antt =====
-- Python's `str` as far as the code uses it: equality, `upper`, `strip` and sets of words. Texts
-- are ASCII here.
use Prim.Native.Nat.{ℕ, compare, Ordering, ◌-◌, ◌+◌, ◌<◌}
use Prim.Native.Char.{Char, char, code, IsScalar}
use Prim.Native.String.append
use Prim.Native.String.{String, ◌++◌ as text_append}
use mathlib.Core.Path.{◌≡◌, ◌∙◌, ap, refl}
use mathlib.Core.Logic.{inl, inr}
use mathlib.Core.Bool.{Bool, true, false, ◌||◌, ◌&&◌}
use mathlib.Core.Option.{Option, none, some}
use mathlib.Core.List.{List, [], ◌∷◌}
use native.Mathlib.Omega.{arith}
use text.Mathlib.Text.{◌==◌ as text_eq}
use text.Mathlib.TextEquality.{eq_iff, Char-path}
use trade_ai_server.Prelude.Tests.{and_true, or_else, if◌then◌else◌, Bool-cases, ◌==◌, leb}
use trade_ai_server.Prelude.Lists.{All, every}

abbrev pub str_eq : String → String → Bool
str_eq s t = text_eq s t

is_lower : ℕ → Bool
is_lower n = leb b'a' n && leb n b'z'

scalar_below : (n : ℕ) → n < 55296 → IsScalar n
scalar_below n h = let e : compare n 55296 ≡ Ordering.lt = ground arith in rw e tt

lower_bound : (n : ℕ) → is_lower n ≡ true → n - 32 < 55296
unfolding is_lower
lower_bound n h = ground arith

capital : (c : Char) (b : Bool) → is_lower (code c) ≡ b → Char
unfolding is_lower scalar_below lower_bound
capital c true h = char (code c - 32) (scalar_below (code c - 32) (lower_bound (code c) h))
capital c false _ = c

-- the capital of an ASCII letter
upper_char : Char → Char
unfolding capital
upper_char c = capital c (is_lower (code c)) refl

-- `s.upper()`
unfoldable pub upper : String → String
unfolding upper_char
upper String.[] = String.[]
upper (String.◌∷◌ c s) = String.◌∷◌ (upper_char c) (upper s)

unfoldable pub is_upper : ℕ → Bool
is_upper n = leb b'A' n && leb n b'Z'

upper_bound : (n : ℕ) → is_upper n ≡ true → n + 32 < 55296
unfolding is_upper
upper_bound n h = ground arith

small : (c : Char) (b : Bool) → is_upper (code c) ≡ b → Char
unfolding is_upper scalar_below upper_bound
small c true h = char (code c + 32) (scalar_below (code c + 32) (upper_bound (code c) h))
small c false _ = c

-- `s.casefold()`
unfoldable pub casefold : String → String
unfolding small
casefold String.[] = String.[]
casefold (String.◌∷◌ c s) = String.◌∷◌ (small c (is_upper (code c)) refl) (casefold s)

code-capital :
    (c : Char) (b : Bool) (h : is_lower (code c) ≡ b)
    → code (capital c b h) ≡ (if b then code c - 32 else code c)
unfolding capital
code-capital c true h = refl
code-capital c false h = refl

code-upper_char :
    (c : Char) → code (upper_char c) ≡ (if is_lower (code c) then code c - 32 else code c)
unfolding upper_char
code-upper_char c = code-capital c (is_lower (code c)) refl

upper_char_idem : (c : Char) → upper_char (upper_char c) ≡ upper_char c
upper_char_idem c =
    Char-path _ _
      (unfold is_lower in ground (arith, code-upper_char c, code-upper_char (upper_char c)))

-- Capitals are left alone, so `upper` may be applied twice.
pub upper_idem : (s : String) → upper (upper s) ≡ upper s
unfolding upper
upper_idem String.[] = refl
upper_idem (String.◌∷◌ c s) = cc (upper_char_idem c, upper_idem s)

unfoldable pub is_space : ℕ → Bool
is_space n = n == 32 || (leb 9 n && leb n 13) || (leb 28 n && leb n 31)

unfoldable pub strip_left : String → String
unfolding is_space
strip_left String.[] = String.[]
strip_left (String.◌∷◌ c s) =
    let rest = strip_left s in if is_space (code c) then rest else String.◌∷◌ c s

drop_blank : Char → String → String
unfolding is_space
drop_blank c String.[] = if is_space (code c) then String.[] else String.◌∷◌ c String.[]
drop_blank c (String.◌∷◌ d s) = String.◌∷◌ c (String.◌∷◌ d s)

unfoldable pub strip_right : String → String
unfolding drop_blank
strip_right String.[] = String.[]
strip_right (String.◌∷◌ c s) = drop_blank c (strip_right s)

-- `s.strip()`
unfoldable pub strip : String → String
unfolding strip_left strip_right
strip s = strip_right (strip_left s)

strip_example : strip "  ab c " ≡ "ab c"
unfolding strip
strip_example = refl

upper_example : upper "sent_Pending" ≡ "SENT_PENDING"
unfolding upper
upper_example = refl

-- a character before the first of the words
lead : Char → List String → List String
lead c [] = String.◌∷◌ c String.[] ∷ []
lead c (w ∷ ws) = String.◌∷◌ c w ∷ ws

drop_blank_solid :
    (c : Char) (t : String) → is_space (code c) ≡ false → drop_blank c t ≡ String.◌∷◌ c t
unfolding drop_blank
drop_blank_solid c String.[] h = rw h refl
drop_blank_solid c (String.◌∷◌ d s) h = refl

drop_blank-append :
    (d : Char) (w : String) (c : Char) (t : String)
    → drop_blank d (text_append w (String.◌∷◌ c t)) ≡ String.◌∷◌ d (text_append w (String.◌∷◌ c t))
unfolding drop_blank
drop_blank-append d String.[] c t = rw append.nil refl
drop_blank-append d (String.◌∷◌ e w) c t = rw append.cons refl

-- What stands before a character that is not white space is kept.
pub strip_right-append :
    (w : String) (c : Char) (t : String)
    → is_space (code c) ≡ false
    → strip_right (text_append w (String.◌∷◌ c t)) ≡ text_append w (String.◌∷◌ c (strip_right t))
unfolding strip_right
strip_right-append String.[] c t h =
    rw append.nil (rw append.nil (drop_blank_solid c (strip_right t) h))
strip_right-append (String.◌∷◌ d w) c t h = rw append.cons (
    rw append.cons
      (ap (drop_blank d) (strip_right-append w c t h) ∙ drop_blank-append d w c (strip_right t)))

-- `s.split(c)`, the separator by its code
unfoldable pub split : ℕ → String → List String
unfolding lead
split c String.[] = "" ∷ []
split c (String.◌∷◌ d s) = let rest = split c s in if code d == c then "" ∷ rest else lead d rest

split_example : split b',' "ab,,c" ≡ "ab" ∷ "" ∷ "c" ∷ []
unfolding split
split_example = refl

-- `prefix` at the start of a text, and anywhere: `part in s`
starts_with : String → String → Bool
starts_with String.[] s = true
starts_with (String.◌∷◌ c p) String.[] = false
starts_with (String.◌∷◌ c p) (String.◌∷◌ d s) = (code c == code d) && starts_with p s

unfoldable pub is_part : String → String → Bool
unfolding starts_with
is_part part String.[] = starts_with part String.[]
is_part part (String.◌∷◌ c s) = starts_with part (String.◌∷◌ c s) || is_part part s

-- `separator.join(words)`
unfoldable pub join : String → List String → String
join separator [] = ""
join separator (w ∷ []) = w
join separator (w ∷ v ∷ ws) = text_append w (text_append separator (join separator (v ∷ ws)))

join_example :
    (is_part "b, c" (join ", " ("a" ∷ "b" ∷ "c" ∷ [])) ≡ true)
    × (join "; " ("a" ∷ "b" ∷ []) ≡ "a; b")
unfolding is_part join
join_example = (refl, refl)

-- `s in {...}`
abbrev pub member : String → List String → Bool
member s [] = false
member s (w ∷ ws) = str_eq s w || member s ws

pub str_eq→path : (s t : String) → str_eq s t ≡ true → s ≡ t
str_eq→path s t h = (eq_iff s t).0 h

-- What holds of each word of a set holds of each member.
pub member-All {ℓ} :
    (P : String → Type ℓ) (s : String) (ws : List String) → All P ws → member s ws ≡ true → P s
member-All P s [] all h = cc
member-All P s (w ∷ ws) all h = elim (Bool-cases (str_eq s w)) [
  | inl e ↦ rw (str_eq→path s w e) all.0
  | inr e ↦ member-All P s ws all.1 (rw e at h)
]

-- `d.get(k)` on a literal table
abbrev pub lookup_word {ℓ} : {A : Type ℓ} → String → List (String × A) → Option A
lookup_word s [] = none
lookup_word s ((w, a) ∷ t) = if str_eq s w then some a else lookup_word s t

-- What holds of the default and of each value of a table holds of what is found.
pub lookup_word-All {ℓ κ} :
    {A : Type ℓ} (P : A → Type κ) (d : A) (s : String) (t : List (String × A))
    → P d
    → All (λ e. P e.1) t
    → P (or_else (lookup_word s t) d)
lookup_word-All P d s [] pd all = pd
lookup_word-All P d s ((w, a) ∷ t) pd all = elim (Bool-cases (str_eq s w)) [
  | inl e ↦ rw e all.0
  | inr e ↦ rw e (lookup_word-All P d s t pd all.1)
]

-- A test that holds of each word of a set holds of each member.
pub member-every :
    (p : String → Bool) (s : String) (ws : List String)
    → every p ws ≡ true
    → member s ws ≡ true
    → p s ≡ true
member-every p s [] all h = cc
member-every p s (w ∷ ws) all h =
    let both = and_true (p w) (every p ws) all in
    elim (Bool-cases (str_eq s w)) [
      | inl e ↦ rw (str_eq→path s w e) both.0
      | inr e ↦ member-every p s ws both.1 (rw e at h)
    ]
