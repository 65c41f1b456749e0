-- ===== src/TodoItem/Dates.antt =====
-- The date and the time of an issue as webapp/src/components/todo_item/todo_item.jsx writes them.
-- The host's `Date` gives the parts of a time stamp in local time, and `number_text` the text of a
-- number.
use Prim.Native.String.{[] as nil, ◌∷◌ as cons}
use text.Mathlib.TextLemmas.{cons-append, nil-append}
use okrbest_plugin_todo.Common.{
  String, ℕ, zero, suc, ◌≤◌, ◌<◌, Option, none, some, List, [], ◌∷◌, ◌≡◌, refl, concat, or_else,
  arith, ltb, Bool-cases, inl, inr, if◌then◌else◌,
}

pub record LocalTime : Type 0 where
  pub year : ℕ
  pub month : ℕ  -- from 0
  pub day : ℕ
  pub hours : ℕ
  pub minutes : ℕ
  pub seconds : ℕ

-- `MONTHS`
abbrev pub months : List String
months =
    "Jan" ∷ "Feb" ∷ "Mar" ∷ "Apr" ∷ "May" ∷ "Jun" ∷ "Jul" ∷ "Aug" ∷ "Sep" ∷ "Oct" ∷ "Nov" ∷ "Dec"
    ∷ []

-- an element of an array; out of range it is undefined
pub get_elem? : List String → ℕ → Option String
get_elem? [] i = none
get_elem? (x ∷ xs) zero = some x
get_elem? (x ∷ xs) (suc i) = get_elem? xs i

-- `s.substr(-2)`
pub last_two : String → String
last_two nil = nil
last_two (cons c nil) = cons c nil
last_two (cons c (cons d nil)) = cons c (cons d nil)
last_two (cons c (cons d (cons e s))) = last_two (cons d (cons e s))

module _ (number_text : ℕ → String) where
  -- `('0' + n).substr(-2)`
  unfoldable pub padded : ℕ → String
  unfolding last_two
  padded n = last_two (concat ("0" ∷ number_text n ∷ []))

  unfoldable pub formatted_time : LocalTime → String
  unfolding padded
  formatted_time t =
      concat (number_text t.hours ∷ ":" ∷ padded t.minutes ∷ ":" ∷ padded t.seconds ∷ [])

  unfoldable pub formatted_date : LocalTime → String
  unfolding get_elem?
  formatted_date t = concat (
      or_else (get_elem? months t.month) "undefined"
      ∷ " "
      ∷ number_text t.day
      ∷ ", "
      ∷ number_text t.year
      ∷ [])

abbrev pub text_length : String → ℕ
text_length nil = 0
text_length (cons c s) = suc (text_length s)

one_digit :
    (s : String)
    → text_length s ≡ 1
    → (last_two (concat ("0" ∷ s ∷ [])) ≡ concat ("0" ∷ s ∷ []))
      × (text_length (concat ("0" ∷ s ∷ [])) ≡ 2)
unfolding last_two
one_digit nil h = absurd (omega arith)
one_digit (cons c nil) h = (rw (cons-append, nil-append) refl, rw (cons-append, nil-append) refl)
one_digit (cons c (cons d s)) h = absurd (omega arith)

two_digits : (s : String) → text_length s ≡ 2 → last_two (concat ("0" ∷ s ∷ [])) ≡ s
unfolding last_two
two_digits nil h = absurd (omega arith)
two_digits (cons c nil) h = absurd (omega arith)
two_digits (cons c (cons d nil)) h = rw (cons-append, nil-append) refl
two_digits (cons c (cons d (cons e s))) h = absurd (omega arith)

-- Where the text of a number below ten has one character and that of one up to 99 has two: a number
-- of minutes or seconds is written with two characters, with a zero before it exactly if it is
-- below ten.
pub padded_lem :
    (number_text : ℕ → String) (n : ℕ)
    → n < 100
    → (n < 10 → text_length (number_text n) ≡ 1)
    → (10 ≤ n → text_length (number_text n) ≡ 2)
    → (text_length (padded number_text n) ≡ 2)
      × (padded number_text n
          ≡ (if ltb n 10 then concat ("0" ∷ number_text n ∷ []) else number_text n))
unfolding padded
padded_lem number_text n h one two = elim (Bool-cases (ltb n 10)) [
  | inl below ↦
      let (e, l) = one_digit (number_text n) (one (ground arith)) in rw (e, below) (l, refl)
  | inr above ↦ let l = two (ground arith) in rw (two_digits (number_text n) l, above) (l, refl)
]
