-- ===== src/Commands/Words/Reading.antt =====
-- What words a command of server/command.go has.
use Prim.Native.Char.{Char, code}
use Prim.Native.String.{◌∷◌ as ◌∷ᶜ◌, [] as nil, ◌++◌ as ◌++ᶜ◌}
use text.Mathlib.TextLemmas.{nil-append, cons-append, append_assoc, append-ne-nil_of_right_ne-nil}
use okrbest_plugin_todo.Common.{
  String, Bool, true, false, List, [], ◌∷◌, map, ◌≡◌, ◌≢◌, refl, sym, ◌∙◌, ap, All, str_eq, eq_iff,
  arith, Bool-cases, inl, inr, nat_eq,
}
use okrbest_plugin_todo.Commands.Words.{
  is_space, is_gap, trim_left, trim_right, collapse, split, command_words,
}

-- All characters pass the test, or none does.
abbrev pub AllChars : (Char → Bool) → Bool → String → Type 0
AllChars p b nil = Unit
AllChars p b (c ∷ᶜ s) = (p c ≡ b) × AllChars p b s

abbrev pub IsBlank : String → Type 0
IsBlank s = AllChars is_space true s

abbrev pub IsGap : String → Type 0
IsGap s = (s ≢ "") × AllChars is_gap true s

abbrev pub IsWord : String → Type 0
IsWord s = (s ≢ "") × AllChars is_space false s

-- a word, and further words each after its gap
abbrev pub spell : String → List (String × String) → String
spell word [] = word
spell word ((gap, next) ∷ rest) = word ++ᶜ (gap ++ᶜ spell next rest)

gap-IsSpace : (c : Char) → is_gap c ≡ true → is_space c ≡ true
unfolding is_gap is_space
gap-IsSpace c h = ground arith

pub word-IsGap : (c : Char) → is_space c ≡ false → is_gap c ≡ false
word-IsGap c h = elim (Bool-cases (is_gap c)) [
  | inl gap ↦ ground (arith, gap-IsSpace c gap)
  | inr other ↦ other
]

gap-IsBlank : (s : String) → AllChars is_gap true s → IsBlank s
gap-IsBlank nil h = tt
gap-IsBlank (c ∷ᶜ s) h = (gap-IsSpace c h.0, gap-IsBlank s h.1)

blank_code : (c : Char) → is_space c ≡ false → nat_eq (code c) 32 ≡ false
unfolding is_space
blank_code c h = ground arith

trim_left-IsBlank : (s t : String) → IsBlank s → trim_left (s ++ᶜ t) ≡ trim_left t
unfolding trim_left
trim_left-IsBlank nil t h = ap trim_left (nil-append t)
trim_left-IsBlank (c ∷ᶜ s) t h = rw (cons-append c s t, h.0) (trim_left-IsBlank s t h.1)

trim_left-IsWord : (s t : String) → IsWord s → trim_left (s ++ᶜ t) ≡ s ++ᶜ t
unfolding trim_left
trim_left-IsWord nil t h = elim (h.0 refl) [ ]
trim_left-IsWord (c ∷ᶜ s) t h = rw (cons-append c s t, h.1.0) refl

trim_right-IsBlank : (s : String) → IsBlank s → trim_right s ≡ ""
unfolding trim_right
trim_right-IsBlank nil h = refl
trim_right-IsBlank (c ∷ᶜ s) h = rw (h.0, trim_right-IsBlank s h.1) refl

trim_right-word : (s : String) → AllChars is_space false s → trim_right s ≡ s
unfolding trim_right
trim_right-word nil h = refl
trim_right-word (c ∷ᶜ s) h = rw (h.0, trim_right-word s h.1) refl

trim_right-blank_after : (s t : String) → IsBlank t → trim_right (s ++ᶜ t) ≡ trim_right s
unfolding trim_right
trim_right-blank_after nil t h = ap trim_right (nil-append t) ∙ trim_right-IsBlank t h
trim_right-blank_after (c ∷ᶜ s) t h = rw (cons-append c s t, trim_right-blank_after s t h) refl

-- What is before a text that is not blank stays.
trim_right-append : (s t : String) → trim_right t ≡ t → t ≢ "" → trim_right (s ++ᶜ t) ≡ s ++ᶜ t
unfolding trim_right
trim_right-append nil t h ne = ap trim_right (nil-append t) ∙ h ∙ sym (nil-append t)
trim_right-append (c ∷ᶜ s) t h ne =
    let filled : str_eq (s ++ᶜ t) "" ≡ false =
      ground (arith, eq_iff (s ++ᶜ t) "", append-ne-nil_of_right_ne-nil s ne) in
    rw (cons-append c s t, trim_right-append s t h ne, filled)
      (elim (Bool-cases (is_space c)) [ inl b ↦ rw b refl | inr b ↦ rw b refl ])

collapse-word :
    (s t : String) → AllChars is_space false s → collapse false (s ++ᶜ t) ≡ s ++ᶜ collapse false t
unfolding collapse
collapse-word nil t h = ap (collapse false) (nil-append t) ∙ sym (nil-append (collapse false t))
collapse-word (c ∷ᶜ s) t h =
    rw (cons-append c s t, word-IsGap c h.0, collapse-word s t h.1) (sym (cons-append c s _))

-- A run of such characters swallows the next ones.
collapse_run : (s t : String) → AllChars is_gap true s → collapse true (s ++ᶜ t) ≡ collapse true t
unfolding collapse
collapse_run nil t h = ap (collapse true) (nil-append t)
collapse_run (c ∷ᶜ s) t h = rw (cons-append c s t, h.0) (collapse_run s t h.1)

collapse-IsGap : (s t : String) → IsGap s → collapse false (s ++ᶜ t) ≡ " " ∷ᶜ collapse true t
unfolding collapse
collapse-IsGap nil t h = elim (h.0 refl) [ ]
collapse-IsGap (c ∷ᶜ s) t h = rw (cons-append c s t, h.1.0, collapse_run s t h.1.1) refl

-- Before a word it does not matter what came before.
collapse-IsWord : (s t : String) → IsWord s → collapse true (s ++ᶜ t) ≡ collapse false (s ++ᶜ t)
unfolding collapse
collapse-IsWord nil t h = elim (h.0 refl) [ ]
collapse-IsWord (c ∷ᶜ s) t h = rw (cons-append c s t, word-IsGap c h.1.0) refl

split-word : (s t : String) → AllChars is_space false s → split (s ++ᶜ (" " ∷ᶜ t)) ≡ s ∷ split t
unfolding split
split-word nil t h = ap split (nil-append (" " ∷ᶜ t))
split-word (c ∷ᶜ s) t h = rw (cons-append c s (" " ∷ᶜ t), blank_code c h.0, split-word s t h.1) refl

split_last : (s : String) → AllChars is_space false s → split s ≡ s ∷ []
unfolding split
split_last nil h = refl
split_last (c ∷ᶜ s) h = rw (blank_code c h.0, split_last s h.1) refl

abbrev pub AreSpelled : List (String × String) → Type 0
AreSpelled = All (λ (gap, word). IsGap gap × IsWord word)

spell-filled :
    (word : String) (rest : List (String × String))
    → IsWord word
    → AreSpelled rest
    → spell word rest ≢ ""
spell-filled word [] h hs = h.0
spell-filled word ((gap, next) ∷ rest) h hs =
    append-ne-nil_of_right_ne-nil word
      (append-ne-nil_of_right_ne-nil gap (spell-filled next rest hs.0.1 hs.1))

trim_right-spell :
    (word : String) (rest : List (String × String))
    → IsWord word
    → AreSpelled rest
    → trim_right (spell word rest) ≡ spell word rest
trim_right-spell word [] h hs = trim_right-word word h.1
trim_right-spell word ((gap, next) ∷ rest) h hs =
    let filled = spell-filled next rest hs.0.1 hs.1 in
    trim_right-append word _
      (trim_right-append gap _ (trim_right-spell next rest hs.0.1 hs.1) filled)
      (append-ne-nil_of_right_ne-nil gap filled)

collapse_alone : (s : String) → AllChars is_space false s → collapse false s ≡ s
unfolding collapse
collapse_alone nil h = refl
collapse_alone (c ∷ᶜ s) h = rw (word-IsGap c h.0, collapse_alone s h.1) refl

collapse-spell :
    (word : String) (rest : List (String × String))
    → IsWord word
    → collapse true (spell word rest) ≡ collapse false (spell word rest)
unfolding collapse
collapse-spell nil [] h = elim (h.0 refl) [ ]
collapse-spell (c ∷ᶜ s) [] h = rw (word-IsGap c h.1.0) refl
collapse-spell word ((gap, next) ∷ rest) h = collapse-IsWord word _ h

split-spell :
    (word : String) (rest : List (String × String))
    → IsWord word
    → AreSpelled rest
    → split (collapse false (spell word rest)) ≡ word ∷ map (λ (_, w). w) rest
split-spell word [] h hs = ap split (collapse_alone word h.1) ∙ split_last word h.1
split-spell word ((gap, next) ∷ rest) h hs =
    rw
      (
        collapse-word word (gap ++ᶜ spell next rest) h.1,
        collapse-IsGap gap (spell next rest) hs.0.0,
        collapse-spell next rest hs.0.1,
        split-word word (collapse false (spell next rest)) h.1,
      )
      (ap (word ∷◌) (split-spell next rest hs.0.1 hs.1))

trim_left-spell :
    (word end : String) (rest : List (String × String))
    → IsWord word
    → trim_left (spell word rest ++ᶜ end) ≡ spell word rest ++ᶜ end
trim_left-spell word end [] h = trim_left-IsWord word end h
trim_left-spell word end ((gap, next) ∷ rest) h =
    rw (append_assoc word (gap ++ᶜ spell next rest) end) (trim_left-IsWord word _ h)

-- Let a text be spelled with any white space before its first word and after its last one, and with
-- one or more blanks, tabs or line breaks between its words, none of which is empty or has white
-- space. A command with this text then has these words, and no other.
pub command_words-spell :
    (start word : String) (rest : List (String × String)) (end : String)
    → IsBlank start
    → IsWord word
    → All (λ (gap, next). IsGap gap × IsWord next) rest
    → IsBlank end
    → command_words (start ++ᶜ (spell word rest ++ᶜ end)) ≡ word ∷ map (λ (_, w). w) rest
unfolding command_words
command_words-spell start word rest end hs h hr he =
    rw
      (
        trim_left-IsBlank start (spell word rest ++ᶜ end) hs,
        trim_left-spell word end rest h,
        trim_right-blank_after (spell word rest) end he,
        trim_right-spell word rest h hr,
      )
      (split-spell word rest h hr)
