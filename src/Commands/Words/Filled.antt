-- ===== src/Commands/Words/Filled.antt =====
-- Which words of a command of server/command.go are empty.
use Prim.Native.Char.{Char, code}
use Prim.Native.String.{◌∷◌ as ◌∷ᶜ◌, [] as nil}
use text.Mathlib.TextLemmas.{cons-ne-nil}
use okrbest_plugin_todo.Common.{
  String, true, false, List, [], ◌∷◌, drop, ◌≡◌, ◌≢◌, refl, All, str_eq, eq_iff, arith, Bool-cases,
  inl, inr, nat_eq,
}
use okrbest_plugin_todo.Commands.Words.{
  is_space, is_gap, trim_left, trim_right, trim_space, collapse, push, split, command_words,
}
use okrbest_plugin_todo.Commands.Words.Reading.{word-IsGap}

abbrev pub AreFilled : List String → Type 0
AreFilled = All (λ word. word ≢ "")

-- The last character, if there is one, is no white space.
abbrev Ends : String → Type 0
Ends nil = Unit
Ends (c ∷ᶜ nil) = is_gap c ≡ false
Ends (c ∷ᶜ (d ∷ᶜ s)) = Ends (d ∷ᶜ s)

cons-Ends : (c : Char) (s : String) → is_gap c ≡ false → Ends s → Ends (c ∷ᶜ s)
cons-Ends c nil h e = h
cons-Ends c (d ∷ᶜ s) h e = e

cons_filled-Ends : (c : Char) (s : String) → s ≢ "" → Ends s → Ends (c ∷ᶜ s)
cons_filled-Ends c nil ne e = elim (ne refl) [ ]
cons_filled-Ends c (d ∷ᶜ s) ne e = e

gap_code : (c : Char) → is_gap c ≡ false → nat_eq (code c) 32 ≡ false
unfolding is_gap
gap_code c h = ground arith

tail-Ends : (c : Char) (s : String) → Ends (c ∷ᶜ s) → Ends s
tail-Ends c nil e = tt
tail-Ends c (d ∷ᶜ s) e = e

gap-Ends : (c : Char) (s : String) → is_gap c ≡ true → Ends (c ∷ᶜ s) → s ≢ ""
gap-Ends c nil h e = ground (arith, h, e)
gap-Ends c (d ∷ᶜ s) h e = cons-ne-nil d s

trim_right-Ends : (s : String) → Ends (trim_right s)
unfolding trim_right
trim_right-Ends nil = tt
trim_right-Ends (c ∷ᶜ s) = elim (Bool-cases (is_space c)) [
  | inl blank ↦ elim (Bool-cases (str_eq (trim_right s) "")) [
    | inl nothing ↦ rw (blank, nothing) tt
    | inr more ↦
        rw (blank, more)
          (cons_filled-Ends c (trim_right s) (ground (arith, eq_iff (trim_right s) "", more))
            (trim_right-Ends s))
  ]
  | inr other ↦ rw other (cons-Ends c (trim_right s) (word-IsGap c other) (trim_right-Ends s))
]

push-drop : (c : Char) (words : List String) → AreFilled (drop 1 words) → AreFilled (push c words)
push-drop c [] h = (cons-ne-nil c "", tt)
push-drop c (word ∷ words) h = (cons-ne-nil c word, h)

drop-push :
    (c : Char) (words : List String) → AreFilled (drop 1 words) → AreFilled (drop 1 (push c words))
drop-push c [] h = tt
drop-push c (word ∷ words) h = h

-- After a run of white space that was taken, the words of what follows are filled; within a text,
-- all but the first.
split-collapse :
    (s : String)
    → Ends s
    → (s ≢ "" → AreFilled (split (collapse true s))) × AreFilled (drop 1 (split (collapse false s)))
unfolding collapse split
split-collapse nil e = (λ h. elim (h refl) [ ], tt)
split-collapse (c ∷ᶜ s) e =
    let rest = split-collapse s (tail-Ends c s e) in
    elim (Bool-cases (is_gap c)) [
      | inl gap ↦ rw gap (λ _. rest.0 (gap-Ends c s gap e), rest.0 (gap-Ends c s gap e))
      | inr other ↦
          rw (other, gap_code c other)
            (
              λ _. push-drop c (split (collapse false s)) rest.1,
              drop-push c (split (collapse false s)) rest.1,
            )
    ]

-- No word of a command is empty, but perhaps the first one.
pub command_words-AreFilled : (text : String) → AreFilled (drop 1 (command_words text))
unfolding command_words trim_space
command_words-AreFilled text =
    (split-collapse (trim_space text) (trim_right-Ends (trim_left text))).1

push-cases :
    (c : Char) (words : List String) → (w : String) × (ws : List String) × (push c words ≡ w ∷ ws)
push-cases c [] = (c ∷ᶜ "", [], refl)
push-cases c (word ∷ words) = (c ∷ᶜ word, words, refl)

split-cases : (s : String) → (w : String) × (ws : List String) × (split s ≡ w ∷ ws)
unfolding split
split-cases nil = ("", [], refl)
split-cases (c ∷ᶜ s) = elim (Bool-cases (nat_eq (code c) 32)) [
  | inl blank ↦ rw blank ("", split s, refl)
  | inr other ↦ rw other (push-cases c (split s))
]

-- A command has a word at least.
pub command_words_cases :
    (text : String) → (w : String) × (ws : List String) × (command_words text ≡ w ∷ ws)
unfolding command_words
command_words_cases text = split-cases (collapse false (trim_space text))
