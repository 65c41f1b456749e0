-- ===== src/Plugin/Activity.antt =====
-- When a click asks for the reminder: `activityFunc` of webapp/src/index.js.
use okrbest_plugin_todo.Common.{
  ℕ, ◌+◌, ◌≤◌, ◌<◌, List, [], ◌∷◌, ◌≡◌, is_nil, ltb, if◌then◌else◌, arith, Bool-cases, inl, inr,
}
use okrbest_plugin_todo.Plugin.{activity, activity_timeout, max_safe_integer}

-- The times of a sequence of clicks at which the lists are fetched with a reminder.
abbrev pub reminders : ℕ → List ℕ → List ℕ
reminders last [] = []
reminders last (now ∷ clicks) =
    let rest = reminders (activity last now).1 clicks in
    if is_nil (activity last now).0 then rest else now ∷ rest

-- The clicks come in the order of time.
abbrev pub InOrder : ℕ → List ℕ → Type 0
InOrder from [] = Unit
InOrder from (now ∷ clicks) = (from ≤ now) × InOrder now clicks

-- Each of the times is more than an hour after the one before.
abbrev pub Spaced : ℕ → List ℕ → Type 0
Spaced from [] = Unit
Spaced from (t ∷ ts) = (from + activity_timeout < t) × Spaced t ts

Spaced-weaken : (a b : ℕ) (ts : List ℕ) → a ≤ b → Spaced b ts → Spaced a ts
Spaced-weaken a b [] l s = tt
Spaced-weaken a b (t ∷ ts) l s = (omega (arith, s.0), s.1)

Spaced-reminders :
    (last : ℕ) (clicks : List ℕ) → InOrder last clicks → Spaced last (reminders last clicks)
unfolding activity
Spaced-reminders last [] o = tt
Spaced-reminders last (now ∷ clicks) o = elim (Bool-cases (ltb (last + activity_timeout) now)) [
  | inl late ↦ rw late (ground arith, Spaced-reminders now clicks o.1)
  | inr soon ↦
      rw soon (Spaced-weaken last now (reminders now clicks) o.0 (Spaced-reminders now clicks o.1))
]

-- The first click after the plugin has started fetches no reminder, and of all later clicks, in the
-- order of time, those that fetch one are more than an hour after the first click and more than an
-- hour apart.
pub reminders-Spaced :
    (first : ℕ) (clicks : List ℕ)
    → first ≤ max_safe_integer
    → InOrder first clicks
    → (reminders max_safe_integer (first ∷ clicks) ≡ reminders first clicks)
      × Spaced first (reminders first clicks)
unfolding activity
reminders-Spaced first clicks h o = (ground arith, Spaced-reminders first clicks o)
