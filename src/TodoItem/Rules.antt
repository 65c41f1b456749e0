-- ===== src/TodoItem/Rules.antt =====
-- What an invariant of an item has to show: one rule for each thing that happens to its timers and
-- its effects: webapp/src/components/todo_item/todo_item.jsx and
-- webapp/src/components/buttons/complete.jsx.
use okrbest_plugin_todo.Common.{
  String, ℕ, ◌+◌, ◌≤◌, Bool, true, false, some, List, [], ◌∷◌, ◌++◌, ◌≡◌, All, nat_eq,
  if◌then◌else◌, arith, Bool-cases, inl, inr,
}
use okrbest_plugin_todo.Actions.{Effect, call, complete, remove}
use okrbest_plugin_todo.TodoItem.{
  Job, complete_toast, complete_issue, remove_issue, Timer, Item, Event, click_complete,
  click_remove, without, due_job,
}

abbrev pub is_complete : Effect → Bool
is_complete (call (complete _)) = true
is_complete _ = false

abbrev pub is_remove : Effect → Bool
is_remove (call (remove _)) = true
is_remove _ = false

-- How many of the effects pass a test.
abbrev pub count_of : (Effect → Bool) → List Effect → ℕ
count_of p [] = 0
count_of p (e ∷ es) = (if p e then 1 else 0) + count_of p es

pub count_of-append :
    (p : Effect → Bool) (xs ys : List Effect)
    → count_of p (xs ++ ys) ≡ count_of p xs + count_of p ys
count_of-append p [] ys = omega arith
count_of-append p (x ∷ xs) ys = omega (arith, count_of-append p xs ys)

abbrev pub timer : ℕ → ℕ → Job → Timer
timer id due job = record { id = id; due = due; job = job }

-- What has to be shown of a property `P` of the pending timers and a property `L` of the clock and
-- the effects, so that the events that satisfy `E` keep both.
pub record Rules (P : Timer → Type 0) (L : ℕ → List Effect → Type 0) (E : Event → Type 0)
    : Type 0 where
  pub other_effects :
      (now : ℕ) (log es : List Effect)
      → count_of is_complete es ≡ 0
      → count_of is_remove es ≡ 0
      → L now log
      → L now (log ++ es)
  pub time_passes : (now n : ℕ) (log : List Effect) → L now log → L (now + n) log
  pub click :
      (id now : ℕ) (log : List Effect)
      → E click_complete
      → L now log
      → P (timer id (now + 1000) complete_toast)
  pub toast :
      (t : Timer) (id now : ℕ)
      → P t
      → t.job ≡ complete_toast
      → t.due ≤ now
      → P (timer id (now + 5000) complete_issue)
  pub removal :
      (id now : ℕ) (log : List Effect)
      → E click_remove
      → L now log
      → P (timer id (now + 5000) remove_issue)
  pub completes :
      (t : Timer) (now : ℕ) (log : List Effect) (issue : String)
      → P t
      → t.job ≡ complete_issue
      → t.due ≤ now
      → L now log
      → L now (log ++ call (complete issue) ∷ [])
  pub removes :
      (t : Timer) (now : ℕ) (log : List Effect) (issue : String)
      → P t
      → t.job ≡ remove_issue
      → t.due ≤ now
      → L now log
      → L now (log ++ call (remove issue) ∷ [])

module _ (P : Timer → Type 0) where
  pub All-without : (id : ℕ) (ts : List Timer) → All P ts → All P (without id ts)
  unfolding without
  All-without id [] h = tt
  All-without id (t ∷ ts) h = ground (arith, All-without id ts h.1)

  pub All-snoc : (ts : List Timer) {t : Timer} → All P ts → P t → All P (ts ++ t ∷ [])
  All-snoc [] h p = (p, tt)
  All-snoc (u ∷ ts) h p = (h.0, All-snoc ts h.1 p)

  -- The timer whose job is run.
  pub due_timer :
      (id now : ℕ) (ts : List Timer) (job : Job)
      → All P ts
      → due_job id now ts ≡ some job
      → (t : Timer) × P t × (t.job ≡ job) × (t.due ≤ now)
  unfolding due_job
  due_timer id now [] job h e = cc
  due_timer id now (t ∷ ts) job h e = elim (Bool-cases (nat_eq t.id id)) [
    | inl same ↦ (t, h.0, ground arith, ground arith)
    | inr other ↦ due_timer id now ts job h.1 (rw (other, due_job) at e)
  ]

pub record Inv (P : Timer → Type 0) (L : ℕ → List Effect → Type 0) (item : Item) : Type 0 where
  pub timers : All P item.pending
  pub effects : L item.now item.log
