-- ===== src/TodoItem/Completing.antt =====
-- When an item calls the server, and what it needs for that: the delays of
-- webapp/src/components/buttons/complete.jsx and webapp/src/components/todo_item/todo_item.jsx.
use okrbest_plugin_todo.Common.{
  String, ℕ, ◌+◌, ◌≤◌, ◌<◌, Bool, Option, List, [], ◌∷◌, ◌≡◌, ◌≢◌, refl, All, arith,
}
use okrbest_plugin_todo.Actions.{Effect, call, complete, remove}
use okrbest_plugin_todo.TodoItem.{
  Job, complete_toast, complete_issue, remove_issue, Timer, Item, Event, click_complete,
  click_remove, mounted, run,
}
use okrbest_plugin_todo.TodoItem.Rules.{is_complete, is_remove, count_of, count_of-append, Rules}
use okrbest_plugin_todo.TodoItem.Timers.{run-Inv}

-- the least time from a click to the end of a timer
abbrev delay : Job → ℕ
delay complete_toast = 1000
delay complete_issue = 6000
delay remove_issue = 5000

abbrev NotBefore : ℕ → Timer → Type 0
NotBefore start t = start + delay t.job ≤ t.due

-- Since `start`, at which no timer was pending, a call was made only once its delay was over.
pub record Since (start now : ℕ) (log : List Effect) : Type 0 where
  pub started : start ≤ now
  pub completed : 0 < count_of is_complete log → start + 6000 ≤ now
  pub removed : 0 < count_of is_remove log → start + 5000 ≤ now

abbrev Always : Event → Type 0
Always e = Unit

Since-rules : (start : ℕ) → Rules (NotBefore start) (Since start) Always
Since-rules start = record {
  other_effects = λ now log es c r l.
      omega (arith, count_of-append is_complete log es, count_of-append is_remove log es, l);
  time_passes = λ now n log l. omega (arith, l);
  click = λ id now log _ l. omega (arith, l);
  toast = λ t id now p j d. ground arith;
  removal = λ id now log _ l. omega (arith, l);
  completes = λ t now log issue p j d l.
      ground (arith, count_of-append is_remove log (call (complete issue) ∷ []), l);
  removes = λ t now log issue p j d l.
      ground (arith, count_of-append is_complete log (call (remove issue) ∷ []), l);
}

always : (es : List Event) → All Always es
always [] = tt
always (e ∷ es) = (tt, always es)

-- Whatever happens to an item that is shown at a time `start`, it does not ask the server to
-- complete the issue before 6 seconds are over, nor to remove it before 5 seconds are over.
pub mounted-Since :
    (id message : String) (description : Option String) (start : ℕ) (es : List Event)
    → let item = run (mounted id message description start) es in Since start item.now item.log
mounted-Since id message description start es =
    (run-Inv (Since-rules start) (mounted id message description start) es (always es) (record {
      timers = tt;
      effects = record { started = omega arith; completed = omega arith; removed = omega arith };
    })).effects

abbrev pub NotComplete : Event → Type 0
NotComplete e = e ≢ click_complete

abbrev pub NotRemove : Event → Type 0
NotRemove e = e ≢ click_remove

abbrev pub OnlyRemoves : Timer → Type 0
OnlyRemoves t = t.job ≡ remove_issue

abbrev pub NoRemoves : Timer → Type 0
NoRemoves t = t.job ≢ remove_issue

-- So many calls of a kind, and no more.
abbrev Calls : (Effect → Bool) → ℕ → ℕ → List Effect → Type 0
Calls p n now log = count_of p log ≡ n

complete_rules : (n : ℕ) → Rules OnlyRemoves (Calls is_complete n) NotComplete
complete_rules n = record {
  other_effects = λ now log es c r l. omega (arith, count_of-append is_complete log es, l);
  time_passes = λ now m log l. l;
  click = λ id now log ok l. absurd (ok refl);
  toast = λ t id now p j d. ground arith;
  removal = λ id now log _ l. refl;
  completes = λ t now log issue p j d l. ground arith;
  removes = λ t now log issue p j d l.
      omega (arith, count_of-append is_complete log (call (remove issue) ∷ []), l);
}

remove_rules : (n : ℕ) → Rules NoRemoves (Calls is_remove n) NotRemove
remove_rules n = record {
  other_effects = λ now log es c r l. omega (arith, count_of-append is_remove log es, l);
  time_passes = λ now m log l. l;
  click = λ id now log ok l. ground arith;
  toast = λ t id now p j d. ground arith;
  removal = λ id now log ok l. absurd (ok refl);
  completes = λ t now log issue p j d l.
      omega (arith, count_of-append is_remove log (call (complete issue) ∷ []), l);
  removes = λ t now log issue p j d l. absurd (p j);
}

-- From an item with no timer of a completion pending, events without a click on the button
-- `complete` lead to no further call that completes the issue.
pub no_click_no_complete :
    (item : Item) (es : List Event)
    → All OnlyRemoves item.pending
    → All NotComplete es
    → count_of is_complete (run item es).log ≡ count_of is_complete item.log
no_click_no_complete item es t ok =
    (run-Inv (complete_rules (count_of is_complete item.log)) item es ok
      (record { timers = t; effects = refl })).effects

-- From an item with no timer of a removal pending, events without a click on `Delete todo` lead to
-- no further call that removes the issue.
pub no_click_no_remove :
    (item : Item) (es : List Event)
    → All NoRemoves item.pending
    → All NotRemove es
    → count_of is_remove (run item es).log ≡ count_of is_remove item.log
no_click_no_remove item es t ok =
    (run-Inv (remove_rules (count_of is_remove item.log)) item es ok
      (record { timers = t; effects = refl })).effects
