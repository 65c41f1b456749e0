-- ===== src/TodoItem.antt =====
-- webapp/src/components/todo_item/todo_item.jsx with the button of
-- webapp/src/components/buttons/complete.jsx: an issue on a list, its timers, and what undoing
-- does. The browser's timers are explicit: `setTimeout` adds one, `clearTimeout` takes it away, and
-- the event `fire` runs one that is due. The event `wait` lets time pass.
pub mod Rules
pub mod Timers
pub mod Completing
pub mod Undoing
pub mod Shown
pub mod Dates
use okrbest_plugin_todo.Common.{
  String, ℕ, suc, ◌+◌, Bool, true, false, not, ◌&&◌, Option, none, some, List, [], ◌∷◌, ◌++◌,
  str_eq, leb, nat_eq, or_else, if◌then◌else◌, foldl, map,
}
use okrbest_plugin_todo.Model.{Toast, Undo, undo_complete_todo, undo_remove_todo}
use okrbest_plugin_todo.Actions.{
  Value, text, undefined, Effect, call, complete, remove, accept, bump, edit_issue, open_todo_toast,
}
use okrbest_plugin_todo.Assignee.{edit_assignee}

-- What a timer runs: the callback of the button `complete`, and the two calls of the server.
pub data Job : Type 0 where
  complete_toast complete_issue remove_issue : Job

pub record Timer : Type 0 where
  pub id : ℕ
  pub due : ℕ
  pub job : Job

-- The state of the component, its two refs, and the clock with the timers that are pending.
pub record Item : Type 0 where
  pub issue_id : String
  pub done : Bool
  pub edit_todo : Bool
  pub message : String
  pub description : Option String
  pub hidden : Bool
  pub complete_timeout : Option ℕ
  pub remove_timeout : Option ℕ
  pub now : ℕ
  pub next_id : ℕ
  pub pending : List Timer
  pub log : List Effect  -- the effects so far, the latest last

-- `useState` and `useRef` at the first rendering of an issue, at a time `now`
abbrev pub mounted : String → String → Option String → ℕ → Item
mounted issue_id message description now = record {
  issue_id = issue_id;
  done = false;
  edit_todo = false;
  message = message;
  description = description;
  hidden = false;
  complete_timeout = none;
  remove_timeout = none;
  now = now;
  next_id = 1;
  pending = [];
  log = [];
}

emit : Effect → Item → Item
emit e item = record item { log = item.log ++ e ∷ [] }

-- `setTimeout`; the new timer's id is the old `next_id`
set_timeout : Job → ℕ → Item → Item
set_timeout job delay item = record item {
  next_id = suc item.next_id;
  pending = item.pending ++ (record { id = item.next_id; due = item.now + delay; job = job }) ∷ [];
}

pub without : ℕ → List Timer → List Timer
without id [] = []
without id (t ∷ ts) = let rest = without id ts in if nat_eq t.id id then rest else t ∷ rest

clear_timeout : Option ℕ → Item → Item
unfolding without
clear_timeout none item = item
clear_timeout (some id) item = record item { pending = without id item.pending }

-- `completeToast`
unfoldable pub show_complete_toast : Item → Item
unfolding emit set_timeout
show_complete_toast item =
    let toasted =
      emit
        (open_todo_toast (record {
          icon = "check";
          message = "Todo completed";
          undo = undo_complete_todo item.issue_id;
        }))
        item in
    record (set_timeout complete_issue 5000 (record toasted { hidden = true })) {
      complete_timeout = some item.next_id;
    }

-- `removeTodo`
unfoldable pub remove_todo : Item → Item
unfolding emit set_timeout
remove_todo item =
    let toasted =
      emit
        (open_todo_toast (record {
          icon = "trash-can-outline";
          message = "Todo deleted";
          undo = undo_remove_todo item.issue_id;
        }))
        item in
    record (set_timeout remove_issue 5000 (record toasted { hidden = true })) {
      remove_timeout = some item.next_id;
    }

-- `undoCompleteTodo` and `undoRemoveTodo`, by the callback of the toast
unfoldable pub undo : Undo → Item → Item
unfolding clear_timeout
undo (undo_remove_todo _) item = record (clear_timeout item.remove_timeout item) { hidden = false }
undo (undo_complete_todo _) item = record (clear_timeout item.complete_timeout item) {
  hidden = false;
  done = false;
}

-- `markTodoAsDone` of the button, with `markAsDone={() => setDone(true)}`
unfoldable pub mark_todo_as_done : Item → Item
unfolding set_timeout
mark_todo_as_done item = set_timeout complete_toast 1000 (record item { done = true })

unfoldable pub run_job : Job → Item → Item
unfolding show_complete_toast emit
run_job complete_toast item = show_complete_toast item
run_job complete_issue item = emit (call (complete item.issue_id)) item
run_job remove_issue item = emit (call (remove item.issue_id)) item

-- The job of the first pending timer with an id, if it is due.
pub due_job : ℕ → ℕ → List Timer → Option Job
due_job id now [] = none
due_job id now (t ∷ ts) =
    if nat_eq t.id id then (if leb t.due now then some t.job else none) else due_job id now ts

unfoldable pub fire : ℕ → Item → Item
unfolding due_job run_job without
fire id item = elim (due_job id item.now item.pending) [
  | none ↦ item
  | some job ↦ run_job job (record item { pending = without id item.pending })
]

-- an undefined description is left out of the request's body
abbrev description_value : Option String → Value
description_value none = undefined
description_value (some d) = text d

unfoldable pub save_edited_todo : Item → Item
unfolding emit
save_edited_todo item =
    emit (call (edit_issue item.issue_id item.message (description_value item.description)))
      (record item { edit_todo = false })

unfoldable pub on_key_down : String → Bool → Item → Item
unfolding save_edited_todo
on_key_down key shift_key item =
    let saved = if str_eq key "Enter" && not shift_key then save_edited_todo item else item in
    if str_eq key "Escape" then record saved { edit_todo = false } else saved

pub data Event : Type 0 where
  click_complete click_remove click_edit click_cancel click_save : Event
  click_assign click_accept click_bump : Event
  message_change description_change : String → Event
  key_down : String → Bool → Event
  click_undo : Undo → Event
  wait : ℕ → Event
  fire_timer : ℕ → Event

unfoldable pub step : Item → Event → Item
unfolding mark_todo_as_done remove_todo save_edited_todo edit_assignee emit on_key_down undo fire
step item click_complete = mark_todo_as_done item
step item click_remove = remove_todo item
step item click_edit = record item { edit_todo = true }
step item click_cancel = record item { edit_todo = false }
step item click_save = save_edited_todo item
step item click_assign = record item { log = item.log ++ edit_assignee item.issue_id }
step item click_accept = emit (call (accept item.issue_id)) item
step item click_bump = emit (call (bump item.issue_id)) item
step item (message_change value) = record item { message = value }
step item (description_change value) = record item { description = some value }
step item (key_down key shift_key) = on_key_down key shift_key item
step item (click_undo u) = undo u item
step item (wait n) = record item { now = item.now + n }
step item (fire_timer id) = fire id item

abbrev pub run : Item → List Event → Item
run = foldl step
