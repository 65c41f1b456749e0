-- ===== src/Examples/Items.antt =====
-- An item with its timers, and the toast.
use okrbest_plugin_todo.Common.{true, false, none, ◌+◌, List, [], ◌∷◌, ◌++◌, ◌≡◌, refl, arith}
use okrbest_plugin_todo.Model.{undo_complete_todo, undo_remove_todo}
use okrbest_plugin_todo.Actions.{call, open_todo_toast, complete, remove}
use okrbest_plugin_todo.TodoItem
use okrbest_plugin_todo.TodoItem.{
  Item, Event, click_complete, click_remove, click_edit, click_undo, wait, fire_timer, mounted, run,
  remove_issue, complete_issue,
}
use okrbest_plugin_todo.TodoItem.Rules.{timer, is_complete, is_remove, count_of}
use okrbest_plugin_todo.TodoItem.Completing.{Since, mounted-Since}
use okrbest_plugin_todo.TodoItem.Undoing.{
  completed_toast, removed_toast, until_toast, two_clicks, complete_lem, undo_complete, remove_lem,
  undo_after_two_clicks,
}
use okrbest_plugin_todo.TodoToast
use okrbest_plugin_todo.TodoToast.{Host}
use okrbest_plugin_todo.TodoToast.Lifetime.{run-closes}
use okrbest_plugin_todo.Examples.Sample.{item, toast, other_toast, no_toast}

-- both buttons, and all the timers
abbrev busy : List Event
busy =
    click_complete
    ∷ click_remove
    ∷ wait 7000
    ∷ fire_timer 1
    ∷ fire_timer 2
    ∷ wait 5000
    ∷ fire_timer 3
    ∷ []

busy_calls :
    (count_of is_complete (run item busy).log ≡ 1) × (count_of is_remove (run item busy).log ≡ 1)
unfolding TodoItem.step open_todo_toast
busy_calls = (refl, refl)

mounted-Since_example : Since 100 (run item busy).now (run item busy).log
mounted-Since_example = mounted-Since "i1" "Water the plants" none 100 busy

complete_lem_example :
    let clicked = run item (click_complete ∷ wait 900 ∷ fire_timer 1 ∷ []) in
    let toasted = run item (until_toast item 1000) in
    let waiting = run toasted (wait 4000 ∷ fire_timer 2 ∷ []) in
    let gone = run toasted (wait 5000 ∷ fire_timer 2 ∷ []) in
    let log = [] ++ completed_toast "i1" ∷ [] in
    (clicked.done ≡ true)
    × (clicked.hidden ≡ false)
    × (clicked.log ≡ [])
    × (toasted.done ≡ true)
    × (toasted.hidden ≡ true)
    × (toasted.log ≡ log)
    × (toasted.pending ≡ timer 2 (item.now + 1000 + 5000) complete_issue ∷ [])
    × (waiting.log ≡ log)
    × (waiting.pending ≡ toasted.pending)
    × (gone.log ≡ log ++ call (complete "i1") ∷ [])
    × (gone.pending ≡ [])
    × (gone.done ≡ true)
    × (gone.hidden ≡ true)
complete_lem_example =
    complete_lem item 900 1000 4000 5000 refl (omega arith) (omega arith) (omega arith)
      (omega arith)

undo_complete_example :
    let item' =
      run
        (run item (until_toast item 1000))
        (wait 4000 ∷ click_undo (undo_complete_todo "i1") ∷ []) in
    (item'.log ≡ [] ++ completed_toast "i1" ∷ [])
    × (item'.pending ≡ [])
    × (item'.done ≡ false)
    × (item'.hidden ≡ false)
undo_complete_example = undo_complete item 1000 4000 refl (omega arith)

remove_lem_example :
    let removed = run item (click_remove ∷ wait 4000 ∷ []) in
    let gone = run removed (wait 1000 ∷ fire_timer 1 ∷ []) in
    let undone = run removed (click_undo (undo_remove_todo "i1") ∷ []) in
    (removed.hidden ≡ true)
    × (removed.log ≡ [] ++ removed_toast "i1" ∷ [])
    × (gone.log ≡ ([] ++ removed_toast "i1" ∷ []) ++ call (remove "i1") ∷ [])
    × (gone.pending ≡ [])
    × (undone.log ≡ [] ++ removed_toast "i1" ∷ [])
    × (undone.pending ≡ [])
    × (undone.hidden ≡ false)
remove_lem_example = remove_lem item 4000 1000 refl (omega arith)

undo_after_two_clicks_example :
    let first = timer 3 (item.now + 1000 + 5000) complete_issue in
    let second = timer 4 (item.now + 1000 + 5000) complete_issue in
    let shown = run item (two_clicks item 1000) in
    let undone = run shown (click_undo (undo_complete_todo "i1") ∷ []) in
    let item' = run undone (wait 5000 ∷ fire_timer 4 ∷ fire_timer 3 ∷ []) in
    (shown.pending ≡ first ∷ second ∷ [])
    × (undone.pending ≡ first ∷ [])
    × (undone.done ≡ false)
    × (undone.hidden ≡ false)
    × (item'.log ≡ undone.log ++ call (complete "i1") ∷ [])
    × (item'.pending ≡ [])
    × (item'.done ≡ false)
    × (item'.hidden ≡ false)
undo_after_two_clicks_example =
    undo_after_two_clicks item 1000 5000 refl (omega arith) (omega arith)

-- a toast, another one, and the right-hand side is closed and opened again
abbrev toasts : List TodoToast.Event
toasts =
    TodoToast.open_rhs
    ∷ TodoToast.open_toast toast
    ∷ TodoToast.wait 3000
    ∷ TodoToast.open_toast other_toast
    ∷ TodoToast.close_rhs
    ∷ TodoToast.wait 9000
    ∷ []

run-closes_example :
    let closed = TodoToast.run no_toast toasts in
    ((TodoToast.run closed
        (TodoToast.open_rhs ∷ TodoToast.wait 5000 ∷ TodoToast.timer ∷ [])).content
      ≡ none)
    × ((TodoToast.run closed
          (TodoToast.close_rhs ∷ TodoToast.wait 60000 ∷ TodoToast.timer ∷ [])).content
        ≡ closed.content)
run-closes_example = run-closes no_toast toasts 60000 refl refl
