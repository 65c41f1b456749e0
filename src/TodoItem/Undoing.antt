-- ===== src/TodoItem/Undoing.antt =====
-- Completing and removing with and without undoing: `completeToast`, `removeTodo`,
-- `undoCompleteTodo` and `undoRemoveTodo` of webapp/src/components/todo_item/todo_item.jsx.
use okrbest_plugin_todo.Common.{
  String, ℕ, suc, ◌+◌, ◌≤◌, ◌<◌, true, false, some, List, [], ◌∷◌, ◌++◌, ◌≡◌, arith,
}
use okrbest_plugin_todo.Model.{undo_complete_todo, undo_remove_todo}
use okrbest_plugin_todo.Actions.{Effect, call, complete, remove, open_todo_toast}
use okrbest_plugin_todo.TodoItem.{
  complete_issue, Item, Event, click_complete, click_remove, click_undo, wait, fire_timer, step,
  run,
}
use okrbest_plugin_todo.TodoItem.Rules.{timer}

-- the toasts of the two operations
abbrev pub completed_toast : String → Effect
completed_toast id =
    open_todo_toast
      (record { icon = "check"; message = "Todo completed"; undo = undo_complete_todo id })

abbrev pub removed_toast : String → Effect
removed_toast id =
    open_todo_toast
      (record { icon = "trash-can-outline"; message = "Todo deleted"; undo = undo_remove_todo id })

-- the events from a click to the toast
abbrev pub until_toast : Item → ℕ → List Event
until_toast item a = click_complete ∷ wait a ∷ fire_timer item.next_id ∷ []

toasted_lem :
    (item : Item) (a : ℕ)
    → item.pending ≡ []
    → 1000 ≤ a
    → run item (until_toast item a) ≡ record item {
      done = true;
      hidden = true;
      complete_timeout = some (suc item.next_id);
      now = item.now + a;
      next_id = suc (suc item.next_id);
      pending = timer (suc item.next_id) (item.now + a + 5000) complete_issue ∷ [];
      log = item.log ++ completed_toast item.issue_id ∷ [];
    }
unfolding step
toasted_lem item a p h = ground arith

clicked_early :
    (item : Item) (early : ℕ)
    → item.pending ≡ []
    → early < 1000
    → let clicked = run item (click_complete ∷ wait early ∷ fire_timer item.next_id ∷ []) in
      (clicked.done ≡ true) × (clicked.hidden ≡ item.hidden) × (clicked.log ≡ item.log)
unfolding step
clicked_early item early p l = ground arith

-- From an item with no timer pending: a click on the button `complete` marks the item as done at
-- once, and less than 1 second later nothing else has happened, though a timer is run. 1 second
-- after the click the item is hidden, a toast is shown and a second timer is pending; less than 5
-- seconds after that nothing else has happened, and after 5 seconds, if nothing is undone, the
-- server is asked exactly once to complete the issue, with no timer left.
pub complete_lem :
    (item : Item) (early a soon b : ℕ)
    → item.pending ≡ []
    → early < 1000
    → 1000 ≤ a
    → soon < 5000
    → 5000 ≤ b
    → let first = item.next_id in
      let second = suc item.next_id in
      let clicked = run item (click_complete ∷ wait early ∷ fire_timer first ∷ []) in
      let toasted = run item (until_toast item a) in
      let waiting = run toasted (wait soon ∷ fire_timer second ∷ []) in
      let gone = run toasted (wait b ∷ fire_timer second ∷ []) in
      let log = item.log ++ completed_toast item.issue_id ∷ [] in
      (clicked.done ≡ true)
      × (clicked.hidden ≡ item.hidden)
      × (clicked.log ≡ item.log)
      × (toasted.done ≡ true)
      × (toasted.hidden ≡ true)
      × (toasted.log ≡ log)
      × (toasted.pending ≡ timer second (item.now + a + 5000) complete_issue ∷ [])
      × (waiting.log ≡ log)
      × (waiting.pending ≡ toasted.pending)
      × (gone.log ≡ log ++ call (complete item.issue_id) ∷ [])
      × (gone.pending ≡ [])
      × (gone.done ≡ true)
      × (gone.hidden ≡ true)
unfolding step
complete_lem item early a soon b p l h m k =
    rw (toasted_lem item a p h) (ground (arith, clicked_early item early p l))

-- From an item with no timer pending: clicking `complete`, and undoing once the toast is shown and
-- before the timer of 5 seconds has run, shows the item again, not done, with no timer pending and
-- no call of the server.
pub undo_complete :
    (item : Item) (a b : ℕ)
    → item.pending ≡ []
    → 1000 ≤ a
    → let item' =
        run
          (run item (until_toast item a))
          (wait b ∷ click_undo (undo_complete_todo item.issue_id) ∷ []) in
      (item'.log ≡ item.log ++ completed_toast item.issue_id ∷ [])
      × (item'.pending ≡ [])
      × (item'.done ≡ false)
      × (item'.hidden ≡ false)
unfolding step
undo_complete item a b p h = rw (toasted_lem item a p h) (ground arith)

-- From an item with no timer pending, a click on `Delete todo` hides the item at once and shows a
-- toast. After 5 seconds the server is asked exactly once to remove the issue. Undoing before that
-- shows the item again, with no timer pending and no call of the server.
pub remove_lem :
    (item : Item) (a b : ℕ)
    → item.pending ≡ []
    → 5000 ≤ a + b
    → let removed = run item (click_remove ∷ wait a ∷ []) in
      let gone = run removed (wait b ∷ fire_timer item.next_id ∷ []) in
      let undone = run removed (click_undo (undo_remove_todo item.issue_id) ∷ []) in
      (removed.hidden ≡ true)
      × (removed.log ≡ item.log ++ removed_toast item.issue_id ∷ [])
      × (gone.log
          ≡ (item.log ++ removed_toast item.issue_id ∷ []) ++ call (remove item.issue_id) ∷ [])
      × (gone.pending ≡ [])
      × (undone.log ≡ item.log ++ removed_toast item.issue_id ∷ [])
      × (undone.pending ≡ [])
      × (undone.hidden ≡ false)
unfolding step
remove_lem item a b p h = ground arith

-- two clicks, and both toasts
abbrev pub two_clicks : Item → ℕ → List Event
two_clicks item a =
    click_complete
    ∷ click_complete
    ∷ wait a
    ∷ fire_timer item.next_id
    ∷ fire_timer (suc item.next_id)
    ∷ []

two_clicks_lem :
    (item : Item) (a : ℕ)
    → item.pending ≡ []
    → 1000 ≤ a
    → run item (two_clicks item a) ≡ record item {
      done = true;
      hidden = true;
      complete_timeout = some (suc (suc (suc item.next_id)));
      now = item.now + a;
      next_id = suc (suc (suc (suc item.next_id)));
      pending =
          timer (suc (suc item.next_id)) (item.now + a + 5000) complete_issue
          ∷ timer (suc (suc (suc item.next_id))) (item.now + a + 5000) complete_issue
          ∷ [];
      log = (item.log ++ completed_toast item.issue_id ∷ []) ++ completed_toast item.issue_id ∷ [];
    }
unfolding step
two_clicks_lem item a p h = ground arith

-- If the button `complete` is clicked a second time before the toasts, two timers are pending that
-- ask the server to complete the issue. Undoing brings back the item and cancels the second timer,
-- so that running it does nothing, but not the first: 5 seconds after the toasts the server is still
-- asked once to complete the issue, although the item is shown as not done.
pub undo_after_two_clicks :
    (item : Item) (a b : ℕ)
    → item.pending ≡ []
    → 1000 ≤ a
    → 5000 ≤ b
    → let first = timer (suc (suc item.next_id)) (item.now + a + 5000) complete_issue in
      let second = timer (suc (suc (suc item.next_id))) (item.now + a + 5000) complete_issue in
      let shown = run item (two_clicks item a) in
      let undone = run shown (click_undo (undo_complete_todo item.issue_id) ∷ []) in
      let item' = run undone (wait b ∷ fire_timer second.id ∷ fire_timer first.id ∷ []) in
      (shown.pending ≡ first ∷ second ∷ [])
      × (undone.pending ≡ first ∷ [])
      × (undone.done ≡ false)
      × (undone.hidden ≡ false)
      × (item'.log ≡ undone.log ++ call (complete item.issue_id) ∷ [])
      × (item'.pending ≡ [])
      × (item'.done ≡ false)
      × (item'.hidden ≡ false)
unfolding step
undo_after_two_clicks item a b p h k = rw (two_clicks_lem item a p h) (ground arith)
