-- ===== src/TodoToast.antt =====
-- webapp/src/widget/todo_toast: the toast with its button `Undo`. It is mounted while the state has
-- a toast and the right-hand side is shown (webapp/src/components/sidebar_right/sidebar_right.jsx).
-- Its effect, which has no dependencies, sets the one timer that closes it when it mounts, and
-- clears it when the component goes away.
pub mod Lifetime
use okrbest_plugin_todo.Common.{
  String, ℕ, suc, ◌+◌, Bool, true, false, Option, none, some, List, [], ◌∷◌, ◌++◌, leb, is_some,
  not, ◌&&◌, if◌then◌else◌, foldl,
}
use okrbest_plugin_todo.Model.{Toast, Undo}

-- The slice `todoToast` of the state, whether the right-hand side is shown, the timer of the mounted
-- component, the clock, and the undo callbacks that were called, the latest last.
pub record Host : Type 0 where
  pub content : Option Toast
  pub rhs_shown : Bool
  pub closes_at : Option ℕ
  pub now : ℕ
  pub undone : List Undo

pub data Event : Type 0 where
  open_rhs close_rhs : Event  -- the right-hand side mounts and goes away
  open_toast : Toast → Event  -- `openTodoToast`, from an item
  click_undo click_close : Event
  wait : ℕ → Event
  timer : Event  -- the browser runs the timer if it is due

-- `props.close()`, and the cleanup of the effect when the component goes away
unfoldable pub close : Host → Host
close h = record h { content = none; closes_at = none }

-- the effect of the component if it mounts
abbrev mounted : Host → Host
mounted h =
    if h.rhs_shown && (is_some h.content && not (is_some h.closes_at))
    then record h { closes_at = some (h.now + 5000) }
    else h

-- `undoTodo`
unfoldable pub undo_todo : Host → Host
unfolding close
undo_todo h = elim h.content [
  | none ↦ h
  | some toast ↦ close (record h { undone = h.undone ++ toast.undo ∷ [] })
]

-- The buttons are there while the toast is mounted.
unfoldable pub step : Host → Event → Host
unfolding close undo_todo
step h open_rhs = mounted (record h { rhs_shown = true })
step h close_rhs = record h { rhs_shown = false; closes_at = none }
step h (open_toast toast) = mounted (record h { content = some toast })
step h click_undo = if h.rhs_shown then undo_todo h else h
step h click_close = if h.rhs_shown then close h else h
step h (wait n) = record h { now = h.now + n }
step h timer = elim h.closes_at [ none ↦ h | some t ↦ if leb t h.now then close h else h ]

abbrev pub run : Host → List Event → Host
run = foldl step
