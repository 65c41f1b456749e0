-- ===== src/Examples/Menus.antt =====
-- Menus, dates and the dialog of components/root, at concrete data.
use okrbest_plugin_todo.Common.{
  String, ℕ, true, false, some, List, [], ◌∷◌, ◌≡◌, ◌≤◌, refl, nat_eq, if◌then◌else◌, arith,
}
use okrbest_plugin_todo.Actions.{text}
use okrbest_plugin_todo.RootDialog.{State}
use okrbest_plugin_todo.Menus.{Event, clicked, mounts, step, run, new}
use okrbest_plugin_todo.Menus.Page.{open_count, run-one_open}
use okrbest_plugin_todo.TodoItem.Dates.{padded, padded_lem, text_length}

abbrev page : List Event
page = mounts false ∷ mounts false ∷ clicked (some 0) ∷ clicked (some 1) ∷ []

run-one_open_example : open_count (run [] page) ≤ 1
run-one_open_example = run-one_open page

-- the second menu is open then, and the first one closed
page_lem : run [] page ≡ new false false ∷ new true false ∷ []
unfolding step
page_lem = refl

-- the texts of the numbers of one minute
abbrev number_text : ℕ → String
number_text n = if nat_eq n 7 then "7" else "12"

padded_lem_example : (text_length (padded number_text 7) ≡ 2) × (padded number_text 7 ≡ "07")
padded_lem_example = padded_lem number_text 7 (ground arith) (λ _. refl) (λ h. ground (arith, h))

seven_padded : padded number_text 7 ≡ "07"
unfolding padded
seven_padded = refl

abbrev dialog : State
dialog = record {
  message = some "Buy milk";
  send_to = text "bob";
  attach_to_thread = true;
  preview_markdown = false;
}
