-- ===== src/Examples/Shown.antt =====
-- What is shown: items, the right-hand side, and the bot's post.
use okrbest_plugin_todo.Common.{
  true, false, ◌||◌, none, some, [], ◌∷◌, ◌++◌, ◌≡◌, refl, is_nil, if◌then◌else◌,
}
use okrbest_plugin_todo.Model.{Issue}
use okrbest_plugin_todo.Sidebar.{Props, State, View, render}
use okrbest_plugin_todo.Sidebar.Lists.{shown, render_lem}
use okrbest_plugin_todo.Examples.Sample.{incoming}

abbrev mine : Issue
mine = record incoming { id = "i2"; user = ""; list = "" }

abbrev props : Props
props = record {
  my_issues = some (mine ∷ []);
  in_issues = some (incoming ∷ []);
  out_issues = some [];
  todo_toast = none;
  rhs_state = "";
}

abbrev state : State
state = record { list = "my"; show_inbox = true; show_my = true }

render_lem_example :
    (state.list ≡ "my"
      → (v : View) × (render false props state ≡ some v)
        × (shown v
            ≡ (if state.show_inbox then incoming ∷ [] else [])
              ++ (if is_nil (incoming ∷ []) || state.show_my then mine ∷ [] else [])))
    × (state.list ≡ "out" → (v : View) × (render false props state ≡ some v) × (shown v ≡ []))
render_lem_example = render_lem false props state (mine ∷ []) (incoming ∷ []) [] refl refl refl
