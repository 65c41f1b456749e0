-- ===== src/Examples/Dialogs.antt =====
-- The add card and the dialog that assigns.
use okrbest_plugin_todo.Common.{String, true, false, none, some, [], ◌∷◌, ◌≡◌, ◌≢◌, refl}
use okrbest_plugin_todo.Store.{PluginState}
use okrbest_plugin_todo.Selectors.{get_plugin_server_route, get_current_team_route}
use okrbest_plugin_todo.Actions.{null, change_assignee}
use okrbest_plugin_todo.Actions.Requests.{sent}
use okrbest_plugin_todo.AddIssue
use okrbest_plugin_todo.AddIssue.{Card, key_down, click_cancel, elsewhere, derived}
use okrbest_plugin_todo.AddIssue.Mapping.{Ready}
use okrbest_plugin_todo.AddIssue.Submitting.{IsSaved, step-enter-IsSaved}
use okrbest_plugin_todo.Assignee
use okrbest_plugin_todo.Assignee.{Modal, click_assign, key_up, select, edit_assignee, assign_card}
use okrbest_plugin_todo.Assignee.Assigning.{Open, assign_editing}
use okrbest_plugin_todo.Examples.Sample.{pathname, world_of, adding, editing, bob}

abbrev pub server : String
server = "/sub/plugins/com.mattermost.plugin-todo"

pub ready : (s : PluginState) → Ready pathname (world_of s) s "/sub/core/" server
unfolding get_plugin_server_route get_current_team_route
ready s = record { plugin = refl; team_route = refl; server_route = refl }

-- a card on which the user has typed, attached to the thread
abbrev typed : AddIssue.State
typed = record {
  message = "Buy oat milk";
  post_permalink = "/sub/core/pl/p1";
  description = "two";
  send_to = null;
  attach_to_thread = true;
  preview_markdown = false;
  assignee_modal = false;
  is_typing = true;
}

abbrev pub card : Card
card = record { world = world_of adding; state = typed }

step-enter-IsSaved_example :
    (c' : Card) × (AddIssue.step pathname card (key_down "Enter" false) ≡ some c')
    × IsSaved pathname card adding "/sub/core/" server c'
step-enter-IsSaved_example =
    step-enter-IsSaved pathname card adding "/sub/core/" server (ready adding)

-- the dialog with a selected user
abbrev dialog : PluginState → Modal
dialog s = record { world = world_of s; form = some (some bob) }

Open-dialog :
    (s : PluginState)
    → s.assignee_modal_visible ≡ true
    → Open pathname (dialog s) s (some bob) server
unfolding get_plugin_server_route
Open-dialog s h = record { plugin = refl; form = refl; route = refl; visible = h }

assign_editing_example :
    let m' = Assignee.step pathname (dialog editing) click_assign in
    (m'.world.requests ≡ sent server (change_assignee "i1" "bob") ∷ [])
    × (m'.world.state.plugin
        ≡ some (record editing { editing_todo = none; assignee_modal_visible = false }))
    × (m'.form ≡ none)
assign_editing_example =
    assign_editing pathname (dialog editing) editing bob "i1" server (Open-dialog editing refl) refl
      refl

no_escape : (key : String) → click_assign ≡ key_up key → key ≢ "Escape"
no_escape key e = cc
