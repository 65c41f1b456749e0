-- ===== src/Examples/Sample.antt =====
-- The data that the tests share: a site below `/sub/`, one team, one post, one incoming issue.
use okrbest_plugin_todo.Common.{false, String, true, Option, none, some, [], ◌∷◌}
use okrbest_plugin_todo.Model.{Issue, User, Toast, undo_complete_todo, undo_remove_todo}
use okrbest_plugin_todo.Store.{PluginState, initial}
use okrbest_plugin_todo.Selectors.{GlobalState}
use okrbest_plugin_todo.Actions.{World}
use okrbest_plugin_todo.TodoItem.{Item, mounted}
use okrbest_plugin_todo.TodoToast.{Host}

-- Every URL of the tests has this path.
abbrev pub pathname : String → Option String
pathname url = some "/sub/"

abbrev pub incoming : Issue
incoming = record {
  id = "i1";
  message = "Water the plants";
  post_permalink = "";
  description = none;
  create_at = 1000;
  post_id = "";
  user = "bob";
  list = "out";
  position = 0;
}

abbrev pub bob : User
bob = record {
  id = "u2";
  username = "bob";
  first_name = "Bob";
  last_name = "Stone";
  nickname = "bobby";
  delete_at = 0;
}

abbrev pub state_of : PluginState → GlobalState
state_of s = record {
  site_url = some "https://example.org/sub/";
  posts = ("p1", "Buy milk") ∷ [];
  teams = ("t1", "core") ∷ [];
  current_team_id = "t1";
  my_members = none;
  plugin = some s;
}

abbrev pub world_of : PluginState → World
world_of s = record { state = state_of s; requests = [] }

-- the add card open for the post, with an assignee
abbrev pub adding : PluginState
adding = record initial { add_card_visible = true; post_id = "p1"; current_assignee = some bob }

-- the dialog open for an issue
abbrev pub editing : PluginState
editing = record initial { assignee_modal_visible = true; editing_todo = some "i1" }

abbrev pub item : Item
item = mounted "i1" "Water the plants" none 100

abbrev pub toast : Toast
toast = record { icon = "check"; message = "Todo completed"; undo = undo_complete_todo "i1" }

abbrev pub other_toast : Toast
other_toast = record {
  icon = "trash-can-outline";
  message = "Todo deleted";
  undo = undo_remove_todo "i2";
}

abbrev pub no_toast : Host
no_toast = record { content = none; rhs_shown = false; closes_at = none; now = 7; undone = [] }
