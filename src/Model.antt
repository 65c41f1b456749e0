-- ===== src/Model.antt =====
-- The data that the web app passes around: issues as the server sends them, users, toasts.
use okrbest_plugin_todo.Common.{String, ℕ, Option, List}

-- plugin.json; the build makes `manifest` of it
abbrev pub plugin_id : String
plugin_id = "com.mattermost.plugin-todo"

-- An entry of a list of issues. The server leaves an empty description out.
pub record Issue : Type 0 where
  pub id : String
  pub message : String
  pub post_permalink : String
  pub description : Option String
  pub create_at : ℕ
  pub post_id : String
  pub user : String
  pub list : String
  pub position : ℕ

-- The object that `GET_ALL_ISSUES` carries. A property may be missing, as in an error object.
pub record AllIssues : Type 0 where
  pub my : Option (List Issue)
  pub inbox : Option (List Issue)
  pub out : Option (List Issue)

-- The properties of a user profile that the web app reads; an absent name is the empty text.
pub record User : Type 0 where
  pub id : String
  pub username : String
  pub first_name : String
  pub last_name : String
  pub nickname : String
  pub delete_at : ℕ

-- The `undo` callback of a toast, with the issue whose item made it.
pub data Undo : Type 0 where
  undo_complete_todo undo_remove_todo : String → Undo

pub record Toast : Type 0 where
  pub icon : String
  pub message : String
  pub undo : Undo

-- `() => store.dispatch(showRHSPlugin)`, the only callback that is stored
pub data ShowRhs : Type 0 where
  show_rhs_plugin : ShowRhs
