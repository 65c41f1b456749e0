-- ===== src/Handlers/Adding.antt =====
-- The handlers of server/plugin.go that add, edit and give issues: `handleAdd`, `handleEdit` and
-- `handleChangeAssignment`. `find_user` is the
-- host's: the id and the name of the user of a name.
use okrbest_plugin_todo.Common.{
  String, Bool, true, not, is_some, Option, none, some, List, [], ◌∷◌, ◌++◌, truthy, str_eq, concat,
  if◌then◌else◌,
}
use okrbest_plugin_todo.Db.{Db, Issue, my_list_key, in_list_key, out_list_key}
use okrbest_plugin_todo.ListManager.{add_issue, send_issue, edit_issue, change_assignment}
use okrbest_plugin_todo.Preferences.{Kv, get_allow_incoming_task_requests_preference}
use okrbest_plugin_todo.Handlers.{
  Notice, refresh, dm, custom_dm, reply, Response, done, refused, answered, said_by,
}

-- `AddAPIRequest`
pub record AddRequest : Type 0 where
  pub message : String
  pub description : String
  pub send_to : String
  pub post_permalink : String
  pub post_id : String

-- `EditAPIRequest`
pub record EditRequest : Type 0 where
  pub id : String
  pub message : String
  pub description : String

module _ (username : String → Option String) where
  -- `postReplyIfNeeded` for an issue that was added
  abbrev pub attached : AddRequest → String → List Notice
  attached request text =
      if truthy request.post_id
      then reply request.post_id text request.message request.post_permalink ∷ []
      else []

  abbrev pub added : String → AddRequest → Issue → Response
  added user request issue = done (
      refresh user (my_list_key ∷ [])
      ∷ attached request (said_by username user " attached a todo to this thread"))

  abbrev pub sent_to : String → String → AddRequest → String → Response
  sent_to user receiver request issue_id = done (
      refresh user (out_list_key ∷ [])
      ∷ refresh receiver (in_list_key ∷ [])
      ∷ custom_dm receiver
          (concat ("You have received a new Todo from " ∷ said_by username user "" ∷ []))
          request.message request.post_permalink issue_id
      ∷ attached request (
          concat (
            said_by username user " sent @"
            ∷ request.send_to
            ∷ " a todo attached to this thread"
            ∷ [])))

  -- The preference of the receiver, and whether the host fails when it is read; an error allows.
  unfoldable pub allows : Bool → String → Kv → Bool
  unfolding get_allow_incoming_task_requests_preference
  allows fails receiver kv =
      let (preference, err) = get_allow_incoming_task_requests_preference fails receiver kv in
      if is_some err then true else preference

  unfoldable pub handle_add :
      (String → Option (String × String))
      → Bool
      → Kv
      → String
      → Option AddRequest
      → Db
      → Response × Db
  unfolding add_issue send_issue allows
  handle_add find_user fails kv user none db = (refused 400, db)
  handle_add find_user fails kv user (some a) db =
      if not (truthy a.message)
      then (refused 400, db)
      else if str_eq a.send_to ""
      then answered (added user a)
          (add_issue user a.message a.post_permalink a.description a.post_id db)
      else elim (find_user a.send_to) [
        | none ↦ (refused 500, db)
        | some (receiver, name) ↦
            if str_eq receiver user
            then answered (added user a)
                (add_issue user a.message a.description a.post_id a.post_permalink db)
            else if not (allows fails receiver kv)
            then (done (dm user (concat ("@" ∷ name ∷ " has blocked Todo requests" ∷ [])) ∷ []), db)
            else answered (sent_to user receiver a)
                (send_issue user receiver a.message a.post_permalink a.description a.post_id db)
      ]

  -- what is told of an edited issue
  abbrev pub edited_by : String → EditRequest → String × String × String → Response
  edited_by user e (foreign, list, old_message) = done (
      refresh user (list ∷ [])
      ∷ (if str_eq foreign ""
          then []
          else refresh foreign (
              if str_eq list out_list_key
              then my_list_key ∷ in_list_key ∷ []
              else out_list_key ∷ [])
            ∷ dm foreign (
                concat (
                  said_by username user " modified a Todo from:\n"
                  ∷ old_message
                  ∷ "\nTo:\n"
                  ∷ e.message
                  ∷ []))
            ∷ []))

  unfoldable pub handle_edit : String → Option EditRequest → Db → Response × Db
  unfolding edit_issue
  handle_edit user none db = (refused 400, db)
  handle_edit user (some e) db =
      if truthy e.id
      then answered (edited_by user e) (edit_issue user e.id e.message e.description db)
      else (refused 400, db)

  -- what is told of an issue that was given to somebody, by the request's id
  abbrev pub assigned_by : String → String → String → Issue × String → Response
  assigned_by user receiver id (issue, old_owner) = done (
      refresh user (my_list_key ∷ out_list_key ∷ [])
        ∷ (if str_eq receiver user
            then []
            else refresh receiver (in_list_key ∷ [])
              ∷ custom_dm receiver
                  (concat ("You have received a new Todo from " ∷ said_by username user "" ∷ []))
                  issue.message issue.post_permalink id
              ∷ [])
      ++ (if str_eq old_owner ""
          then []
          else refresh old_owner (in_list_key ∷ my_list_key ∷ [])
            ∷ dm old_owner
                (concat (said_by username user " removed you from Todo:\n" ∷ issue.message ∷ []))
            ∷ []))

  -- the request is an id and a name
  unfoldable pub handle_change_assignment :
      (String → Option (String × String)) → String → Option (String × String) → Db → Response × Db
  unfolding change_assignment
  handle_change_assignment find_user user none db = (refused 400, db)
  handle_change_assignment find_user user (some (id, send_to)) db =
      if not (truthy id)
      then (refused 400, db)
      else if not (truthy send_to)
      then (refused 400, db)
      else elim (find_user send_to) [
        | none ↦ (refused 404, db)
        | some (receiver, name) ↦
            answered (assigned_by user receiver id) (change_assignment id user receiver db)
      ]
