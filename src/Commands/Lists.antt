-- ===== src/Commands/Lists.antt =====
-- The subcommands add, list, pop and send of server/command.go. `find_user` is the host's: the id
-- and the name of the user of a name; `username` gives the name of a user, and `format_date` the
-- text of a time in seconds.
use Prim.Native.Char.{code}
use Prim.Native.String.{[] as nil, ◌∷◌ as ◌∷ᶜ◌}
use okrbest_plugin_todo.Common.{
  String, ℕ, Bool, true, false, not, Option, none, some, List, [], ◌∷◌, ◌++◌, any, nat_eq, str_eq,
  concat, if◌then◌else◌,
}
use okrbest_plugin_todo.ListStore.{Result, error, panic, ok}
use okrbest_plugin_todo.Db.{Db, Issue, my_list_key, in_list_key, out_list_key}
use okrbest_plugin_todo.ListManager.{add_issue, send_issue, pop_issue}
use okrbest_plugin_todo.ListManager.Reading.{ExtendedIssue, get_issue_list, get_user_name}
use okrbest_plugin_todo.Preferences.{Kv}
use okrbest_plugin_todo.Handlers.{Notice, refresh, dm, custom_dm, said_by, reply_if_needed}
use okrbest_plugin_todo.Handlers.Adding.{allows}
use okrbest_plugin_todo.Commands.Words.{join}
use okrbest_plugin_todo.Commands.Texts.{get_help, issues_list_to_string}
use okrbest_plugin_todo.Commands.Handling.{
  CommandArgs, Ran, finished, failed, panicking, post_command_response, respond,
}

-- the list of a flag and the heading of its issues, if there is such a list
unfoldable pub flagged : List String → Option (String × String)
flagged [] = some (my_list_key, "Todo List:\n\n")
flagged (flag ∷ _) =
    if str_eq flag "my"
    then some (my_list_key, "Todo List:\n\n")
    else if str_eq flag "in"
    then some (in_list_key, "Received Todo list:\n\n")
    else if str_eq flag "out"
    then some (out_list_key, "Sent Todo list:\n\n")
    else none

-- The new issue is appended to a list of issues that does not have it.
unfoldable pub including : Issue → List ExtendedIssue → List ExtendedIssue
including new issues =
    if any (λ i. str_eq new.id i.issue.id) issues
    then issues
    else issues
      ++ (record { issue = new; foreign_user = ""; foreign_list = ""; foreign_position = 0 } ∷ [])

-- The name is indexed at its first byte, which panics where there is none.
unfoldable pub user_name : String → Option String
user_name nil = none
user_name (c ∷ᶜ name) = some (if nat_eq (code c) 64 then name else c ∷ᶜ name)

module _ (username : String → Option String) (format_date : ℕ → String) where
  -- the answer with the own list, or without if it cannot be read
  unfoldable pub with_list :
      CommandArgs
      → String
      → (List ExtendedIssue → List ExtendedIssue)
      → List Notice
      → Result (List ExtendedIssue) × Db
      → Ran × Db
  unfolding issues_list_to_string
  with_list extra message f notices (error e, db) =
      (finished (notices ++ (post_command_response extra message ∷ [])), db)
  with_list extra message f notices (panic, db) = (panicking notices, db)
  with_list extra message f notices (ok issues, db) = (
    finished (
        notices
        ++ (post_command_response extra (
              concat
                (message ∷ " Todo List:\n\n" ∷ issues_list_to_string format_date (f issues) ∷ []))
            ∷ [])),
    db,
  )

  unfoldable pub added : CommandArgs → Result Issue × Db → Ran × Db
  unfolding get_issue_list including issues_list_to_string
  added extra (error e, db) = (failed false e, db)
  added extra (panic, db) = (panicking [], db)
  added extra (ok new, db) =
      with_list extra "Added Todo." (including new) (refresh extra.user_id (my_list_key ∷ []) ∷ [])
        (get_issue_list username extra.user_id my_list_key db)

  unfoldable pub run_add_command : List String → CommandArgs → Db → Ran × Db
  unfolding join add_issue added
  run_add_command args extra db =
      let message = join args in
      if str_eq message ""
      then (respond extra "Please add a task.", db)
      else added extra (add_issue extra.user_id message "" "" "" db)

  unfoldable pub listed : CommandArgs → String → Result (List ExtendedIssue) × Db → Ran × Db
  unfolding issues_list_to_string
  listed extra heading (error e, db) = (failed false e, db)
  listed extra heading (panic, db) = (panicking [], db)
  listed extra heading (ok issues, db) = (
    finished (
        refresh extra.user_id (my_list_key ∷ out_list_key ∷ in_list_key ∷ [])
        ∷ post_command_response extra
            (concat (heading ∷ issues_list_to_string format_date issues ∷ []))
        ∷ []),
    db,
  )

  unfoldable pub run_list_command : List String → CommandArgs → Db → Ran × Db
  unfolding flagged get_issue_list listed get_help
  run_list_command args extra db = elim (flagged args) [
    | none ↦ (record (respond extra get_help) { is_user_error = true }, db)
    | some (list, heading) ↦ listed extra heading (get_issue_list username extra.user_id list db)
  ]

  -- An error that says so means that there is no issue; an issue that could not be read is used all
  -- the same.
  unfoldable pub popped : CommandArgs → Result (Option Issue × String) × Db → Ran × Db
  unfolding get_issue_list get_user_name with_list
  popped extra (error e, db) = (
    if str_eq e "cannot find issue"
        then respond extra "There are no Todos to pop."
        else failed false e,
    db,
  )
  popped extra (panic, db) = (panicking [], db)
  popped extra (ok (none, foreign), db) = (
    panicking (
        if str_eq foreign ""
        then refresh extra.user_id (my_list_key ∷ []) ∷ []
        else refresh foreign (out_list_key ∷ []) ∷ []),
    db,
  )
  popped extra (ok (some issue, foreign), db) =
      let said = said_by username extra.user_id in
      with_list extra "Removed top Todo." (λ issues. issues)
        ((if str_eq foreign ""
            then []
            else refresh foreign (out_list_key ∷ [])
              ∷ dm foreign (concat (said " popped a Todo you sent: " ∷ issue.message ∷ []))
              ∷ [])
          ++ (refresh extra.user_id (my_list_key ∷ [])
              ∷ reply_if_needed issue.post_id (said " popped a todo attached to this thread")
                  issue))
        (get_issue_list username extra.user_id my_list_key db)

  unfoldable pub run_pop_command : CommandArgs → Db → Ran × Db
  unfolding pop_issue popped
  run_pop_command extra db = popped extra (pop_issue extra.user_id db)

  unfoldable pub sent : CommandArgs → String → String → String → Result String × Db → Ran × Db
  unfolding get_user_name
  sent extra receiver name message (error e, db) = (failed false e, db)
  sent extra receiver name message (panic, db) = (panicking [], db)
  sent extra receiver name message (ok issue_id, db) = (
    finished (
        refresh extra.user_id (out_list_key ∷ [])
        ∷ refresh receiver (in_list_key ∷ [])
        ∷ custom_dm receiver
            (concat ("You have received a new Todo from " ∷ said_by username extra.user_id "" ∷ []))
            message "" issue_id
        ∷ post_command_response extra (concat ("Todo sent to @" ∷ name ∷ "." ∷ []))
        ∷ []),
    db,
  )

  module _ (find_user : String → Option (String × String)) where
    -- to the user of a name, whose preference the host may fail to read
    unfoldable pub send_to : Bool → Kv → String → List String → CommandArgs → Db → Ran × Db
    unfolding run_add_command allows send_issue sent join get_help
    send_to fails kv name words extra db = elim (find_user name) [
      | none ↦ (respond extra (concat ("Please, provide a valid user.\n" ∷ get_help ∷ [])), db)
      | some (receiver, _) ↦
          if str_eq receiver extra.user_id
          then run_add_command words extra db
          else if not (allows username fails receiver kv)
          then (respond extra (concat ("@" ∷ name ∷ " has blocked Todo requests" ∷ [])), db)
          else sent extra receiver name (join words)
              (send_issue extra.user_id receiver (join words) "" "" "" db)
    ]

    unfoldable pub run_send_command : Bool → Kv → List String → CommandArgs → Db → Ran × Db
    unfolding user_name send_to get_help
    run_send_command fails kv (target ∷ word ∷ words) extra db = elim (user_name target) [
      | none ↦ (panicking [], db)
      | some name ↦ send_to fails kv name (word ∷ words) extra db
    ]
    run_send_command fails kv args extra db =
        (respond extra (concat ("You must specify a user and a message.\n" ∷ get_help ∷ [])), db)
