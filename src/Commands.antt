-- ===== src/Commands.antt =====
-- The command `/todo`: `ExecuteCommand` of server/command.go. Lists has what its subcommands do
-- with lists of issues, Settings what they do with preferences, Words how its text is read; the
-- others prove. What is tracked and logged is left out.
pub mod Words
pub mod Texts
pub mod Handling
pub mod Lists
pub mod Settings
pub mod Running
pub mod Adding
pub mod Blocking
pub mod Setting
pub mod Storing
pub mod Popping
pub mod Panicking
pub mod Calling
use okrbest_plugin_todo.Common.{
  String, ℕ, Bool, true, false, Option, none, some, List, [], ◌∷◌, ◌++◌, str_eq, concat,
  if◌then◌else◌,
}
use okrbest_plugin_todo.Db.{Db}
use okrbest_plugin_todo.Preferences.{Kv}
use okrbest_plugin_todo.Handlers.{Notice}
use okrbest_plugin_todo.Commands.Words.{command_words}
use okrbest_plugin_todo.Commands.Texts.{get_help}
use okrbest_plugin_todo.Commands.Handling.{
  CommandArgs, Ran, Failures, panicking, post_command_response, respond,
}
use okrbest_plugin_todo.Commands.Lists.{
  run_add_command, run_list_command, run_pop_command, run_send_command,
}
use okrbest_plugin_todo.Commands.Settings.{run_settings_command}

-- What the user is told of the error that a handler has returned, if any.
unfoldable pub reported : CommandArgs → Bool → Option String → List Notice
reported args is_user_error none = []
reported args is_user_error (some e) =
    if is_user_error
    then post_command_response args
        (concat ("__Error: " ∷ e ∷ ".__\n\nRun `/todo help` for usage instructions." ∷ []))
      ∷ []
    else post_command_response args
        "An unknown error occurred. Please talk to your system administrator for help."
      ∷ []

-- Whom a command has told, and whether it has panicked.
abbrev pub Outcome : Type 0
Outcome = List Notice × Bool

abbrev pub outcome : CommandArgs → Ran → Outcome
unfolding reported
outcome args ran = (ran.notices ++ reported args ran.is_user_error ran.err, ran.panicked)

-- a handler of lists, or one of preferences
abbrev pub on_lists : CommandArgs → Kv → Ran × Db → Outcome × Kv × Db
unfolding reported
on_lists args kv (ran, db) = (outcome args ran, kv, db)

abbrev pub on_preferences : CommandArgs → Db → Ran × Kv → Outcome × Kv × Db
unfolding reported
on_preferences args db (ran, kv) = (outcome args ran, kv, db)

module _ (username : String → Option String) (format_date : ℕ → String)
    (find_user : String → Option (String × String)) where
  -- the handler of a subcommand, with the arguments after its name
  unfoldable pub run_subcommand :
      Failures → String → List String → CommandArgs → Kv → Db → Outcome × Kv × Db
  unfolding run_add_command run_list_command run_pop_command run_send_command run_settings_command
      reported get_help
  run_subcommand fails command rest args kv db =
      if str_eq command "add"
      then on_lists args kv (run_add_command username format_date rest args db)
      else if str_eq command "list"
      then on_lists args kv (run_list_command username format_date rest args db)
      else if str_eq command "pop"
      then on_lists args kv (run_pop_command username format_date args db)
      else if str_eq command "send"
      then on_lists args kv
          (run_send_command username format_date find_user fails.reading_incoming kv rest args db)
      else if str_eq command "settings"
      then on_preferences args db (run_settings_command fails rest args kv)
      else (outcome args (respond args get_help), kv, db)

  unfoldable pub execute_words : Failures → List String → CommandArgs → Kv → Db → Outcome × Kv × Db
  unfolding run_subcommand run_list_command reported
  execute_words fails [] args kv db = (outcome args (panicking []), kv, db)
  execute_words fails (_ ∷ []) args kv db =
      on_lists args kv (run_list_command username format_date [] args db)
  execute_words fails (_ ∷ command ∷ rest) args kv db = run_subcommand fails command rest args kv db

  unfoldable pub execute_command : Failures → CommandArgs → Kv → Db → Outcome × Kv × Db
  unfolding execute_words command_words
  execute_command fails args kv db = execute_words fails (command_words args.command) args kv db
