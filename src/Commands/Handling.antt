-- ===== src/Commands/Handling.antt =====
-- What a handler of a command gets and returns: server/command.go.
use okrbest_plugin_todo.Common.{String, Bool, true, false, Option, none, some, List, [], ◌∷◌}
use okrbest_plugin_todo.Handlers.{Notice, ephemeral}

pub record CommandArgs : Type 0 where
  pub user_id : String
  pub channel_id : String
  pub command : String

-- What a handler of a subcommand has done: whom it has told, and what it returns, unless it has
-- panicked.
pub record Ran : Type 0 where
  pub notices : List Notice
  pub is_user_error : Bool
  pub err : Option String
  pub panicked : Bool

abbrev pub finished : List Notice → Ran
finished notices = record { notices = notices; is_user_error = false; err = none; panicked = false }

abbrev pub failed : Bool → String → Ran
failed is_user_error e = record {
  notices = [];
  is_user_error = is_user_error;
  err = some e;
  panicked = false;
}

abbrev pub panicking : List Notice → Ran
panicking notices = record { notices = notices; is_user_error = false; err = none; panicked = true }

-- `postCommandResponse`
abbrev pub post_command_response : CommandArgs → String → Notice
post_command_response args text = ephemeral args.user_id args.channel_id text

abbrev pub respond : CommandArgs → String → Ran
respond args text = finished (post_command_response args text ∷ [])

-- Which calls of the host fail when preferences are read and saved.
pub record Failures : Type 0 where
  pub reading_reminder : Bool
  pub reading_incoming : Bool
  pub saving : Bool
