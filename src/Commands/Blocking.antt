-- ===== src/Commands/Blocking.antt =====
-- A user who has blocked issues of others: server/command.go and server/plugin.go.
use okrbest_plugin_todo.Common.{
  String, ℕ, false, Option, some, [], ◌∷◌, ◌≡◌, ◌≢◌, refl, str_eq, eq_iff, arith, concat,
}
use okrbest_plugin_todo.Db.{Db}
use okrbest_plugin_todo.Preferences.{Kv}
use okrbest_plugin_todo.Handlers.{done, dm}
use okrbest_plugin_todo.Handlers.Adding.{AddRequest, allows, handle_add}
use okrbest_plugin_todo.Commands.Handling.{CommandArgs, Failures}
use okrbest_plugin_todo.Commands.Settings.{run_allow_incoming, run_settings_command}
use okrbest_plugin_todo.Commands.Lists.{send_to}
use okrbest_plugin_todo.Commands.{execute_words, execute_command, run_subcommand}
use okrbest_plugin_todo.Commands.Words.{command_words}
use okrbest_plugin_todo.Commands.Setting.{saved_incoming}

module _ (username : String → Option String) (format_date : ℕ → String)
    (find_user : String → Option (String × String)) where
  -- the preferences after the receiver has blocked issues of others
  blocks :
      (failures : Failures) (extra : CommandArgs) (kv : Kv) (db : Db) (trigger : String)
      → failures.saving ≡ false
      → command_words extra.command
        ≡ trigger ∷ "settings" ∷ "allow_incoming_task_requests" ∷ "off" ∷ []
      → allows username false extra.user_id
          (execute_command username format_date find_user failures extra kv db).1
        ≡ false
  unfolding execute_command execute_words run_subcommand run_settings_command run_allow_incoming
      allows
  blocks failures extra kv db trigger h e = rw (e, h, saved_incoming extra.user_id false kv) refl

  -- Let the host not fail to save and to read the preference. After a user has given the command
  -- `settings allow_incoming_task_requests off`, and whatever is stored of lists and issues then: a
  -- request of the web app of another user to add an issue, with a message, by a name of this user
  -- stores nothing, and is answered by the message that requests are blocked.
  pub handle_add-blocked :
      (failures : Failures) (extra : CommandArgs) (kv : Kv) (db : Db) (trigger : String)
      (sender full : String) (a : AddRequest) (later : Db)
      → failures.saving ≡ false
      → command_words extra.command
        ≡ trigger ∷ "settings" ∷ "allow_incoming_task_requests" ∷ "off" ∷ []
      → sender ≢ extra.user_id
      → a.message ≢ ""
      → a.send_to ≢ ""
      → find_user a.send_to ≡ some (extra.user_id, full)
      → handle_add username find_user false
          (execute_command username format_date find_user failures extra kv db).1
          sender
          (some a)
          later
        ≡ (done (dm sender (concat ("@" ∷ full ∷ " has blocked Todo requests" ∷ [])) ∷ []), later)
  unfolding handle_add
  handle_add-blocked failures extra kv db trigger sender full a later h e apart message send_to
        found =
      let valid : str_eq a.message "" ≡ false = ground (arith, eq_iff a.message "", message) in
      let given : str_eq a.send_to "" ≡ false = ground (arith, eq_iff a.send_to "", send_to) in
      let other : str_eq extra.user_id sender ≡ false =
        ground (arith, eq_iff extra.user_id sender, apart) in
      rw (valid, given, found, other, blocks failures extra kv db trigger h e) refl
