-- ===== src/Commands/Calling.antt =====
-- The plugin is called by the web app and by commands, one call after the other: server/plugin.go
-- and server/command.go.
use okrbest_plugin_todo.Common.{
  String, ℕ, Bool, true, false, Option, List, [], ◌∷◌, drop, str_eq, if◌then◌else◌,
}
use okrbest_plugin_todo.Db.{Db}
use okrbest_plugin_todo.Db.Keeping.{IsInvariant}
use okrbest_plugin_todo.Db.Valid.{IsValid, IsValid-IsInvariant}
use okrbest_plugin_todo.ListManager.Requests.{Request, serve, serve-keeps}
use okrbest_plugin_todo.Preferences.{Kv}
use okrbest_plugin_todo.Commands.Handling.{CommandArgs, Failures}
use okrbest_plugin_todo.Commands.{Outcome, run_subcommand, execute_words, execute_command}
use okrbest_plugin_todo.Commands.Running.{
  run_add_command-RanWell, run_list_command-RanWell, run_pop_command-keeps,
  run_send_command-RanWell,
}
use okrbest_plugin_todo.Commands.Words.{command_words}
use okrbest_plugin_todo.Commands.Words.Filled.{AreFilled, command_words-AreFilled}

module _ (username : String → Option String) (format_date : ℕ → String)
    (find_user : String → Option (String × String)) where
  if-keeps :
      (P : Db → Type 0) (b : Bool) (r s : Outcome × Kv × Db)
      → P r.2
      → P s.2
      → P (if b then r else s).2
  if-keeps P true r s hr hs = hr
  if-keeps P false r s hr hs = hs

  run_subcommand-keeps :
      (P : Db → Type 0)
      → IsInvariant P
      → (fails : Failures) (command : String) (rest : List String) (args : CommandArgs) (kv : Kv)
        (db : Db)
      → AreFilled rest
      → P db
      → P (run_subcommand username format_date find_user fails command rest args kv db).2
  unfolding run_subcommand
  run_subcommand-keeps P inv fails command rest args kv db h p =
      if-keeps P (str_eq command "add") _ _
        (run_add_command-RanWell username format_date P inv rest args db p).keeps
        (if-keeps P (str_eq command "list") _ _
          (run_list_command-RanWell username format_date P inv rest args db p).keeps
          (if-keeps P (str_eq command "pop") _ _
            (run_pop_command-keeps username format_date P inv args db p)
            (if-keeps P (str_eq command "send") _ _
              (run_send_command-RanWell username format_date P inv find_user fails.reading_incoming
                kv rest args db h p).keeps
              (if-keeps P (str_eq command "settings") _ _ p p))))

  execute_words-keeps :
      (P : Db → Type 0)
      → IsInvariant P
      → (fails : Failures) (words : List String) (args : CommandArgs) (kv : Kv) (db : Db)
      → AreFilled (drop 1 words)
      → P db
      → P (execute_words username format_date find_user fails words args kv db).2
  unfolding execute_words
  execute_words-keeps P inv fails [] args kv db h p = p
  execute_words-keeps P inv fails (_ ∷ []) args kv db h p =
      (run_list_command-RanWell username format_date P inv [] args db p).keeps
  execute_words-keeps P inv fails (_ ∷ command ∷ rest) args kv db h p =
      run_subcommand-keeps P inv fails command rest args kv db h.1 p

  -- What the operations of the store keep, a command keeps.
  pub execute_command-keeps :
      (P : Db → Type 0)
      → IsInvariant P
      → (fails : Failures) (args : CommandArgs) (kv : Kv) (db : Db) → P db
      → P (execute_command username format_date find_user fails args kv db).2
  unfolding execute_command
  execute_command-keeps P inv fails args kv db p =
      execute_words-keeps P inv fails (command_words args.command) args kv db
        (command_words-AreFilled args.command) p

-- a request to change lists, or a command, with the calls of the host that fail for its preferences
pub data Call : Type 0 where
  request : Request → Call
  command : Failures → CommandArgs → Call

module _ (username : String → Option String) (format_date : ℕ → String)
    (find_user : String → Option (String × String)) where
  -- what is stored after a call
  unfoldable pub called : Call → Kv × Db → Kv × Db
  unfolding serve execute_command
  called (request r) (kv, db) = (kv, serve r db)
  called (command fails args) (kv, db) =
      let (told, kv', db') = execute_command username format_date find_user fails args kv db in
      (kv', db')

  unfoldable pub call_all : List Call → Kv × Db → Kv × Db
  unfolding called
  call_all [] state = state
  call_all (call ∷ calls) state = call_all calls (called call state)

  called-keeps :
      (P : Db → Type 0)
      → IsInvariant P
      → (call : Call) (state : Kv × Db) → P state.1
      → P (called call state).1
  unfolding called
  called-keeps P inv (request r) (kv, db) p = serve-keeps P inv r db p
  called-keeps P inv (command fails args) (kv, db) p =
      execute_command-keeps username format_date find_user P inv fails args kv db p

  -- Whatever requests to change lists and whatever commands follow each other, and whichever calls
  -- of the host fail meanwhile: if no list has two references of the same issue and each issue is
  -- under its own id, then that is so afterwards.
  pub call_all-IsValid :
      (calls : List Call) (kv : Kv) (db : Db) → IsValid db → IsValid (call_all calls (kv, db)).1
  unfolding call_all
  call_all-IsValid [] kv db v = v
  call_all-IsValid (call ∷ calls) kv db v =
      let (kv', db') = called call (kv, db) in
      call_all-IsValid calls kv' db' (called-keeps IsValid IsValid-IsInvariant call (kv, db) v)
