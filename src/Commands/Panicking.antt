-- ===== src/Commands/Panicking.antt =====
-- When a command panics: server/command.go.
use okrbest_plugin_todo.Common.{String, ℕ, Bool, false, Option, none, some, List, [], ◌∷◌, ◌≡◌, ◌⊎◌}
use okrbest_plugin_todo.ListStore.{ok}
use okrbest_plugin_todo.Db.{Db}
use okrbest_plugin_todo.ListManager.{pop_issue}
use okrbest_plugin_todo.Preferences.{Kv, allow_incoming_task_requests_key, parse_bool}
use okrbest_plugin_todo.Commands.Handling.{Failures}

-- The issue that was popped could not be read.
abbrev pub PopsNothing : String → Db → Type 0
PopsNothing user db = (foreign : String) × ((pop_issue user db).0 ≡ ok (none, foreign))

-- The preference on incoming issues that the host reads is no truth value.
abbrev pub Unparsed : Failures → Kv → String → Type 0
Unparsed fails kv user =
    (fails.reading_incoming ≡ false)
    × (s : String) × (kv (allow_incoming_task_requests_key user) ≡ some s)
    × (parse_bool s ≡ none)

module _ (username : String → Option String) (format_date : ℕ → String) where
  -- Why a command panics, by the words after its first.
  abbrev pub Cause : Failures → List String → String → Kv → Db → Type 0
  Cause fails words user kv db =
      ((rest : List String) × (words ≡ "pop" ∷ rest) × PopsNothing user db)
      ⊎ ((words ≡ "settings" ∷ "allow_incoming_task_requests" ∷ []) × Unparsed fails kv user)
