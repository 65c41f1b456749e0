-- ===== src/Commands/Setting.antt =====
-- What `/todo settings` does with the preferences of users: server/command.go and server/store.go.
use Prim.Native.Char.{code}
use Prim.Native.String.{[] as nil, ◌∷◌ as cons}
use text.Mathlib.TextLemmas.{cons-append}
use okrbest_plugin_todo.Common.{
  String, ℕ, Bool, true, false, Option, none, [], ◌∷◌, ◌≡◌, ◌≢◌, refl, sym, ◌∙◌, ap, str_eq, eq_iff,
  arith, if◌then◌else◌,
}
use okrbest_plugin_todo.Db.{Db}
use okrbest_plugin_todo.Preferences.{
  Kv, reminder_enabled_key, allow_incoming_task_requests_key, save_reminder_preference,
  get_reminder_preference, save_allow_incoming_task_requests_preference,
  get_allow_incoming_task_requests_preference,
}
use okrbest_plugin_todo.Preferences.Keys.{key-injective, format_bool-parse}
use okrbest_plugin_todo.Commands.Handling.{CommandArgs, Failures}
use okrbest_plugin_todo.Commands.Settings.{run_summary, run_settings_command}
use okrbest_plugin_todo.Commands.{execute_words, execute_command, run_subcommand}
use okrbest_plugin_todo.Commands.Words.{command_words}

-- `on` or `off`
abbrev pub switch : Bool → String
switch b = if b then "on" else "off"

first : String → ℕ
first nil = 0
first (cons c s) = code c

-- The keys of the two preferences differ at their first character.
keys-differ :
    (user other : String) → reminder_enabled_key user ≢ allow_incoming_task_requests_key other
unfolding reminder_enabled_key allow_incoming_task_requests_key first
keys-differ user other e =
    let same : first "reminder_enabled" ≡ first "allow_incoming_task" =
      ap first
        (sym (cons-append "r" "eminder_enabled" _) ∙ e ∙ cons-append "a" "llow_incoming_task" _) in
    omega (arith, same)

reminder-apart :
    (user other : String)
    → other ≢ user
    → str_eq (reminder_enabled_key user) (reminder_enabled_key other) ≡ false
unfolding reminder_enabled_key
reminder-apart user other ne = ground (
  arith,
  eq_iff (reminder_enabled_key user) (reminder_enabled_key other),
  λ (e : reminder_enabled_key user ≡ reminder_enabled_key other).
      ne (sym (key-injective "reminder_enabled" "_" user other e)),
)

-- A user's preference on daily reminders is as it was saved, that of others as before, and so are
-- all preferences on incoming issues.
saved_reminder :
    (user : String) (b : Bool) (kv : Kv)
    → (let after = (save_reminder_preference false user b kv).1 in
        (get_reminder_preference false user after ≡ b)
        × ((other : String)
            → other ≢ user
            → get_reminder_preference false other after ≡ get_reminder_preference false other kv)
        × ((other : String)
            → get_allow_incoming_task_requests_preference false other after
              ≡ get_allow_incoming_task_requests_preference false other kv))
unfolding save_reminder_preference get_reminder_preference
    get_allow_incoming_task_requests_preference
saved_reminder user b kv =
    let key = reminder_enabled_key user in
    let same : str_eq key key ≡ true = (eq_iff key key).1 refl in
    (
      rw (same, format_bool-parse b) refl,
      λ other ne. rw (reminder-apart user other ne) refl,
      λ other.
          let apart : str_eq key (allow_incoming_task_requests_key other) ≡ false =
            ground (
              arith,
              eq_iff key (allow_incoming_task_requests_key other),
              keys-differ user other,
            ) in
          rw apart refl,
    )

pub saved_incoming :
    (user : String) (b : Bool) (kv : Kv)
    → (let after = (save_allow_incoming_task_requests_preference false user b kv).1 in
        get_allow_incoming_task_requests_preference false user after ≡ (b, none))
unfolding save_allow_incoming_task_requests_preference get_allow_incoming_task_requests_preference
saved_incoming user b kv =
    let key = allow_incoming_task_requests_key user in
    let same : str_eq key key ≡ true = (eq_iff key key).1 refl in
    rw (same, format_bool-parse b) refl

module _ (username : String → Option String) (format_date : ℕ → String)
    (find_user : String → Option (String × String)) where
  run_summary-switch :
      (failures : Failures) (b : Bool) (extra : CommandArgs) (kv : Kv)
      → failures.saving ≡ false
      → (run_summary failures (switch b ∷ []) extra kv).1
        ≡ (save_reminder_preference false extra.user_id b kv).1
  unfolding run_summary save_reminder_preference
  run_summary-switch failures true extra kv h = rw h refl
  run_summary-switch failures false extra kv h = rw h refl

  -- While the host does not fail to save it: after the command `settings summary on` or `settings
  -- summary off`, the user's preference on daily reminders is on or off, that of every other user
  -- is as it was, and so are the preferences of all users on incoming issues. The lists and the
  -- issues are as they were.
  pub execute_summary-saves :
      (failures : Failures) (extra : CommandArgs) (kv : Kv) (db : Db) (trigger : String) (b : Bool)
      → failures.saving ≡ false
      → command_words extra.command ≡ trigger ∷ "settings" ∷ "summary" ∷ switch b ∷ []
      → (let after = execute_command username format_date find_user failures extra kv db in
          (get_reminder_preference false extra.user_id after.1 ≡ b)
          × ((other : String)
              → other ≢ extra.user_id
              → get_reminder_preference false other after.1
                ≡ get_reminder_preference false other kv)
          × ((other : String)
              → get_allow_incoming_task_requests_preference false other after.1
                ≡ get_allow_incoming_task_requests_preference false other kv)
          × (after.2 ≡ db))
  unfolding execute_command execute_words run_subcommand run_settings_command
  execute_summary-saves failures extra kv db trigger b h e =
      let (own, others, incoming) = saved_reminder extra.user_id b kv in
      rw (e, run_summary-switch failures b extra kv h) (own, others, incoming, refl)
