-- ===== src/Commands/Settings.antt =====
-- The subcommand settings of server/command.go.
use okrbest_plugin_todo.Common.{
  String, Bool, true, false, Option, none, some, List, [], ◌∷◌, is_some, str_eq, concat,
  if◌then◌else◌,
}
use okrbest_plugin_todo.ListStore.{Result, error, panic, ok}
use okrbest_plugin_todo.Preferences.{
  Kv, PreferenceError, readable, of_nil, save_reminder_preference, get_reminder_preference,
  save_allow_incoming_task_requests_preference, get_allow_incoming_task_requests_preference,
}
use okrbest_plugin_todo.Commands.Texts.{
  get_summary_setting, get_allow_incoming_task_requests_setting, get_all_settings,
}
use okrbest_plugin_todo.Commands.Handling.{CommandArgs, Ran, Failures, failed, panicking, respond}

-- `on` and `off`
abbrev pub on_off : String → Option Bool
on_off arg = if str_eq arg "on" then some true else if str_eq arg "off" then some false else none

-- the preference that is shown among all, which is on where it cannot be read; the error is logged
-- as a value, whose text the host makes if it can
unfoldable pub shown_incoming : Bool → String → Kv → Bool
unfolding get_allow_incoming_task_requests_preference
shown_incoming fails user kv =
    let (preference, err) = get_allow_incoming_task_requests_preference fails user kv in
    if is_some err then true else preference

-- how a setting is saved and what is answered
abbrev pub saved : CommandArgs → String → String → Result (Unit {0}) × Kv → Ran × Kv
saved extra text failure (error e, kv) = (failed false failure, kv)
saved extra text failure (panic, kv) = (panicking [], kv)
saved extra text failure (ok _, kv) = (respond extra text, kv)

-- `settings summary`, with the arguments after this
unfoldable pub run_summary : Failures → List String → CommandArgs → Kv → Ran × Kv
unfolding get_summary_setting get_reminder_preference save_reminder_preference
run_summary fails [] extra kv = (
  respond extra
      (get_summary_setting (get_reminder_preference fails.reading_reminder extra.user_id kv)),
  kv,
)
run_summary fails (arg ∷ []) extra kv = elim (on_off arg) [
  | none ↦
      (failed true "invalid input, allowed values for \"settings summary\" are `on` or `off`", kv)
  | some b ↦
      saved extra
        (if b
          then "You will start receiving daily summaries."
          else "You will stop receiving daily summaries.")
        "error saving the reminder preference"
        (save_reminder_preference fails.saving extra.user_id b kv)
]
run_summary fails (_ ∷ _ ∷ _) extra kv = (failed true "too many arguments", kv)

-- The answer to a preference and its error, whose text is logged.
unfoldable pub answered_setting : CommandArgs → Bool × Option PreferenceError → Ran
unfolding get_allow_incoming_task_requests_setting
answered_setting extra (preference, none) =
    respond extra (get_allow_incoming_task_requests_setting preference)
answered_setting extra (_, some (readable _)) =
    respond extra (get_allow_incoming_task_requests_setting true)
answered_setting extra (_, some (of_nil _)) = panicking []

-- `settings allow_incoming_task_requests`, with the arguments after this
unfoldable pub run_allow_incoming : Failures → List String → CommandArgs → Kv → Ran × Kv
unfolding get_allow_incoming_task_requests_preference answered_setting
    save_allow_incoming_task_requests_preference
run_allow_incoming fails [] extra kv = (
  answered_setting extra
      (get_allow_incoming_task_requests_preference fails.reading_incoming extra.user_id kv),
  kv,
)
run_allow_incoming fails (arg ∷ []) extra kv = elim (on_off arg) [
  | none ↦ (
    failed true
        "invalid input, allowed values for \"settings allow_incoming_task_requests\" are `on` or `off`",
    kv,
  )
  | some b ↦
      saved extra
        (if b
          then "Other users can send task for you to accept/decline"
          else concat (
              "Other users cannot send you task request. "
              ∷ "They will see a message saying you have blocked incoming task requests" ∷ []))
        "error saving the block_incoming preference"
        (save_allow_incoming_task_requests_preference fails.saving extra.user_id b kv)
]
run_allow_incoming fails (_ ∷ _ ∷ _) extra kv = (failed true "too many arguments", kv)

unfoldable pub run_settings_command : Failures → List String → CommandArgs → Kv → Ran × Kv
unfolding get_all_settings get_reminder_preference shown_incoming run_summary run_allow_incoming
run_settings_command fails [] extra kv = (
  respond extra (
      get_all_settings (get_reminder_preference fails.reading_reminder extra.user_id kv)
        (shown_incoming fails.reading_incoming extra.user_id kv)),
  kv,
)
run_settings_command fails (setting ∷ args) extra kv =
    if str_eq setting "summary"
    then run_summary fails args extra kv
    else if str_eq setting "allow_incoming_task_requests"
    then run_allow_incoming fails args extra kv
    else (failed true (concat ("setting `" ∷ setting ∷ "` not recognized" ∷ [])), kv)
