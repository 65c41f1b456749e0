-- ===== src/Preferences.antt =====
-- The times of reminders and the preferences of users that server/store.go keeps, each in a key of
-- its own. `fails` tells whether the host fails at the call of an operation; `format_int` and
-- `parse_int` are the decimal texts of numbers, and the clock is an argument.
pub mod Keys
use okrbest_plugin_todo.Common.{
  String, ℕ, Bool, true, false, Option, none, some, List, [], ◌∷◌, any, str_eq, concat,
  if◌then◌else◌,
}
use okrbest_plugin_todo.ListStore.{Result, error, ok}

-- The values of the host's keys.
abbrev pub Kv : Type 0
Kv = String → Option String

unfoldable pub reminder_key : String → String
reminder_key user = concat ("reminder" ∷ "_" ∷ user ∷ [])

unfoldable pub reminder_enabled_key : String → String
reminder_enabled_key user = concat ("reminder_enabled" ∷ "_" ∷ user ∷ [])

unfoldable pub allow_incoming_task_requests_key : String → String
allow_incoming_task_requests_key user = concat ("allow_incoming_task" ∷ "_" ∷ user ∷ [])

-- `KVSet`
unfoldable pub set_value : Bool → String → String → Kv → Result (Unit {0}) × Kv
set_value fails key value kv =
    if fails then (error "KV", kv) else (ok tt, λ k. if str_eq key k then some value else kv k)

-- `strconv.FormatBool` and `strconv.ParseBool`
abbrev pub format_bool : Bool → String
format_bool b = if b then "true" else "false"

unfoldable pub parse_bool : String → Option Bool
parse_bool s =
    if any (str_eq s) ("1" ∷ "t" ∷ "T" ∷ "true" ∷ "TRUE" ∷ "True" ∷ [])
    then some true
    else if any (str_eq s) ("0" ∷ "f" ∷ "F" ∷ "false" ∷ "FALSE" ∷ "False" ∷ [])
    then some false
    else none

unfoldable pub save_reminder_preference : Bool → String → Bool → Kv → Result (Unit {0}) × Kv
unfolding set_value reminder_enabled_key
save_reminder_preference fails user preference =
    set_value fails (reminder_enabled_key user) (format_bool preference)

unfoldable pub get_reminder_preference : Bool → String → Kv → Bool
unfolding reminder_enabled_key parse_bool
get_reminder_preference fails user kv =
    if fails then true else elim (kv (reminder_enabled_key user)) [
      | none ↦ true
      | some s ↦ elim (parse_bool s) [ none ↦ true | some b ↦ b ]
    ]

unfoldable pub save_allow_incoming_task_requests_preference :
    Bool → String → Bool → Kv → Result (Unit {0}) × Kv
unfolding set_value allow_incoming_task_requests_key
save_allow_incoming_task_requests_preference fails user preference =
    set_value fails (allow_incoming_task_requests_key user) (format_bool preference)

-- An error with a text, or one that wraps a nil pointer to an error of the host: it is not nil, and
-- making its text panics.
pub data PreferenceError : Type 0 where
  readable : String → PreferenceError
  of_nil : String → PreferenceError

-- The preference, and an error if there is one. Where the value cannot be parsed, the error wraps
-- that of the host, which is nil then.
unfoldable pub get_allow_incoming_task_requests_preference :
    Bool → String → Kv → Bool × Option PreferenceError
unfolding allow_incoming_task_requests_key parse_bool
get_allow_incoming_task_requests_preference fails user kv =
    if fails
    then (true, some (readable "error getting the allow incoming task requests preference"))
    else elim (kv (allow_incoming_task_requests_key user)) [
      | none ↦ (true, none)
      | some s ↦ elim (parse_bool s) [
        | none ↦ (true, some (of_nil "unable to parse the allow incoming task requests preference"))
        | some b ↦ (b, none)
      ]
    ]

module _ (format_int : ℕ → String) (parse_int : String → Option ℕ) where
  unfoldable pub save_last_reminder_time : Bool → ℕ → String → Kv → Result (Unit {0}) × Kv
  unfolding set_value reminder_key
  save_last_reminder_time fails now user = set_value fails (reminder_key user) (format_int now)

  unfoldable pub get_last_reminder_time : Bool → String → Kv → Result ℕ
  unfolding reminder_key
  get_last_reminder_time fails user kv =
      if fails then error "KV" else elim (kv (reminder_key user)) [
        | none ↦ ok 0
        | some s ↦ elim (parse_int s) [ none ↦ error "strconv" | some n ↦ ok n ]
      ]
