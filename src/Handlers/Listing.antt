-- ===== src/Handlers/Listing.antt =====
-- Reading the lists, and the daily reminder: `handleLists` of server/plugin.go. What is logged and
-- tracked is left out. `atoi` reads the offset that a header gives, 0 where it is no number, and
-- `date_in` gives the year, the month and the day of a time in seconds, in the zone that is so many
-- seconds ahead of UTC or behind; both are the host's.
use Prim.Native.Nat.{◌/◌, ◌*◌}
use okrbest_plugin_todo.Common.{
  String, ℕ, ◌+◌, Bool, not, ◌&&◌, ◌||◌, Option, none, some, List, [], ◌∷◌, leb, nat_eq, is_nil,
  str_eq, concat, if◌then◌else◌,
}
use okrbest_plugin_todo.ListStore.{Result, error, panic, ok}
use okrbest_plugin_todo.Db.{Db}
use okrbest_plugin_todo.ListManager.Reading.{ExtendedIssue, get_all_list}
use okrbest_plugin_todo.Preferences.{
  Kv, get_reminder_preference, get_last_reminder_time, save_last_reminder_time,
}
use okrbest_plugin_todo.Handlers.{Notice, dm}
use okrbest_plugin_todo.Commands.Texts.{issues_list_to_string}

-- a number of minutes or seconds, with its sign
pub data Offset : Type 0 where
  plus : ℕ → Offset
  minus : ℕ → Offset

-- `-60*offset`
abbrev pub zone_of : Offset → Offset
zone_of (plus n) = minus (60 * n)
zone_of (minus n) = plus (60 * n)

-- the received, own and sent issues
abbrev pub Lists : Type 0
Lists = List ExtendedIssue × List ExtendedIssue × List ExtendedIssue

pub record ListsRequest : Type 0 where
  pub user_id : String
  pub reminder : String
  pub timezone_offset : String
  -- the clock when the handler reads it, and when the reminder is saved
  pub now : ℕ
  pub saved_at : ℕ
  -- which calls of the host fail
  pub preference_fails : Bool
  pub time_fails : Bool
  pub saving_fails : Bool

-- what is answered: a status, whom the bot has told, and the lists
pub record ListsResponse : Type 0 where
  pub status : ℕ
  pub notices : List Notice
  pub lists : Option Lists

abbrev pub unlisted : ListsResponse
unlisted = record { status = 500; notices = []; lists = none }

-- after a panic
abbrev pub unanswered : ListsResponse
unanswered = record { status = 200; notices = []; lists = none }

abbrev pub listing : List Notice → Lists → ListsResponse
listing notices lists = record { status = 200; notices = notices; lists = some lists }

module _ (atoi : String → Offset) (date_in : Offset → ℕ → ℕ × ℕ × ℕ) where
  -- It is the next day there, and an hour has passed.
  unfoldable pub is_due : ListsRequest → ℕ → Bool
  is_due r last =
      let zone = zone_of (atoi r.timezone_offset) in
      let (year, month, day) = date_in zone (r.now / 1000) in
      let (year', month', day') = date_in zone (last / 1000) in
      leb (last / 1000 + 3600) (r.now / 1000)
      && (not (nat_eq day day') || not (nat_eq month month') || not (nat_eq year year'))

  module _ (username : String → Option String) (format_date : ℕ → String) (format_int : ℕ → String)
      (parse_int : String → Option ℕ) where
    unfoldable pub after_time : ListsRequest → Lists → Kv → Result ℕ → ListsResponse × Kv
    unfolding is_due save_last_reminder_time issues_list_to_string
    after_time r lists kv (error e) = (unlisted, kv)
    after_time r lists kv panic = (unanswered, kv)
    after_time r lists kv (ok last) =
        if is_due r last
        then (
          listing
              (dm r.user_id
                  (concat ("Daily Reminder:\n\n" ∷ issues_list_to_string format_date lists.1 ∷ []))
                ∷ [])
              lists,
          (save_last_reminder_time format_int parse_int r.saving_fails r.saved_at r.user_id kv).1,
        )
        else (listing [] lists, kv)

    unfoldable pub after_lists : ListsRequest → Kv → Result Lists → ListsResponse × Kv
    unfolding after_time get_reminder_preference get_last_reminder_time
    after_lists r kv (error e) = (unlisted, kv)
    after_lists r kv panic = (unanswered, kv)
    after_lists r kv (ok lists) =
        if not (is_nil lists.1)
          && (str_eq r.reminder "true" && get_reminder_preference r.preference_fails r.user_id kv)
        then after_time r lists kv
            (get_last_reminder_time format_int parse_int r.time_fails r.user_id kv)
        else (listing [] lists, kv)

    unfoldable pub handle_lists : ListsRequest → Kv × Db → ListsResponse × Kv × Db
    unfolding get_all_list after_lists
    handle_lists r (kv, db) =
        let (lists, db') = get_all_list username r.user_id db in
        let (response, kv') = after_lists r kv lists in (response, kv', db')
