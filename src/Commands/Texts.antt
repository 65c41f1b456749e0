-- ===== src/Commands/Texts.antt =====
-- The texts with which commands answer: server/command.go, and the list of issues of
-- server/issue.go. `format_date` is the host's text of a time in seconds.
use Prim.Native.Nat.{◌/◌}
use okrbest_plugin_todo.Common.{String, ℕ, Bool, List, [], ◌∷◌, concat, map, if◌then◌else◌}
use okrbest_plugin_todo.ListManager.Reading.{ExtendedIssue}

unfoldable pub get_help : String
get_help = concat (
    "Available Commands:\n\n" ∷ "add [message]\n\tAdds a Todo.\n\n"
    ∷ "\texample: /todo add Don't forget to be awesome\n\n" ∷ "list\n\tLists your Todo issues.\n\n"
    ∷ "list [listName]\n\tList your issues in certain list\n\n"
    ∷ "\texample: /todo list in\n\texample: /todo list out\n\texample (same as /todo list): /todo list my\n\n"
    ∷ "pop\n\tRemoves the Todo issue at the top of the list.\n\n"
    ∷ "send [user] [message]\n\tSends some user a Todo\n\n"
    ∷ "\texample: /todo send @awesomePerson Don't forget to be awesome\n\n"
    ∷ "settings summary [on, off]\n\tSets user preference on daily reminders\n\n"
    ∷ "\texample: /todo settings summary on\n\n"
    ∷ "settings allow_incoming_task_requests [on, off]\n\tAllow other Mattermost users to send a task for you to accept/decline?\n\n"
    ∷ "\texample: /todo settings allow_incoming_task_requests on\n\n" ∷ "\nhelp\n\tDisplay usage.\n"
    ∷ [])

unfoldable pub get_summary_setting : Bool → String
get_summary_setting flag =
    if flag
    then "Reminder setting is set to `on`. **You will receive daily reminders.**"
    else "Reminder setting is set to `off`. **You will not receive daily reminders.**"

unfoldable pub get_allow_incoming_task_requests_setting : Bool → String
get_allow_incoming_task_requests_setting flag =
    if flag
    then concat (
        "Allow incoming task requests setting is set to `on`. "
        ∷ "**Other users can send you task request that you can accept/decline.**" ∷ [])
    else concat (
        "Allow incoming task requests setting is set to `off`. "
        ∷ "**Other users cannot send you task request. They will see a message saying you don't accept Todo requests.**"
        ∷ [])

unfoldable pub get_all_settings : Bool → Bool → String
unfolding get_summary_setting get_allow_incoming_task_requests_setting
get_all_settings summary_flag block_incoming_flag = concat (
    "Current Settings:\n\n"
    ∷ get_summary_setting summary_flag
    ∷ "\n"
    ∷ get_allow_incoming_task_requests_setting block_incoming_flag
    ∷ "\n\t"
    ∷ [])

-- one issue of `issuesListToString`
abbrev pub issue_line : (ℕ → String) → ExtendedIssue → String
issue_line format_date i =
    concat
      ("* " ∷ i.issue.message ∷ "\n  * (" ∷ format_date (i.issue.create_at / 1000) ∷ ")\n" ∷ [])

unfoldable pub issues_list_to_string : (ℕ → String) → List ExtendedIssue → String
issues_list_to_string format_date [] = "Nothing to do!"
issues_list_to_string format_date (i ∷ issues) =
    concat ("\n\n" ∷ map (issue_line format_date) (i ∷ issues))
