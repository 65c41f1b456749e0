-- ===== src/Examples/Commands.antt =====
-- Commands of the server, at concrete data.
use okrbest_plugin_todo.Common.{
  String, ℕ, true, false, Option, none, some, List, [], ◌∷◌, ◌≡◌, ◌≢◌, refl, map, concat, str_eq,
  eq_iff, arith, if◌then◌else◌,
}
use okrbest_plugin_todo.ListStore.{pop_ref, remove_ref}
use okrbest_plugin_todo.ListStore.Sequential.{new_ref}
use okrbest_plugin_todo.Db.{Db, Issue, put_list, put_issue, my_list_key}
use okrbest_plugin_todo.Db.Valid.{IsValid}
use okrbest_plugin_todo.ListManager.Reading.{ExtendedIssue}
use okrbest_plugin_todo.ListManager.Requests.{send, accept}
use okrbest_plugin_todo.ListManager.Sending.{issue_of}
use okrbest_plugin_todo.ListManager.Failing.{failing}
use okrbest_plugin_todo.Preferences.{Kv}
use okrbest_plugin_todo.Handlers.{done, dm, refresh}
use okrbest_plugin_todo.Handlers.Adding.{handle_add}
use okrbest_plugin_todo.Commands.Handling.{CommandArgs, Failures, finished, post_command_response}
use okrbest_plugin_todo.Commands.Texts.{issues_list_to_string}
use okrbest_plugin_todo.Commands.Words.{is_space, is_gap, command_words, join}
use okrbest_plugin_todo.Commands.Words.Reading.{IsBlank, IsGap, IsWord, command_words-spell}
use okrbest_plugin_todo.Commands.Lists.{user_name, run_add_command, run_pop_command}
use okrbest_plugin_todo.Commands.{execute_command}
use okrbest_plugin_todo.Commands.Calling.{request, command, call_all, call_all-IsValid}
use okrbest_plugin_todo.Commands.Popping.{run_pop_command_lem}
use okrbest_plugin_todo.Commands.Adding.{run_add_command_lem}
use okrbest_plugin_todo.Commands.Storing.{asking, execute_send-handle_add}
use okrbest_plugin_todo.Commands.Blocking.{handle_add-blocked}
use okrbest_plugin_todo.Examples.Requests.{empty_db}

abbrev calm : Failures
calm = record { reading_reminder = false; reading_incoming = false; saving = false }

abbrev by_ann : String → CommandArgs
by_ann text = record { user_id = "ann"; channel_id = "town"; command = text }

abbrev pub date : ℕ → String
date _ = "January 1, 1970 at 00:00"

abbrev pub nobody : String → Option String
nobody _ = none

abbrev pub nothing : Kv
nothing _ = none

abbrev pub found : String → Option (String × String)
found name =
    if str_eq name "bob"
    then some ("bob", "bob")
    else if str_eq name "ann"
    then some ("ann", "ann")
    else none

-- what words there are of some texts, a tab and a line break in one of them
words_of :
    command_words "  /todo\tadd milk\n  and tea " ≡ "/todo" ∷ "add" ∷ "milk" ∷ "and" ∷ "tea" ∷ []
unfolding command_words
words_of = refl

no_words : command_words " \t " ≡ "" ∷ []
unfolding command_words
no_words = refl

space-IsBlank : IsBlank " "
unfolding is_space
space-IsBlank = (refl, tt)

end-IsBlank : IsBlank "\n"
unfolding is_space
end-IsBlank = (refl, tt)

tab-IsGap : IsGap "\t "
unfolding is_gap
tab-IsGap = (ground (arith, eq_iff "\t " ""), (refl, (refl, tt)))

space-IsGap : IsGap " "
unfolding is_gap
space-IsGap = (ground (arith, eq_iff " " ""), (refl, tt))

todo-IsWord : IsWord "/todo"
unfolding is_space
todo-IsWord = (ground (arith, eq_iff "/todo" ""), (refl, (refl, (refl, (refl, (refl, tt))))))

add-IsWord : IsWord "add"
unfolding is_space
add-IsWord = (ground (arith, eq_iff "add" ""), (refl, (refl, (refl, tt))))

milk-IsWord : IsWord "milk"
unfolding is_space
milk-IsWord = (ground (arith, eq_iff "milk" ""), (refl, (refl, (refl, (refl, tt)))))

command_words-spell_example : command_words " /todo\t add milk\n" ≡ "/todo" ∷ "add" ∷ "milk" ∷ []
command_words-spell_example =
    command_words-spell " " "/todo" (("\t ", "add") ∷ (" ", "milk") ∷ []) "\n" space-IsBlank
      todo-IsWord ((tab-IsGap, add-IsWord), ((space-IsGap, milk-IsWord), tt)) end-IsBlank

call_all-IsValid_example :
    IsValid
      (call_all nobody date found
        (request (send "ann" "bob" "tea" "" "" "")
          ∷ request (accept "bob" "i1")
          ∷ command calm (by_ann "/todo add milk")
          ∷ command calm (by_ann "/todo pop")
          ∷ [])
        (nothing, failing 3 empty_db)).1
call_all-IsValid_example =
    call_all-IsValid nobody date found
      (request (send "ann" "bob" "tea" "" "" "")
        ∷ request (accept "bob" "i1")
        ∷ command calm (by_ann "/todo add milk")
        ∷ command calm (by_ann "/todo pop")
        ∷ [])
      nothing (failing 3 empty_db) ((λ u l. tt), λ id i e. ground (arith, e))

-- ann's own list has an issue that she has accepted from bob, who has completed it
abbrev gone_db : Db
gone_db = record empty_db {
  lists = put_list "ann" my_list_key (new_ref "i1" "bob" "i0" ∷ []) empty_db.lists;
}

pop-panics :
    (execute_command nobody date found calm (by_ann "/todo pop now") nothing gone_db).0.1 ≡ true
unfolding execute_command pop_ref remove_ref
pop-panics = refl

-- what is stored of preferences is no truth value
abbrev garbage : Kv
garbage _ = some "maybe"

abbrev asking_setting : CommandArgs
asking_setting = by_ann "/todo settings allow_incoming_task_requests"

milk-nil : ◌≢◌ {A = String} "milk" ""
milk-nil = ground (arith, eq_iff "milk" "")

abbrev milk : Issue
milk = issue_of empty_db "i0" "milk" "" "" ""

-- ann's own list has the issue `i0`
abbrev pub milk_db : Db
milk_db = record empty_db {
  issues = put_issue "i0" (some milk) empty_db.issues;
  lists = put_list "ann" my_list_key (new_ref "i0" "" "" ∷ []) empty_db.lists;
}

run_pop_command_lem_example :
    let after : Db = record milk_db {
      lists = put_list "ann" my_list_key [] milk_db.lists;
      issues = put_issue "i0" none milk_db.issues;
    } in
    (left : List ExtendedIssue) × (map (λ (i : ExtendedIssue). i.issue) left ≡ [])
    × (run_pop_command nobody date (by_ann "/todo pop") milk_db ≡ (
      finished (
          refresh "ann" (my_list_key ∷ [])
          ∷ post_command_response (by_ann "/todo pop") (
              concat
                ("Removed top Todo." ∷ " Todo List:\n\n" ∷ issues_list_to_string date left ∷ []))
          ∷ []),
      after,
    ))
run_pop_command_lem_example =
    run_pop_command_lem nobody date (by_ann "/todo pop") milk_db refl (new_ref "i0" "" "") [] refl
      milk refl refl

abbrev words : List String
words = "milk" ∷ "now" ∷ []

joined-nil : join words ≢ ""
unfolding join
joined-nil = ground (arith, eq_iff "milk now" "")

run_add_command_lem_example :
    let issue = issue_of empty_db "i0" (join words) "" "" "" in
    let after : Db = record empty_db {
      issues = put_issue "i0" (some issue) empty_db.issues;
      lists = put_list "ann" my_list_key (new_ref "i0" "" "" ∷ []) empty_db.lists;
      made = 1;
    } in
    (shown : List ExtendedIssue) × (map (λ (i : ExtendedIssue). i.issue) shown ≡ issue ∷ [])
    × (run_add_command nobody date words (by_ann "/todo add milk now") empty_db ≡ (
      finished (
          refresh "ann" (my_list_key ∷ [])
          ∷ post_command_response
              (by_ann "/todo add milk now")
              (concat ("Added Todo." ∷ " Todo List:\n\n" ∷ issues_list_to_string date shown ∷ []))
          ∷ []),
      after,
    ))
run_add_command_lem_example =
    run_add_command_lem nobody date (by_ann "/todo add milk now") empty_db refl words joined-nil tt

send-words :
    command_words "/todo send @bob milk now" ≡ "/todo" ∷ "send" ∷ "@bob" ∷ "milk" ∷ "now" ∷ []
unfolding command_words
send-words = refl

bob-name : user_name "@bob" ≡ some "bob"
unfolding user_name
bob-name = refl

bob-nil : ◌≢◌ {A = String} "bob" ""
bob-nil = ground (arith, eq_iff "bob" "")

execute_send-handle_add_example :
    (execute_command nobody date found calm (by_ann "/todo send @bob milk now") nothing empty_db).2
    ≡ (handle_add nobody found false nothing "ann" (some (asking (join words) "bob")) empty_db).1
execute_send-handle_add_example =
    execute_send-handle_add nobody date found false nothing calm (by_ann "/todo send @bob milk now")
      empty_db "/todo" "@bob" "bob" "milk" ("now" ∷ []) refl refl send-words bob-name bob-nil

summary-words :
    command_words "/todo settings summary off" ≡ "/todo" ∷ "settings" ∷ "summary" ∷ "off" ∷ []
unfolding command_words
summary-words = refl

block-words :
    command_words "/todo settings allow_incoming_task_requests off"
    ≡ "/todo" ∷ "settings" ∷ "allow_incoming_task_requests" ∷ "off" ∷ []
unfolding command_words
block-words = refl

abbrev blocking : CommandArgs
blocking = by_ann "/todo settings allow_incoming_task_requests off"

bob-ann : ◌≢◌ {A = String} "bob" "ann"
bob-ann = ground (arith, eq_iff "bob" "ann")

ann-nil : ◌≢◌ {A = String} "ann" ""
ann-nil = ground (arith, eq_iff "ann" "")

handle_add-blocked_example :
    handle_add nobody found false
      (execute_command nobody date found calm blocking nothing empty_db).1
      "bob"
      (some (asking "milk" "ann"))
      milk_db
    ≡ (done (dm "bob" (concat ("@" ∷ "ann" ∷ " has blocked Todo requests" ∷ [])) ∷ []), milk_db)
handle_add-blocked_example =
    handle_add-blocked nobody date found calm blocking nothing empty_db "/todo" "bob" "ann"
      (asking "milk" "ann") milk_db refl block-words bob-ann milk-nil ann-nil refl
