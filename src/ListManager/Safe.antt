-- ===== src/ListManager/Safe.antt =====
-- Adding, sending, popping and reading do not panic on a store that is valid: server/list.go.
use okrbest_plugin_todo.Common.{String, Option, List, [], ◌∷◌, str_eq}
use okrbest_plugin_todo.ListStore.{IssueRef}
use okrbest_plugin_todo.Db.{Issue, my_list_key, in_list_key, out_list_key}
use okrbest_plugin_todo.Db.Safe.{
  IsSafe, bind-IsSafe, then-IsSafe, pure-IsSafe, attempt-IsSafe, log_error-IsSafe,
  or_roll_back-IsSafe, if-IsSafe, option-IsSafe, take_out-IsSafe, add-IsSafe, pop-IsSafe,
  new-IsSafe, save-IsSafe, remove-IsSafe, get-IsSafe, list-IsSafe, get_and_remove-IsSafe,
  places-IsSafe,
}
use okrbest_plugin_todo.ListManager.{add_issue, send_issue, clean_foreign, pop_issue}
use okrbest_plugin_todo.ListManager.Reading.{
  extended, extend_issue_info, extend_all, get_issue_list,
}

pub add_issue-IsSafe :
    (user message permalink description post : String)
    → IsSafe (add_issue user message permalink description post)
unfolding add_issue
add_issue-IsSafe user message permalink description post =
    bind-IsSafe (new-IsSafe message permalink description post) (λ issue.
      then-IsSafe (save-IsSafe issue) (
        then-IsSafe
          (or_roll_back-IsSafe (add-IsSafe user issue.id my_list_key "" "")
            (log_error-IsSafe (remove-IsSafe issue.id)))
          (pure-IsSafe issue)))

pub send_issue-IsSafe :
    (sender receiver message permalink description post : String)
    → IsSafe (send_issue sender receiver message permalink description post)
unfolding send_issue
send_issue-IsSafe sender receiver message permalink description post =
    bind-IsSafe (new-IsSafe message permalink description post) (λ sent.
      then-IsSafe (save-IsSafe sent) (
        bind-IsSafe (new-IsSafe message permalink description post) (λ received.
          let unsent = log_error-IsSafe (remove-IsSafe sent.id) in
          let undone = then-IsSafe unsent (log_error-IsSafe (remove-IsSafe received.id)) in
          then-IsSafe (or_roll_back-IsSafe (save-IsSafe received) unsent) (
            then-IsSafe
              (or_roll_back-IsSafe (add-IsSafe sender sent.id out_list_key receiver received.id)
                undone)
              (then-IsSafe
                (or_roll_back-IsSafe (add-IsSafe receiver received.id in_list_key sender sent.id) (
                  then-IsSafe undone
                    (log_error-IsSafe (take_out-IsSafe sender sent.id out_list_key))))
                (pure-IsSafe received.id))))))

clean_foreign-IsSafe :
    {A : Type 0} (list : String) (ir : IssueRef) (issue : Option Issue)
    (result : Option Issue → String → A)
    → IsSafe (clean_foreign list ir issue result)
clean_foreign-IsSafe list ir issue result =
    if-IsSafe (str_eq ir.foreign_user_id "") (pure-IsSafe (result issue "")) (
      then-IsSafe (log_error-IsSafe (take_out-IsSafe ir.foreign_user_id ir.foreign_issue_id list)) (
        bind-IsSafe (attempt-IsSafe (get_and_remove-IsSafe ir.foreign_issue_id))
          (λ foreign_issue. pure-IsSafe (result foreign_issue ir.foreign_user_id))))

pub pop_issue-IsSafe : (user : String) → IsSafe (pop_issue user)
unfolding pop_issue
pop_issue-IsSafe user = bind-IsSafe (pop-IsSafe user my_list_key) (λ ir.
    bind-IsSafe (attempt-IsSafe (get_and_remove-IsSafe ir.issue_id))
      (λ issue. clean_foreign-IsSafe out_list_key ir issue (λ i other. (i, other))))

module _ (username : String → Option String) where
  extend_issue_info-IsSafe :
      (issue : Issue) (ir : IssueRef) → IsSafe (extend_issue_info username issue ir)
  unfolding extend_issue_info
  extend_issue_info-IsSafe issue ir = if-IsSafe (str_eq ir.foreign_user_id "") (pure-IsSafe _) (
      bind-IsSafe (places-IsSafe ir.foreign_user_id ir.foreign_issue_id)
        (λ found. pure-IsSafe (extended username issue ir found)))

  extend_all-IsSafe : (irs : List IssueRef) → IsSafe (extend_all username irs)
  unfolding extend_all
  extend_all-IsSafe [] = pure-IsSafe []
  extend_all-IsSafe (ir ∷ irs) = bind-IsSafe (attempt-IsSafe (get-IsSafe ir.issue_id)) (λ found.
      option-IsSafe found (extend_all-IsSafe irs) (λ issue.
        bind-IsSafe (extend_issue_info-IsSafe issue ir)
          (λ e. bind-IsSafe (extend_all-IsSafe irs) (λ more. pure-IsSafe (e ∷ more)))))

  pub get_issue_list-IsSafe : (user list : String) → IsSafe (get_issue_list username user list)
  unfolding get_issue_list
  get_issue_list-IsSafe user list = bind-IsSafe (list-IsSafe user list) extend_all-IsSafe
