-- ===== src/ListManager/Keeping.antt =====
-- An invariant of the store is one of all operations on lists of issues: server/list.go.
use okrbest_plugin_todo.Common.{String, not, ◌&&◌, ◌||◌, Option, str_eq}
use okrbest_plugin_todo.ListStore.{IssueRef, error, ok}
use okrbest_plugin_todo.Db.{Issue, Db, my_list_key, in_list_key, out_list_key}
use okrbest_plugin_todo.Db.Keeping.{
  Keeps, IsInvariant, bind-Keeps, then-Keeps, pure-Keeps, attempt-Keeps, log_error-Keeps,
  or_roll_back-Keeps, if-Keeps, option-Keeps, get_and_remove_issue-Keeps,
  get_issue_list_and_reference-Keeps,
}
use okrbest_plugin_todo.ListManager.{
  edited, edit_foreign, add_issue, send_issue, clean_foreign, complete_issue, edit_issue, take_back,
  reassign, change_assignment, accept_issue, remove_issue, pop_issue, bump_issue,
}

module _ (P : Db → Type 0) (inv : IsInvariant P) where
  pub add_issue-Keeps :
      (user message permalink description post : String)
      → Keeps P (add_issue user message permalink description post)
  unfolding add_issue
  add_issue-Keeps user message permalink description post =
      bind-Keeps P (inv.new message permalink description post) (λ issue.
        then-Keeps P (inv.save issue) (
          then-Keeps P
            (or_roll_back-Keeps P (inv.add user issue.id my_list_key "" "")
              (log_error-Keeps P (inv.remove issue.id)))
            (pure-Keeps P (ok issue))))

  pub send_issue-Keeps :
      (sender receiver message permalink description post : String)
      → Keeps P (send_issue sender receiver message permalink description post)
  unfolding send_issue
  send_issue-Keeps sender receiver message permalink description post =
      bind-Keeps P (inv.new message permalink description post) (λ sent.
        then-Keeps P (inv.save sent) (
          bind-Keeps P (inv.new message permalink description post) (λ received.
            let unsent = log_error-Keeps P (inv.remove sent.id) in
            let undone = then-Keeps P unsent (log_error-Keeps P (inv.remove received.id)) in
            then-Keeps P (or_roll_back-Keeps P (inv.save received) unsent) (
              then-Keeps P
                (or_roll_back-Keeps P (inv.add sender sent.id out_list_key receiver received.id)
                  undone)
                (then-Keeps P
                  (or_roll_back-Keeps P (inv.add receiver received.id in_list_key sender sent.id) (
                    then-Keeps P undone
                      (log_error-Keeps P (inv.take_out sender sent.id out_list_key))))
                  (pure-Keeps P (ok received.id)))))))

  pub clean_foreign-Keeps :
      {A : Type 0} (list : String) (ir : IssueRef) (issue : Option Issue)
      (result : Option Issue → String → A)
      → Keeps P (clean_foreign list ir issue result)
  clean_foreign-Keeps list ir issue result =
      if-Keeps P (str_eq ir.foreign_user_id "") (pure-Keeps P _) (
        then-Keeps P (log_error-Keeps P (inv.take_out ir.foreign_user_id ir.foreign_issue_id list))
          (bind-Keeps P (attempt-Keeps P (get_and_remove_issue-Keeps P inv ir.foreign_issue_id))
            (λ foreign_issue. pure-Keeps P _)))

  pub complete_issue-Keeps : (user id : String) → Keeps P (complete_issue user id)
  unfolding complete_issue
  complete_issue-Keeps user id =
      bind-Keeps P (get_issue_list_and_reference-Keeps P inv user id) (λ found.
        option-Keeps P found.1 (pure-Keeps P (error "cannot find element")) (λ (ir, n).
          then-Keeps P (inv.take_out user id found.0) (
            bind-Keeps P (attempt-Keeps P (get_and_remove_issue-Keeps P inv id)) (λ issue.
              clean_foreign-Keeps out_list_key ir issue (λ i other. (i, other, found.0))))))

  pub edit_foreign-Keeps :
      (message description id : String) → Keeps P (edit_foreign message description id)
  edit_foreign-Keeps message description id = if-Keeps P (str_eq id "") (pure-Keeps P _) (
      bind-Keeps P (attempt-Keeps P (inv.get id)) (λ found.
        option-Keeps P found (pure-Keeps P _) (λ f.
          bind-Keeps P (log_error-Keeps P (inv.save (edited message description f)))
            (λ _. pure-Keeps P _))))

  pub edit_issue-Keeps :
      (user id message description : String) → Keeps P (edit_issue user id message description)
  unfolding edit_issue
  edit_issue-Keeps user id message description = bind-Keeps P (inv.get id) (λ issue.
      bind-Keeps P (get_issue_list_and_reference-Keeps P inv user id) (λ found.
        option-Keeps P found.1 (pure-Keeps P _) (λ (ir, n).
          bind-Keeps P (edit_foreign-Keeps message description ir.foreign_issue_id)
            (λ old. then-Keeps P (inv.save (edited message description issue)) (pure-Keeps P _)))))

  pub take_back-Keeps : (ir : IssueRef) → Keeps P (take_back ir)
  unfolding take_back
  take_back-Keeps ir =
      let other = ir.foreign_issue_id in
      if-Keeps P (str_eq ir.foreign_user_id "") (pure-Keeps P _) (
        bind-Keeps P (get_issue_list_and_reference-Keeps P inv ir.foreign_user_id other) (λ found.
          option-Keeps P found.1 (pure-Keeps P _) (λ _.
            then-Keeps P (inv.take_out ir.foreign_user_id other found.0)
              (log_error-Keeps P (get_and_remove_issue-Keeps P inv other)))))

  pub reassign-Keeps :
      (issue : Issue) (id user send_to list : String) (ir : IssueRef)
      → Keeps P (reassign issue id user send_to list ir)
  unfolding reassign
  reassign-Keeps issue id user send_to list ir =
      if-Keeps P (str_eq user send_to && str_eq list out_list_key)
        (then-Keeps P
          (then-Keeps P (inv.take_out user id out_list_key) (inv.add user id my_list_key "" ""))
          (pure-Keeps P (ok (issue, ir.foreign_user_id))))
        (then-Keeps P
          (if-Keeps P (not (str_eq user send_to)) (inv.take_out user id list)
            (pure-Keeps P (ok tt)))
          (bind-Keeps P (inv.new issue.message issue.post_permalink issue.description issue.post_id)
            (λ received. then-Keeps P (inv.save received) (
              then-Keeps P (inv.add user id out_list_key send_to received.id) (
                then-Keeps P (inv.add send_to received.id in_list_key user issue.id)
                  (pure-Keeps P (ok (issue, ir.foreign_user_id))))))))

  pub change_assignment-Keeps :
      (id user send_to : String) → Keeps P (change_assignment id user send_to)
  unfolding change_assignment
  change_assignment-Keeps id user send_to = bind-Keeps P (inv.get id) (λ issue.
      bind-Keeps P (get_issue_list_and_reference-Keeps P inv user id) (λ found.
        option-Keeps P found.1 (pure-Keeps P _) (λ (ir, n).
          if-Keeps P
            (str_eq found.0 in_list_key
              || (not (str_eq ir.foreign_issue_id "") && str_eq found.0 my_list_key))
            (pure-Keeps P _)
            (then-Keeps P (take_back-Keeps ir) (reassign-Keeps issue id user send_to found.0 ir)))))

  pub accept_issue-Keeps : (user id : String) → Keeps P (accept_issue user id)
  unfolding accept_issue
  accept_issue-Keeps user id = bind-Keeps P (inv.get id) (λ issue.
      bind-Keeps P (inv.find user id in_list_key) (λ found.
        then-Keeps P (inv.add user id my_list_key found.0.foreign_user_id found.0.foreign_issue_id)
          (then-Keeps P
            (or_roll_back-Keeps P (inv.take_out user id in_list_key)
              (log_error-Keeps P (inv.take_out user id my_list_key)))
            (pure-Keeps P _))))

  pub remove_issue-Keeps : (user id : String) → Keeps P (remove_issue user id)
  unfolding remove_issue
  remove_issue-Keeps user id =
      bind-Keeps P (get_issue_list_and_reference-Keeps P inv user id) (λ found.
        option-Keeps P found.1 (pure-Keeps P _) (λ (ir, n).
          then-Keeps P (inv.take_out user id found.0) (
            bind-Keeps P (attempt-Keeps P (get_and_remove_issue-Keeps P inv id)) (λ issue.
              if-Keeps P (str_eq ir.foreign_user_id "") (pure-Keeps P _) (
                bind-Keeps P
                  (get_issue_list_and_reference-Keeps P inv ir.foreign_user_id ir.foreign_issue_id)
                  (λ foreign.
                    clean_foreign-Keeps foreign.0 ir issue
                      (λ i other. (i, other, str_eq foreign.0 out_list_key, found.0))))))))

  pub pop_issue-Keeps : (user : String) → Keeps P (pop_issue user)
  unfolding pop_issue
  pop_issue-Keeps user = bind-Keeps P (inv.pop user my_list_key) (λ ir.
      bind-Keeps P (attempt-Keeps P (get_and_remove_issue-Keeps P inv ir.issue_id))
        (λ issue. clean_foreign-Keeps out_list_key ir issue (λ i other. (i, other))))

  pub bump_issue-Keeps : (user id : String) → Keeps P (bump_issue user id)
  unfolding bump_issue
  bump_issue-Keeps user id = bind-Keeps P (inv.find user id out_list_key) (λ found.
      then-Keeps P (inv.bump found.0.foreign_user_id found.0.foreign_issue_id in_list_key) (
        bind-Keeps P (attempt-Keeps P (inv.get found.0.foreign_issue_id))
          (λ issue. pure-Keeps P _)))
