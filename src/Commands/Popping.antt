-- ===== src/Commands/Popping.antt =====
-- What `/todo pop` does: `runPopCommand` of server/command.go.
use okrbest_plugin_todo.Common.{
  String, ℕ, true, false, Option, none, some, List, [], ◌∷◌, ◌++◌, ◌≡◌, ◌≢◌, refl, ◌∙◌, ap, map,
  concat, str_eq, eq_iff, arith,
}
use okrbest_plugin_todo.ListStore.{IssueRef, ok, pop_ref}
use okrbest_plugin_todo.Db.{
  Db, Issue, refs, pop_reference, put_list, put_issue, my_list_key, out_list_key,
}
use okrbest_plugin_todo.Db.Laws.{
  change-ok, change-error, get_and_remove_issue-ok, get_and_remove_issue-missing,
  remove_reference-missing,
}
use okrbest_plugin_todo.Db.Places.{Without}
use okrbest_plugin_todo.ListManager.{pop_issue}
use okrbest_plugin_todo.ListManager.Reading.{ExtendedIssue}
use okrbest_plugin_todo.ListManager.Showing.{stored, get_issue_list-reads}
use okrbest_plugin_todo.Handlers.{refresh, said_by, reply_if_needed}
use okrbest_plugin_todo.Commands.Handling.{
  CommandArgs, panicking, finished, respond, post_command_response,
}
use okrbest_plugin_todo.Commands.Texts.{issues_list_to_string}
use okrbest_plugin_todo.Commands.Lists.{with_list, run_pop_command}

module _ (username : String → Option String) (format_date : ℕ → String) (extra : CommandArgs)
    (db : Db) (h : db.faults ≡ []) where
  -- While the host does not fail, `/todo pop` on an own list without references answers that there
  -- is nothing to pop, tells nobody else, and changes nothing.
  pub run_pop_command-empty :
      refs db extra.user_id my_list_key ≡ []
      → run_pop_command username format_date extra db
        ≡ (respond extra "There are no Todos to pop.", db)
  unfolding run_pop_command pop_issue pop_reference pop_ref
  run_pop_command-empty e =
      rw (change-error db h extra.user_id my_list_key pop_ref "cannot find issue" (rw e refl)) refl

  module _ (ir : IssueRef) (back : List IssueRef)
      (e : refs db extra.user_id my_list_key ≡ ir ∷ back) where
    pop_reference-ok :
        pop_reference extra.user_id my_list_key db
        ≡ (ok ir, record db { lists = put_list extra.user_id my_list_key back db.lists })
    unfolding pop_reference pop_ref
    pop_reference-ok = change-ok db h extra.user_id my_list_key pop_ref ir back (ap pop_ref e)

    -- While the host does not fail, let the first reference on the own list be of an issue that is
    -- not stored, and let it name a sender who has no reference of the other issue in the list of
    -- sent issues, which is not stored either. `/todo pop` then panics. The reference is gone, the
    -- sender's web app is told to refresh that list, and the user is told nothing.
    pub run_pop_command-panics :
        ir.foreign_user_id ≢ ""
        → (let popped_db : Db = record db {
          lists = put_list extra.user_id my_list_key back db.lists;
        } in
            Without popped_db ir.foreign_user_id out_list_key ir.foreign_issue_id)
        → db.issues ir.issue_id ≡ none
        → db.issues ir.foreign_issue_id ≡ none
        → run_pop_command username format_date extra db ≡ (
          panicking (refresh ir.foreign_user_id (out_list_key ∷ []) ∷ []),
          record db { lists = put_list extra.user_id my_list_key back db.lists },
        )
    unfolding run_pop_command pop_issue
    run_pop_command-panics named without i j =
        let db1 : Db = record db { lists = put_list extra.user_id my_list_key back db.lists } in
        let nonempty : str_eq ir.foreign_user_id "" ≡ false =
          ground (arith, eq_iff ir.foreign_user_id "", named) in
        rw
          (
            pop_reference-ok,
            get_and_remove_issue-missing db1 h ir.issue_id i,
            nonempty,
            remove_reference-missing db1 h ir.foreign_user_id ir.foreign_issue_id out_list_key
                without,
            get_and_remove_issue-missing db1 h ir.foreign_issue_id j,
          )
          (rw nonempty refl)

    -- While the host does not fail, let the first reference on the own list name no other user, and
    -- let its issue be stored. `/todo pop` takes the reference off, deletes the issue and changes
    -- nothing else. It tells the user's web app, replies to the post of the issue, if there is one,
    -- and answers with the issues that are left on the list, those of the other references that are
    -- stored after the deletion, in their order.
    pub run_pop_command_lem :
        (issue : Issue)
        → ir.foreign_user_id ≡ ""
        → db.issues ir.issue_id ≡ some issue
        → (let after : Db = record db {
          lists = put_list extra.user_id my_list_key back db.lists;
          issues = put_issue ir.issue_id none db.issues;
        } in
            (left : List ExtendedIssue) × (map (λ (i : ExtendedIssue). i.issue) left
              ≡ stored after back)
            × (run_pop_command username format_date extra db ≡ (
              finished (
                  refresh extra.user_id (my_list_key ∷ [])
                    ∷ reply_if_needed issue.post_id
                        (said_by username extra.user_id " popped a todo attached to this thread")
                        issue
                  ++ (post_command_response extra (
                        concat (
                          "Removed top Todo."
                          ∷ " Todo List:\n\n"
                          ∷ issues_list_to_string format_date left
                          ∷ []))
                      ∷ [])),
              after,
            )))
    unfolding run_pop_command pop_issue with_list
    run_pop_command_lem issue own i =
        let db1 : Db = record db { lists = put_list extra.user_id my_list_key back db.lists } in
        let after : Db = record db1 { issues = put_issue ir.issue_id none db.issues } in
        let (left, reads, shown) =
          get_issue_list-reads username after h extra.user_id my_list_key in
        let same : str_eq extra.user_id extra.user_id ≡ true =
          (eq_iff extra.user_id extra.user_id).1 refl in
        let rest : refs after extra.user_id my_list_key ≡ back = rw same refl in
        (
          left,
          shown ∙ ap (stored after) rest,
          rw (pop_reference-ok, get_and_remove_issue-ok db1 h ir.issue_id issue i, own, reads) refl,
        )
