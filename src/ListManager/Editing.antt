-- ===== src/ListManager/Editing.antt =====
-- Editing an issue that was sent: `EditIssue` of server/list.go.
use okrbest_plugin_todo.Common.{
  String, false, some, List, [], ◌≡◌, ◌≢◌, refl, str_eq, eq_iff, arith,
}
use okrbest_plugin_todo.ListStore.{IssueRef, ok}
use okrbest_plugin_todo.Db.{Issue, Db, put_issue, my_list_key, out_list_key, in_list_key}
use okrbest_plugin_todo.Db.Laws.{get_issue-ok, save_issue-ok}
use okrbest_plugin_todo.Db.Places.{At, Without, received-At}
use okrbest_plugin_todo.ListManager.{edit_issue, edited}

-- While the host does not fail, let the inbox have one reference of an issue and the user's two
-- other lists none, and let it and the sender's issue be stored under their ids, the latter's not
-- empty. Editing it gives both issues the new message and description. Their other fields, all
-- other issues and all lists are as before. It returns the sender, the inbox's key and the
-- message that the sender's issue had.
pub edit_issue-received :
    (db : Db) (user id message description : String) (front back : List IssueRef) (ir : IssueRef)
    (issue sent : Issue)
    → db.faults ≡ []
    → At db user in_list_key id front ir back
    → Without db user my_list_key id
    → Without db user out_list_key id
    → ir.foreign_issue_id ≢ ""
    → db.issues id ≡ some issue
    → db.issues ir.foreign_issue_id ≡ some sent
    → issue.id ≡ id
    → sent.id ≡ ir.foreign_issue_id
    → edit_issue user id message description db ≡ (
      ok (ir.foreign_user_id, in_list_key, sent.message),
      record db {
        issues =
            put_issue id
              (some (edited message description issue))
              (put_issue ir.foreign_issue_id (some (edited message description sent)) db.issues);
      },
    )
unfolding edit_issue
edit_issue-received db user id message description front back ir issue sent h at my out named i s
      own other =
    let nonempty : str_eq ir.foreign_issue_id "" ≡ false =
      ground (arith, eq_iff ir.foreign_issue_id "", named) in
    let db1 : Db = record db {
      issues = put_issue sent.id (some (edited message description sent)) db.issues;
    } in
    rw
      (
        get_issue-ok db h id issue i,
        received-At db h user id front back ir at my out,
        nonempty,
        get_issue-ok db h ir.foreign_issue_id sent s,
        save_issue-ok db h (edited message description sent),
        save_issue-ok db1 h (edited message description issue),
        own,
        other,
      )
      refl
