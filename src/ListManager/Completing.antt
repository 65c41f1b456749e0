-- ===== src/ListManager/Completing.antt =====
-- Completing an issue: server/list.go.
use okrbest_plugin_todo.Common.{
  String, false, none, some, List, [], ◌++◌, ◌≡◌, ◌≢◌, refl, str_eq, eq_iff, arith,
}
use okrbest_plugin_todo.ListStore.{IssueRef, ok}
use okrbest_plugin_todo.Db.{
  Issue, Db, refs, refs, put_issue, put_list, my_list_key, out_list_key, in_list_key,
}
use okrbest_plugin_todo.Db.Laws.{get_and_remove_issue-ok, remove_reference-missing}
use okrbest_plugin_todo.Db.Places.{At, Without, sent-At, received-At, removed-At}
use okrbest_plugin_todo.ListManager.{complete_issue}

-- The store without two issues and with shorter lists.
abbrev pub without :
    Db → String → String → String → List IssueRef → String → String → String → List IssueRef → Db
without db user list issue refs other other_list other_issue other_refs = record db {
  issues = put_issue other_issue none (put_issue issue none db.issues);
  lists = put_list other other_list other_refs (put_list user list refs db.lists);
}

-- While the host does not fail, completing a received issue that its sender still has takes the
-- reference out of the inbox and the sender's out of the list of sent issues, and deletes both
-- issues. The other references keep their order, and nothing else changes. It returns the sender's
-- issue, the sender and the inbox's key.
pub complete_issue-received :
    (db : Db) (user id : String) (front back front' back' : List IssueRef) (ir ir' : IssueRef)
    (issue sent : Issue)
    → db.faults ≡ []
    → At db user in_list_key id front ir back
    → Without db user my_list_key id
    → Without db user out_list_key id
    → At db ir.foreign_user_id out_list_key ir.foreign_issue_id front' ir' back'
    → ir.foreign_user_id ≢ ""
    → id ≢ ir.foreign_issue_id
    → db.issues id ≡ some issue
    → db.issues ir.foreign_issue_id ≡ some sent
    → complete_issue user id db ≡ (
      ok (some sent, ir.foreign_user_id, in_list_key),
      without db user in_list_key id
          (front ++ back)
          ir.foreign_user_id
          out_list_key
          ir.foreign_issue_id
          (front' ++ back'),
    )
unfolding complete_issue
complete_issue-received db user id front back front' back' ir ir' issue sent h at my out at' named
      apart i s =
    let sender = ir.foreign_user_id in
    let other = ir.foreign_issue_id in
    let db1 : Db = record db { lists = put_list user in_list_key (front ++ back) db.lists } in
    let db2 : Db = record db1 { issues = put_issue id none db.issues } in
    let db3 : Db = record db2 {
      lists = put_list sender out_list_key (front' ++ back') db2.lists;
    } in
    let nonempty : str_eq sender "" ≡ false = ground (arith, eq_iff sender "", named) in
    let kept : db2.issues other ≡ some sent = ground (arith, eq_iff id other, apart, s) in
    rw
      (
        received-At db h user id front back ir at my out,
        removed-At db h user id front back ir in_list_key at,
        get_and_remove_issue-ok db1 h id issue i,
        nonempty,
        removed-At db2 h sender other front' back' ir' out_list_key at',
        get_and_remove_issue-ok db3 h other sent kept,
      )
      refl

-- While the host does not fail, let the list of sent issues have one reference of an issue and
-- the user's own list none, let the receiver, whose id is not empty, have one reference of the
-- other issue in the inbox and then none in the list of sent issues, and let the two issues be
-- different and stored. The sender can complete the issue: both issues are deleted and the
-- sender's reference is taken out, but the receiver's inbox is as it was, and its reference is of
-- an issue that is not stored.
pub complete_issue-sent :
    (db : Db) (user id : String) (front back front' back' : List IssueRef) (ir ir' : IssueRef)
    (issue received : Issue)
    → db.faults ≡ []
    → At db user out_list_key id front ir back
    → Without db user my_list_key id
    → At db ir.foreign_user_id in_list_key ir.foreign_issue_id front' ir' back'
    → Without
        (record db { lists = put_list user out_list_key (front ++ back) db.lists })
        ir.foreign_user_id
        out_list_key
        ir.foreign_issue_id
    → ir.foreign_user_id ≢ ""
    → id ≢ ir.foreign_issue_id
    → db.issues id ≡ some issue
    → db.issues ir.foreign_issue_id ≡ some received
    → (let after = complete_issue user id db in
        (after.0 ≡ ok (some received, ir.foreign_user_id, out_list_key))
        × (refs after.1 user out_list_key ≡ front ++ back)
        × At after.1 ir.foreign_user_id in_list_key ir.foreign_issue_id front' ir' back'
        × (after.1.issues id ≡ none)
        × (after.1.issues ir.foreign_issue_id ≡ none))
unfolding complete_issue
complete_issue-sent db user id front back front' back' ir ir' issue received h at my at' out' named
      apart i r =
    let sender = ir.foreign_user_id in
    let other = ir.foreign_issue_id in
    let db1 : Db = record db { lists = put_list user out_list_key (front ++ back) db.lists } in
    let db2 : Db = record db1 { issues = put_issue id none db.issues } in
    let nonempty : str_eq sender "" ≡ false = ground (arith, eq_iff sender "", named) in
    let kept : db2.issues other ≡ some received = ground (arith, eq_iff id other, apart, r) in
    rw
      (
        sent-At db h user id front back ir at my,
        removed-At db h user id front back ir out_list_key at,
        get_and_remove_issue-ok db1 h id issue i,
        nonempty,
        remove_reference-missing db2 h sender other out_list_key out',
        get_and_remove_issue-ok db2 h other received kept,
      )
      (
        refl,
        ground (arith, eq_iff user user),
        at',
        ground (arith, eq_iff id id),
        ground (arith, eq_iff other other),
      )
