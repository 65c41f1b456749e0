-- ===== src/ListManager/Removing.antt =====
-- Removing an issue that was sent: server/list.go.
use mathlib.Core.List.{append-nil}
use okrbest_plugin_todo.Common.{
  String, suc, false, none, some, List, [], ◌++◌, ◌≡◌, ◌≢◌, refl, sym, str_eq, eq_iff, arith,
}
use okrbest_plugin_todo.ListStore.{IssueRef, ok}
use okrbest_plugin_todo.ListStore.Bumping.{IsOther}
use okrbest_plugin_todo.ListStore.Sequential.{new_ref}
use okrbest_plugin_todo.Db.{
  Issue, Db, refs, put_issue, put_list, my_list_key, out_list_key, in_list_key,
}
use okrbest_plugin_todo.Db.Laws.{get_and_remove_issue-ok}
use okrbest_plugin_todo.Db.Places.{At, Without, sent-At, received-At, removed-At}
use okrbest_plugin_todo.ListManager.{send_issue, remove_issue}
use okrbest_plugin_todo.ListManager.Sending.{issue_of, sent, send_lem}
use okrbest_plugin_todo.ListManager.Restoring.{IsUnused, Same, put_issue-undone, All-put_list}
use okrbest_plugin_todo.ListManager.Completing.{without}
use okrbest_plugin_todo.ListManager.Returning.{sent-in, sent-out, sent-Without_out}

-- While the host does not fail, removing an issue that was sent and that the receiver still has in
-- the inbox takes the reference out of the list of sent issues and the receiver's out of the inbox,
-- and deletes both issues. The other references keep their order, and nothing else changes. It
-- returns the receiver's issue, the receiver, that this one is not the sender, and the key of the
-- list of sent issues.
pub remove_issue-sent :
    (db : Db) (user id : String) (front back front' back' : List IssueRef) (ir ir' : IssueRef)
    (issue received : Issue)
    → db.faults ≡ []
    → At db user out_list_key id front ir back
    → Without db user my_list_key id
    → At db ir.foreign_user_id in_list_key ir.foreign_issue_id front' ir' back'
    → Without db ir.foreign_user_id my_list_key ir.foreign_issue_id
    → Without
        (record db { lists = put_list user out_list_key (front ++ back) db.lists })
        ir.foreign_user_id
        out_list_key
        ir.foreign_issue_id
    → ir.foreign_user_id ≢ ""
    → id ≢ ir.foreign_issue_id
    → db.issues id ≡ some issue
    → db.issues ir.foreign_issue_id ≡ some received
    → remove_issue user id db ≡ (
      ok (some received, ir.foreign_user_id, false, out_list_key),
      without db user out_list_key id
          (front ++ back)
          ir.foreign_user_id
          in_list_key
          ir.foreign_issue_id
          (front' ++ back'),
    )
unfolding remove_issue
remove_issue-sent db user id front back front' back' ir ir' issue received h at my at' my' out'
      named apart i r =
    let other = ir.foreign_issue_id in
    let receiver = ir.foreign_user_id in
    let db1 : Db = record db { lists = put_list user out_list_key (front ++ back) db.lists } in
    let db2 : Db = record db1 { issues = put_issue id none db.issues } in
    let db3 : Db = record db2 {
      lists = put_list receiver in_list_key (front' ++ back') db2.lists;
    } in
    let nonempty : str_eq receiver "" ≡ false = ground (arith, eq_iff receiver "", named) in
    let kept : db2.issues other ≡ some received = ground (arith, eq_iff id other, apart, r) in
    rw
      (
        sent-At db h user id front back ir at my,
        removed-At db h user id front back ir out_list_key at,
        get_and_remove_issue-ok db1 h id issue i,
        nonempty,
        received-At db2 h receiver other front' back' ir' at' my' out',
        removed-At db2 h receiver other front' back' ir' in_list_key at',
        get_and_remove_issue-ok db3 h other received kept,
      )
      refl

module _ (db : Db) (sender receiver s r : String) (issue : String → Issue) (us : IsUnused db s)
    (ur : IsUnused db r) (apart : r ≢ s) where
  -- the store after the sender removed the issue
  abbrev undone : Db
  undone =
      without (sent db sender receiver issue s r) sender out_list_key s
        (refs db sender out_list_key ++ []) receiver in_list_key r
        (refs db receiver in_list_key ++ [])

  undone-Same : Same db undone
  undone-Same = (
    (λ id. put_issue-undone db.issues s r (some (issue s)) (some (issue r)) us.0 ur.0 id),
    (λ user list.
        rw (append-nil (refs db receiver in_list_key), append-nil (refs db sender out_list_key))
          (grind (
            arith,
            eq_iff sender user,
            eq_iff receiver user,
            eq_iff out_list_key list,
            eq_iff in_list_key list,
          ))),
  )

  remove_issue-sent_lem :
      db.faults ≡ []
      → receiver ≢ ""
      → remove_issue sender s (sent db sender receiver issue s r)
        ≡ (ok (some (issue r), receiver, false, out_list_key), undone)
  remove_issue-sent_lem h named =
      let after = sent db sender receiver issue s r in
      remove_issue-sent after sender s (refs db sender out_list_key) []
        (refs db receiver in_list_key) [] (new_ref s receiver r) (new_ref r sender s) (issue s)
        (issue r) h (sent-out db sender receiver s r issue us ur apart) (us.1 sender my_list_key)
        (sent-in db sender receiver s r issue us ur apart) (ur.1 receiver my_list_key)
        (All-put_list (IsOther r) after.lists sender out_list_key
          (refs db sender out_list_key ++ []) receiver out_list_key
          (rw (append-nil (refs db sender out_list_key)) (ur.1 sender out_list_key))
          (sent-Without_out db sender receiver s r issue us ur apart))
        named (λ e. apart (sym e)) (ground (arith, apart, eq_iff s s, eq_iff r s))
        (ground (arith, eq_iff r r))

-- While the host does not fail, with two different ids that no issue and no list has, and a
-- receiver whose id is not empty: when an issue is sent and its sender then removes it, the
-- sender is told of the receiver, of the receiver's issue and that the receiver did not send it,
-- and all issues and all lists of all users are as they were before it was sent.
pub remove_issue-send_issue :
    (db : Db) (sender receiver message post_permalink description post_id : String)
    → db.faults ≡ []
    → IsUnused db (db.new_ids db.made)
    → IsUnused db (db.new_ids (suc db.made))
    → db.new_ids (suc db.made) ≢ db.new_ids db.made
    → receiver ≢ ""
    → (let s = db.new_ids db.made in
        let r = db.new_ids (suc db.made) in
        let after = send_issue sender receiver message post_permalink description post_id db in
        let removed = remove_issue sender s after.1 in
        (after.0 ≡ ok r)
        × (removed.0
            ≡ ok (
              some (issue_of db r message post_permalink description post_id),
              receiver,
              false,
              out_list_key,
            ))
        × Same db removed.1)
remove_issue-send_issue db sender receiver message post_permalink description post_id h us ur apart
      named =
    let s = db.new_ids db.made in
    let r = db.new_ids (suc db.made) in
    let issue : String → Issue = λ id. issue_of db id message post_permalink description post_id in
    rw
      (
        send_lem db sender receiver message post_permalink description post_id h
            (us.1 sender out_list_key) (ur.1 receiver in_list_key),
        remove_issue-sent_lem db sender receiver s r issue us ur apart h named,
      )
      (refl, refl, undone-Same db sender receiver s r issue us ur apart)
