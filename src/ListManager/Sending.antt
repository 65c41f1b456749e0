-- ===== src/ListManager/Sending.antt =====
-- Sending an issue, and what follows it: server/list.go.
use okrbest_plugin_todo.Common.{String, suc, some, [], ◌∷◌, ◌++◌, ◌≡◌, refl, All}
use okrbest_plugin_todo.ListStore.{ok}
use okrbest_plugin_todo.ListStore.Bumping.{IsOther}
use okrbest_plugin_todo.ListStore.Sequential.{new_ref}
use okrbest_plugin_todo.Db.{
  Issue, Db, refs, put_issue, put_list, new_issue, my_list_key, out_list_key, in_list_key,
}
use okrbest_plugin_todo.Db.Laws.{save_issue-ok, add_reference-ok}
use okrbest_plugin_todo.ListManager.{add_issue, send_issue}

-- an issue with the text of a request
abbrev pub issue_of : Db → String → String → String → String → String → Issue
issue_of db id message post_permalink description post_id = record {
  id = id;
  message = message;
  post_permalink = post_permalink;
  description = description;
  create_at = db.now;
  post_id = post_id;
}

-- While the host does not fail, and with an id that is not yet on the user's own list, an issue
-- that is added is saved, and a reference with no other user is put at the end of the own list.
-- Nothing else changes.
pub add_issue_lem :
    (db : Db) (user message post_permalink description post_id : String)
    → db.faults ≡ []
    → All (IsOther (db.new_ids db.made)) (refs db user my_list_key)
    → (let id = db.new_ids db.made in
        let issue = issue_of db id message post_permalink description post_id in
        add_issue user message post_permalink description post_id db ≡ (
          ok issue,
          record db {
            issues = put_issue id (some issue) db.issues;
            lists =
                put_list user my_list_key
                  (refs db user my_list_key ++ new_ref id "" "" ∷ [])
                  db.lists;
            made = suc db.made;
          },
        ))
unfolding add_issue new_issue
add_issue_lem db user message post_permalink description post_id h new =
    let id = db.new_ids db.made in
    let issue : Issue = issue_of db id message post_permalink description post_id in
    let db1 : Db = record db { made = suc db.made } in
    let db2 : Db = record db1 { issues = put_issue id (some issue) db.issues } in
    rw (save_issue-ok db1 h issue, add_reference-ok db2 h user id my_list_key "" "" new) refl

-- The store once an issue with the id `s` was sent, which the receiver has with the id `r`.
abbrev pub sent : Db → String → String → (String → Issue) → String → String → Db
sent db sender receiver issue s r = record db {
  issues = put_issue r (some (issue r)) (put_issue s (some (issue s)) db.issues);
  lists = put_list receiver in_list_key (refs db receiver in_list_key ++ new_ref r sender s ∷ []) (
      put_list sender out_list_key (refs db sender out_list_key ++ new_ref s receiver r ∷ [])
        db.lists);
  made = suc (suc db.made);
}

-- While the host does not fail, and with ids that are not yet on the two lists, an issue that is
-- sent is saved twice, for the sender and for the receiver. At the end of the sender's list of
-- sent issues and of the receiver's inbox there is then a reference, and each names the other
-- user and the other issue. Nothing else changes.
pub send_lem :
    (db : Db) (sender receiver message post_permalink description post_id : String)
    → db.faults ≡ []
    → All (IsOther (db.new_ids db.made)) (refs db sender out_list_key)
    → All (IsOther (db.new_ids (suc db.made))) (refs db receiver in_list_key)
    → (let s = db.new_ids db.made in
        let r = db.new_ids (suc db.made) in
        send_issue sender receiver message post_permalink description post_id db ≡ (
          ok r,
          sent db sender receiver
              (λ id. issue_of db id message post_permalink description post_id)
              s
              r,
        ))
unfolding send_issue new_issue
send_lem db sender receiver message post_permalink description post_id h out inbox =
    let s = db.new_ids db.made in
    let r = db.new_ids (suc db.made) in
    let issue : String → Issue = λ id. issue_of db id message post_permalink description post_id in
    let db1 : Db = record db { made = suc db.made } in
    let db2 : Db = record db1 {
      issues = put_issue s (some (issue s)) db.issues;
      made = suc (suc db.made);
    } in
    let db3 : Db = record db2 { issues = put_issue r (some (issue r)) db2.issues } in
    let db4 : Db = record db3 {
      lists =
          put_list sender out_list_key (refs db sender out_list_key ++ new_ref s receiver r ∷ [])
            db.lists;
    } in
    rw
      (
        save_issue-ok db1 h (issue s),
        save_issue-ok db2 h (issue r),
        add_reference-ok db3 h sender s out_list_key receiver r out,
        add_reference-ok db4 h receiver r in_list_key sender s inbox,
      )
      refl
