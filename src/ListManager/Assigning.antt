-- ===== src/ListManager/Assigning.antt =====
-- Giving an own issue to somebody: `ChangeAssignment` of server/list.go.
use okrbest_plugin_todo.Common.{
  String, suc, true, false, some, List, [], ◌∷◌, ◌++◌, ◌≡◌, ◌≢◌, refl, length, str_eq, eq_iff,
  arith,
}
use okrbest_plugin_todo.ListStore.{IssueRef, ok, error, remove_ref}
use okrbest_plugin_todo.ListStore.Removing.{remove_ref-append}
use okrbest_plugin_todo.ListStore.Sequential.{new_ref}
use okrbest_plugin_todo.Db.{
  Issue, Db, refs, put_issue, put_list, my_list_key, out_list_key, in_list_key, find_ref,
  read_issue, read_list, found_ref,
}
use okrbest_plugin_todo.Db.Laws.{find_ref-first, get_issue-ok, save_issue-ok, add_reference-ok}
use okrbest_plugin_todo.Db.Places.{At, Without, own-At, removed-At}
use okrbest_plugin_todo.ListManager.{change_assignment}
use okrbest_plugin_todo.ListManager.Sending.{issue_of}
use okrbest_plugin_todo.ListManager.Failing.{failing}

-- the store with an issue of the user that the receiver has as the issue `r`
abbrev pub given : Db → String → String → String → String → Issue → Db
given db user receiver id r issue = record db {
  issues = put_issue r (some issue) db.issues;
  lists = put_list receiver in_list_key (refs db receiver in_list_key ++ new_ref r user id ∷ []) (
      put_list user out_list_key (refs db user out_list_key ++ new_ref id receiver r ∷ [])
        db.lists);
  made = suc db.made;
}

module _ (db : Db) (user send_to id : String) (front back : List IssueRef) (ir : IssueRef)
    (issue : Issue) (h : db.faults ≡ []) (at : At db user my_list_key id front ir back)
    (own : (ir.foreign_user_id ≡ "") × (ir.foreign_issue_id ≡ "")) (i : db.issues id ≡ some issue)
    (named : issue.id ≡ id) (out : Without db user out_list_key id)
    (inbox : Without db send_to in_list_key (db.new_ids db.made)) where
  abbrev r : String
  r = db.new_ids db.made

  abbrev received : Issue
  received = issue_of db r issue.message issue.post_permalink issue.description issue.post_id

  -- Let an issue be stored under its id, let the user's own list have one reference of it, with
  -- no other user, and the list of sent issues none, and let the receiver's inbox be without the
  -- id that is made next. While the host does not fail, giving the issue to another user takes
  -- its reference out of the own list, saves a copy for the receiver under the new id, and puts a
  -- reference at the end of the list of sent issues and of the receiver's inbox. Each names the
  -- other user and the other issue. Nothing else changes.
  pub change_assignment_other :
      user ≢ send_to
      → change_assignment id user send_to db ≡ (
        ok (issue, ""),
        given
            (record db { lists = put_list user my_list_key (front ++ back) db.lists })
            user
            send_to
            id
            r
            received,
      )
  unfolding change_assignment
  change_assignment_other other =
      let apart : str_eq user send_to ≡ false = ground (arith, eq_iff user send_to, other) in
      let db1 : Db = record db { lists = put_list user my_list_key (front ++ back) db.lists } in
      let db2 : Db = record db1 { made = suc db.made } in
      let db3 : Db = record db2 { issues = put_issue r (some received) db.issues } in
      let db4 : Db = record db3 {
        lists =
            put_list user out_list_key (refs db user out_list_key ++ new_ref id send_to r ∷ [])
              db1.lists;
      } in
      rw
        (
          get_issue-ok db h id issue i,
          own-At db h user id front back ir at,
          own.0,
          own.1,
          apart,
          removed-At db h user id front back ir my_list_key at,
          save_issue-ok db2 h received,
          add_reference-ok db3 h user id out_list_key send_to r out,
          named,
          add_reference-ok db4 h send_to r in_list_key user id inbox,
        )
        refl

  -- Let an issue be stored under its id, let the user's own list have one reference of it, with
  -- no other user, and the list of sent issues none, and let the user's inbox be without the id
  -- that is made next. While the host does not fail, a user who gives the issue to themself keeps
  -- it on the own list, and has it in the list of sent issues as well, and a copy of it in the
  -- inbox.
  pub change_assignment_self :
      user ≡ send_to
      → change_assignment id user send_to db ≡ (ok (issue, ""), given db user send_to id r received)
  unfolding change_assignment
  change_assignment_self same =
      let equal : str_eq user send_to ≡ true = (eq_iff user send_to).1 same in
      let db2 : Db = record db { made = suc db.made } in
      let db3 : Db = record db2 { issues = put_issue r (some received) db.issues } in
      let db4 : Db = record db3 {
        lists =
            put_list user out_list_key (refs db user out_list_key ++ new_ref id send_to r ∷ [])
              db.lists;
      } in
      rw
        (
          get_issue-ok db h id issue i,
          own-At db h user id front back ir at,
          own.0,
          own.1,
          equal,
          save_issue-ok db2 h received,
          add_reference-ok db3 h user id out_list_key send_to r out,
          named,
          add_reference-ok db4 h send_to r in_list_key user id inbox,
        )
        refl

-- Let an issue be stored, and let the user's own list have one reference of it, with no other
-- user. When it is given to another user and of the calls of the host only the one that saves the
-- copy fails, the host's error is returned and the issue is still stored, but the own list is
-- without it, and all other lists are as they were.
pub change_assignment-failing :
    (db : Db) (user send_to id : String) (front back : List IssueRef) (ir : IssueRef)
    (issue : Issue)
    → At db user my_list_key id front ir back
    → ir.foreign_user_id ≡ ""
    → ir.foreign_issue_id ≡ ""
    → db.issues id ≡ some issue
    → user ≢ send_to
    → (let after = change_assignment id user send_to (failing 4 db) in
        (after.0 ≡ error "KV")
        × (after.1.issues id ≡ some issue)
        × (refs after.1 user my_list_key ≡ front ++ back)
        × ((u l : String) → l ≢ my_list_key → refs after.1 u l ≡ refs db u l))
unfolding change_assignment
change_assignment-failing db user send_to id front back ir issue at no_user no_issue i other =
    let apart : str_eq user send_to ≡ false = ground (arith, eq_iff user send_to, other) in
    let found : find_ref id 0 (front ++ ir ∷ back) ≡ some (ir, length front) =
      find_ref-first id front back ir at.2 at.1 in
    let taken : remove_ref id (front ++ ir ∷ back) ≡ ok (tt, front ++ back) =
      remove_ref-append id front back ir at.2 at.3 at.1 in
    rw (read_issue, i, read_list, at.0, found_ref, found, no_user, no_issue, apart, at.0, taken)
      (
        refl,
        i,
        ground (arith, eq_iff user user),
        (λ u l k. ground (arith, k, eq_iff my_list_key l)),
      )
