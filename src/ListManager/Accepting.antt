-- ===== src/ListManager/Accepting.antt =====
-- Accepting an issue: server/list.go.
use mathlib.Core.List.{append-nil}
use okrbest_plugin_todo.Common.{
  String, ℕ, zero, suc, ◌<◌, true, some, List, [], ◌∷◌, ◌++◌, ◌≡◌, refl, ap, ◌∙◌, length, or_else,
  str_eq, eq_iff, arith,
}
use okrbest_plugin_todo.ListStore.{IssueRef, error, ok, add_ref, remove_ref}
use okrbest_plugin_todo.ListStore.Removing.{remove_ref-append}
use okrbest_plugin_todo.ListStore.Sequential.{new_ref, add_ref-new}
use okrbest_plugin_todo.Db.{
  Issue, Db, refs, put_list, my_list_key, in_list_key, find_ref, read_issue, read_list, found_ref,
}
use okrbest_plugin_todo.Db.Laws.{get_issue-ok, add_reference-ok, find_ref-first}
use okrbest_plugin_todo.Db.Places.{At, Without, found-At, removed-At}
use okrbest_plugin_todo.ListManager.{accept_issue, with_permalink}
use okrbest_plugin_todo.ListManager.Restoring.{Same}
use okrbest_plugin_todo.ListManager.Failing.{failing}

-- While the host does not fail, accepting a stored issue that the inbox has one reference of, and
-- the user's own list none, takes the reference out of the inbox and puts one with the same
-- sender and the sender's issue at the end of the user's own list. Nothing else changes. It
-- returns the message, with the permalink if there is one, and the sender.
pub accept_issue-received :
    (db : Db) (user id : String) (front back : List IssueRef) (ir : IssueRef) (issue : Issue)
    → db.faults ≡ []
    → At db user in_list_key id front ir back
    → Without db user my_list_key id
    → db.issues id ≡ some issue
    → accept_issue user id db ≡ (
      ok (with_permalink issue, ir.foreign_user_id),
      record db {
        lists = put_list user in_list_key (front ++ back) (
            put_list user my_list_key
              (refs db user my_list_key ++ new_ref id ir.foreign_user_id ir.foreign_issue_id ∷ [])
              db.lists);
      },
    )
unfolding accept_issue
accept_issue-received db user id front back ir issue h at my i =
    let ref = new_ref id ir.foreign_user_id ir.foreign_issue_id in
    let db1 : Db = record db {
      lists = put_list user my_list_key (refs db user my_list_key ++ ref ∷ []) db.lists;
    } in
    rw
      (
        get_issue-ok db h id issue i,
        found-At db h user id front back ir in_list_key at,
        add_reference-ok db h user id my_list_key ir.foreign_user_id ir.foreign_issue_id my,
        removed-At db1 h user id front back ir in_list_key at,
      )
      refl

-- Accepting gives the host's error when the call after `n` others fails, and changes nothing.
abbrev pub AcceptAtomic : Db → String → String → ℕ → Type 0
AcceptAtomic db user id n =
    let after = accept_issue user id (failing n db) in (after.0 ≡ error "KV") × Same db after.1

module _ (db : Db) (user id : String) (front back : List IssueRef) (ir : IssueRef) (issue : Issue)
    (at : At db user in_list_key id front ir back) (my : Without db user my_list_key id)
    (i : db.issues id ≡ some issue) where
  -- the user's own list with the issue
  abbrev accepted : List IssueRef
  accepted = refs db user my_list_key ++ new_ref id ir.foreign_user_id ir.foreign_issue_id ∷ []

  added :
      add_ref id ir.foreign_user_id ir.foreign_issue_id (refs db user my_list_key)
      ≡ ok (tt, accepted)
  added = add_ref-new id ir.foreign_user_id ir.foreign_issue_id (refs db user my_list_key) my

  removed : remove_ref id accepted ≡ ok (tt, refs db user my_list_key)
  removed =
      remove_ref-append id (refs db user my_list_key) []
        (new_ref id ir.foreign_user_id ir.foreign_issue_id) my tt refl
      ∙ ap (λ l. ok (tt, l)) (append-nil (refs db user my_list_key))

  taken : remove_ref id (front ++ ir ∷ back) ≡ ok (tt, front ++ back)
  taken = remove_ref-append id front back ir at.2 at.3 at.1

  found : find_ref id 0 (front ++ ir ∷ back) ≡ some (ir, length front)
  found = find_ref-first id front back ir at.2 at.1

  same_user : str_eq user user ≡ true
  same_user = (eq_iff user user).1 refl

  unchanged : Same db db
  unchanged = ((λ id. refl), λ u l. refl)

  back_again :
      (u l : String)
      → or_else
          (put_list user my_list_key
            (refs db user my_list_key)
            (put_list user my_list_key accepted db.lists)
            u
            l)
          []
        ≡ refs db u l
  back_again u l = grind (arith, eq_iff user u, eq_iff my_list_key l)

  accept0 : AcceptAtomic db user id 0
  unfolding accept_issue
  accept0 = (refl, unchanged)

  accept1 : AcceptAtomic db user id 1
  unfolding accept_issue
  accept1 = rw (read_issue, i) (refl, unchanged)

  accept2 : AcceptAtomic db user id 2
  unfolding accept_issue
  accept2 = rw (read_issue, i, read_list, at.0, found_ref, found) (refl, unchanged)

  accept3 : AcceptAtomic db user id 3
  unfolding accept_issue
  accept3 = rw (read_issue, i, read_list, at.0, found_ref, found, added) (refl, unchanged)

  accept4 : AcceptAtomic db user id 4
  unfolding accept_issue
  accept4 =
      rw (read_issue, i, read_list, at.0, found_ref, found, added, same_user, removed)
        (refl, ((λ id. refl), back_again))

  accept5 : AcceptAtomic db user id 5
  unfolding accept_issue
  accept5 =
      rw (read_issue, i, read_list, at.0, found_ref, found, added, at.0, taken, same_user, removed)
        (refl, ((λ id. refl), back_again))

-- When exactly one of the six calls that it makes of the host fails, accepting a stored issue
-- that the inbox has one reference of, and the user's own list none, gives the host's error, and
-- all issues and all lists of all users are as they were.
pub accept_issue-failing :
    (db : Db) (user id : String) (front back : List IssueRef) (ir : IssueRef) (issue : Issue)
    → At db user in_list_key id front ir back
    → Without db user my_list_key id
    → db.issues id ≡ some issue
    → (n : ℕ) → n < 6
    → AcceptAtomic db user id n
accept_issue-failing db user id front back ir issue at my i zero h =
    accept0 db user id front back ir issue at my i
accept_issue-failing db user id front back ir issue at my i (suc zero) h =
    accept1 db user id front back ir issue at my i
accept_issue-failing db user id front back ir issue at my i (suc (suc zero)) h =
    accept2 db user id front back ir issue at my i
accept_issue-failing db user id front back ir issue at my i (suc (suc (suc zero))) h =
    accept3 db user id front back ir issue at my i
accept_issue-failing db user id front back ir issue at my i (suc (suc (suc (suc zero)))) h =
    accept4 db user id front back ir issue at my i
accept_issue-failing db user id front back ir issue at my i (suc (suc (suc (suc (suc zero))))) h =
    accept5 db user id front back ir issue at my i
accept_issue-failing db user id front back ir issue at my i (suc (suc (suc (suc (suc (suc n))))))
      h =
    ground arith
