-- ===== src/Db/Laws.antt =====
-- What the operations of server/store.go do while the host does not fail.
use okrbest_plugin_todo.Common.{
  String, ℕ, suc, ◌+◌, Option, none, some, List, [], ◌∷◌, ◌++◌, ◌≡◌, refl, ap, ◌∙◌, All, length,
  or_else, eq_iff, arith,
}
use okrbest_plugin_todo.ListStore.{IssueRef, Result, error, ok, add_ref, remove_ref}
use okrbest_plugin_todo.ListStore.Bumping.{IsOther}
use okrbest_plugin_todo.ListStore.Removing.{remove_ref-append, remove_ref-missing}
use okrbest_plugin_todo.ListStore.Sequential.{new_ref, add_ref-new}
use okrbest_plugin_todo.Db.{
  Issue, Db, refs, attempt, put_issue, put_list, kv_call, write_issue, read_issue, save_issue,
  get_issue, remove_issue, get_and_remove_issue, read_list, write_list, get_list, change,
  add_reference, remove_reference, find_ref, found_ref, get_issue_reference,
  get_issue_list_and_reference, my_list_key, out_list_key, in_list_key,
}

find_ref-append :
    (issue : String) (i : ℕ) (front back : List IssueRef) (ir : IssueRef)
    → All (IsOther issue) front
    → ir.issue_id ≡ issue
    → find_ref issue i (front ++ ir ∷ back) ≡ some (ir, i + length front)
unfolding find_ref
find_ref-append issue i [] back ir h e = ground (arith, eq_iff ir.issue_id issue)
find_ref-append issue i (x ∷ front) back ir h e =
    ground (arith, eq_iff x.issue_id issue, h.0, find_ref-append issue (suc i) front back ir h.1 e)

-- The search stops at the first reference of the issue.
pub find_ref-first :
    (issue : String) (front back : List IssueRef) (ir : IssueRef)
    → All (IsOther issue) front
    → ir.issue_id ≡ issue
    → find_ref issue 0 (front ++ ir ∷ back) ≡ some (ir, length front)
find_ref-first issue front back ir h e =
    find_ref-append issue 0 front back ir h e ∙ ap (λ n. some (ir, n)) (omega arith)

find_ref-missing :
    (issue : String) (i : ℕ) (list : List IssueRef)
    → All (IsOther issue) list
    → find_ref issue i list ≡ none
unfolding find_ref
find_ref-missing issue i [] h = refl
find_ref-missing issue i (x ∷ list) h =
    ground (arith, eq_iff x.issue_id issue, h.0, find_ref-missing issue (suc i) list h.1)

found_ref-missing :
    (issue : String) (list : Option (List IssueRef))
    → All (IsOther issue) (or_else list [])
    → (e : String) × (found_ref issue list ≡ error e)
unfolding found_ref
found_ref-missing issue none h = ("cannot load list", refl)
found_ref-missing issue (some list) h =
    ("cannot find issue", rw (found_ref, find_ref-missing issue 0 list h) refl)

module _ (db : Db) (h : db.faults ≡ []) where
  pub kv_call-ok : kv_call db ≡ (ok tt, db)
  unfolding kv_call
  kv_call-ok = rw h refl

  pub save_issue-ok :
      (issue : Issue)
      → save_issue issue db
        ≡ (ok tt, record db { issues = put_issue issue.id (some issue) db.issues })
  unfolding save_issue write_issue
  save_issue-ok issue = rw kv_call-ok refl

  pub remove_issue-ok :
      (id : String)
      → remove_issue id db ≡ (ok tt, record db { issues = put_issue id none db.issues })
  unfolding remove_issue write_issue
  remove_issue-ok id = rw kv_call-ok refl

  pub get_issue-ok :
      (id : String) (issue : Issue) → db.issues id ≡ some issue → get_issue id db ≡ (ok issue, db)
  unfolding get_issue read_issue
  get_issue-ok id issue e = rw (kv_call-ok, read_issue, e) refl

  pub get_and_remove_issue-ok :
      (id : String) (issue : Issue)
      → db.issues id ≡ some issue
      → get_and_remove_issue id db ≡ (ok issue, record db { issues = put_issue id none db.issues })
  unfolding get_and_remove_issue remove_issue write_issue
  get_and_remove_issue-ok id issue e = rw (get_issue-ok id issue e, kv_call-ok) refl

  pub get_and_remove_issue-missing :
      (id : String)
      → db.issues id ≡ none
      → get_and_remove_issue id db ≡ (error "cannot find issue", db)
  unfolding get_and_remove_issue get_issue read_issue
  get_and_remove_issue-missing id e = rw (kv_call-ok, read_issue, e) refl

  pub change-ok :
      {A : Type 0} (user list : String) (f : List IssueRef → Result (A × List IssueRef)) (a : A)
      (list' : List IssueRef)
      → f (refs db user list) ≡ ok (a, list')
      → change user list f db ≡ (ok a, record db { lists = put_list user list list' db.lists })
  unfolding change get_list read_list write_list
  change-ok user list f a list' e = rw (kv_call-ok, e, kv_call-ok) refl

  pub add_reference-ok :
      (user issue list foreign_user foreign_issue : String)
      → All (IsOther issue) (refs db user list)
      → add_reference user issue list foreign_user foreign_issue db ≡ (
        ok tt,
        record db {
          lists =
              put_list user list
                (refs db user list ++ new_ref issue foreign_user foreign_issue ∷ [])
                db.lists;
        },
      )
  unfolding add_reference
  add_reference-ok user issue list foreign_user foreign_issue new =
      change-ok user list (add_ref issue foreign_user foreign_issue) tt
        (refs db user list ++ new_ref issue foreign_user foreign_issue ∷ [])
        (add_ref-new issue foreign_user foreign_issue (refs db user list) new)

  pub remove_reference-ok :
      (user issue list : String) (front back : List IssueRef) (ir : IssueRef)
      → refs db user list ≡ front ++ ir ∷ back
      → All (IsOther issue) front
      → All (IsOther issue) back
      → ir.issue_id ≡ issue
      → remove_reference user issue list db
        ≡ (ok tt, record db { lists = put_list user list (front ++ back) db.lists })
  unfolding remove_reference
  remove_reference-ok user issue list front back ir e f b same =
      change-ok user list (remove_ref issue) tt (front ++ back)
        (ap (remove_ref issue) e ∙ remove_ref-append issue front back ir f b same)

  pub get_issue_reference-found :
      (user issue list : String) (front back : List IssueRef) (ir : IssueRef)
      → db.lists user list ≡ some (front ++ ir ∷ back)
      → All (IsOther issue) front
      → ir.issue_id ≡ issue
      → get_issue_reference user issue list db ≡ (ok (ir, length front), db)
  unfolding get_issue_reference read_list found_ref
  get_issue_reference-found user issue list front back ir e others same =
      rw (kv_call-ok, read_list, e, found_ref, find_ref-first issue front back ir others same) refl

  pub get_issue_reference-missing :
      (user issue list : String)
      → All (IsOther issue) (refs db user list)
      → attempt (get_issue_reference user issue list) db ≡ (ok none, db)
  unfolding get_issue_reference read_list
  get_issue_reference-missing user issue list others =
      let (e, missing) = found_ref-missing issue (db.lists user list) others in
      rw (kv_call-ok, read_list, missing) refl

  -- An operation on a list that gives an error saves nothing.
  pub change-error :
      {A : Type 0} (user list : String) (f : List IssueRef → Result (A × List IssueRef))
      (e : String)
      → f (refs db user list) ≡ error e
      → change user list f db ≡ (error e, db)
  unfolding change get_list read_list
  change-error user list f e h' = rw (kv_call-ok, h') refl

  pub remove_reference-missing :
      (user issue list : String)
      → All (IsOther issue) (refs db user list)
      → remove_reference user issue list db ≡ (error "cannot find issue", db)
  unfolding remove_reference
  remove_reference-missing user issue list others =
      change-error user list (remove_ref issue) "cannot find issue"
        (remove_ref-missing issue (refs db user list) others)

  pub received_lem :
      (user issue : String) (front back : List IssueRef) (ir : IssueRef)
      → All (IsOther issue) (refs db user my_list_key)
      → All (IsOther issue) (refs db user out_list_key)
      → db.lists user in_list_key ≡ some (front ++ ir ∷ back)
      → All (IsOther issue) front
      → ir.issue_id ≡ issue
      → get_issue_list_and_reference user issue db ≡ (ok (in_list_key, some (ir, length front)), db)
  unfolding get_issue_list_and_reference
  received_lem user issue front back ir my out e others same =
      rw
        (
          get_issue_reference-missing user issue my_list_key my,
          get_issue_reference-missing user issue out_list_key out,
          get_issue_reference-found user issue in_list_key front back ir e others same,
        )
        refl
