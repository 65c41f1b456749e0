-- ===== src/Db/Reads.antt =====
-- Reading changes nothing while the host does not fail: server/store.go.
use okrbest_plugin_todo.Common.{
  String, Bool, true, false, Option, none, some, List, [], arith, Option-cases, inl, inr, ◌≡◌, refl,
  is_some, if◌then◌else◌,
}
use okrbest_plugin_todo.ListStore.{IssueRef, Result, error, panic, is_panic, ok}
use okrbest_plugin_todo.Db.{
  Issue, Db, refs, M, pure, tried, chosen, attempt, read_issue, read_list, found_ref, find_ref,
  get_issue, get_list, get_issue_reference, get_issue_list_and_reference, my_list_key, out_list_key,
  in_list_key,
}
use okrbest_plugin_todo.Db.Laws.{kv_call-ok}

-- The operation gives a value, and the store stays as it is.
abbrev pub Reads : {A : Type 0} → M A → Db → Type 0
Reads {A} m db = (a : A) × (m db ≡ (ok a, db))

if-Reads :
    {A : Type 0} (db : Db) (b : Bool) (m k : M A)
    → Reads m db
    → Reads k db
    → Reads (if b then m else k) db
if-Reads db true m k hm hk = hm
if-Reads db false m k hm hk = hk

tried-Reads :
    {A : Type 0} (r : Result A) (db : Db)
    → is_panic r ≡ false
    → (a : Option A) × (tried (r, db) ≡ (ok a, db))
tried-Reads (error e) db c = (none, refl)
tried-Reads panic db c = ground (arith, c)
tried-Reads (ok a) db c = (some a, refl)

pub found_ref-calm :
    (issue : String) (list : Option (List IssueRef)) → is_panic (found_ref issue list) ≡ false
unfolding found_ref
found_ref-calm issue none = refl
found_ref-calm issue (some list) = elim (Option-cases (find_ref issue 0 list)) [
  | inl e ↦ rw (is_panic, e) refl
  | inr (r, e) ↦ rw (is_panic, e) refl
]

module _ (db : Db) (h : db.faults ≡ []) where
  pub get_issue-reads : (id : String) → attempt (get_issue id) db ≡ (ok (db.issues id), db)
  unfolding get_issue read_issue
  get_issue-reads id = rw (kv_call-ok db h) (by (db.issues id))
    where
      by :
          (o : Option Issue)
          → tried (elim o as (λ _. Result Issue × Db) [
            | none ↦ (error "cannot find issue", db)
            | some issue ↦ (ok issue, db)
          ])
            ≡ (ok o, db)
      by none = refl
      by (some i) = refl

  pub get_list-reads : (user list : String) → get_list user list db ≡ (ok (refs db user list), db)
  unfolding get_list read_list
  get_list-reads user list = rw (kv_call-ok db h) refl

  look : (user issue list : String) → Reads (attempt (get_issue_reference user issue list)) db
  unfolding get_issue_reference read_list
  look user issue list = rw (kv_call-ok db h) (
      tried-Reads (found_ref issue (db.lists user list)) db
        (found_ref-calm issue (db.lists user list)))

  pub get_issue_list_and_reference-Reads :
      (user issue : String) → Reads (get_issue_list_and_reference user issue) db
  unfolding get_issue_list_and_reference
  get_issue_list_and_reference-Reads user issue =
      let (my, e) = look user issue my_list_key in
      let (out, f) =
        if-Reads db (is_some my) (pure none) (attempt (get_issue_reference user issue out_list_key))
          (none, refl) (look user issue out_list_key) in
      let (inbox, g) =
        if-Reads db (is_some my) (pure none)
          (if is_some out then pure none else attempt (get_issue_reference user issue in_list_key))
          (none, refl)
          (if-Reads db (is_some out) (pure none)
            (attempt (get_issue_reference user issue in_list_key)) (none, refl)
            (look user issue in_list_key)) in
      rw (e, f, g) (chosen my out inbox, refl)
