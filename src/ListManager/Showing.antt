-- ===== src/ListManager/Showing.antt =====
-- What the web app is told of a list: `GetIssueList` of server/list.go.
use okrbest_plugin_todo.Common.{
  String, Bool, true, false, Option, none, some, List, [], ◌∷◌, ◌≡◌, refl, map, str_eq,
  if◌then◌else◌,
}
use okrbest_plugin_todo.ListStore.{IssueRef, ok}
use okrbest_plugin_todo.Db.{
  Issue, Db, refs, pure, ◌>>=◌, attempt, get_issue, get_issue_list_and_reference,
}
use okrbest_plugin_todo.Db.Reads.{
  get_issue-reads, get_list-reads, get_issue_list_and_reference-Reads,
}
use okrbest_plugin_todo.ListManager.Reading.{
  ExtendedIssue, extended, extend_issue_info, extend_all, get_issue_list,
}

-- The stored issues of some references, in their order.
abbrev pub stored : Db → List IssueRef → List Issue
stored db [] = []
stored db (ir ∷ irs) = elim (db.issues ir.issue_id) [
  | none ↦ stored db irs
  | some issue ↦ issue ∷ stored db irs
]

module _ (username : String → Option String) (db : Db) (h : db.faults ≡ []) where
  extend_issue_info-reads :
      (issue : Issue) (ir : IssueRef)
      → (e : ExtendedIssue) × (extend_issue_info username issue ir db ≡ (ok e, db))
        × (e.issue ≡ issue)
  unfolding extend_issue_info extended
  extend_issue_info-reads issue ir = by (str_eq ir.foreign_user_id "")
    where
      alone : ExtendedIssue
      alone = record { issue = issue; foreign_user = ""; foreign_list = ""; foreign_position = 0 }

      by :
          (b : Bool)
          → (e : ExtendedIssue) × ((if b
                  then pure alone
                  else (get_issue_list_and_reference ir.foreign_user_id ir.foreign_issue_id
                      >>= λ found. pure (extended username issue ir found)))
                db
              ≡ (ok e, db))
            × (e.issue ≡ issue)
      by true = (alone, refl, refl)
      by false =
          let (found, e) =
            get_issue_list_and_reference-Reads db h ir.foreign_user_id ir.foreign_issue_id in
          rw e (extended username issue ir found, refl, refl)

  extend_all-reads :
      (irs : List IssueRef)
      → (es : List ExtendedIssue) × (extend_all username irs db ≡ (ok es, db))
        × (map (λ (e : ExtendedIssue). e.issue) es ≡ stored db irs)
  unfolding extend_all
  extend_all-reads [] = ([], refl, refl)
  extend_all-reads (ir ∷ irs) =
      let (es, e, m) = extend_all-reads irs in
      by es e m (db.issues ir.issue_id) (get_issue-reads db h ir.issue_id)
    where
      by :
          (es : List ExtendedIssue)
          → extend_all username irs db ≡ (ok es, db)
          → map (λ (e : ExtendedIssue). e.issue) es ≡ stored db irs
          → (o : Option Issue) → attempt (get_issue ir.issue_id) db ≡ (ok o, db)
          → (es' : List ExtendedIssue) × (extend_all username (ir ∷ irs) db ≡ (ok es', db))
            × (map (λ (e : ExtendedIssue). e.issue) es' ≡ elim o as (λ _. List Issue) [
              | none ↦ stored db irs
              | some issue ↦ issue ∷ stored db irs
            ])
      by es e m none g = rw (g, e) (es, refl, m)
      by es e m (some issue) g =
          let (x, f, k) = extend_issue_info-reads issue ir in
          rw (g, f, e) (x ∷ es, refl, rw (k, m) refl)

  -- While the host does not fail, a list is read as it is stored: the issues of its references, in
  -- their order, without the references whose issue is not stored. Reading changes nothing.
  pub get_issue_list-reads :
      (user list : String)
      → (es : List ExtendedIssue) × (get_issue_list username user list db ≡ (ok es, db))
        × (map (λ (e : ExtendedIssue). e.issue) es ≡ stored db (refs db user list))
  unfolding get_issue_list
  get_issue_list-reads user list =
      let (es, e, m) = extend_all-reads (refs db user list) in
      (es, rw (get_list-reads db h user list) e, m)
