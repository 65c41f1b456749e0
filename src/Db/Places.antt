-- ===== src/Db/Places.antt =====
-- Where the reference of an issue is, and what the operations of server/store.go make of that while
-- the host does not fail.
use okrbest_plugin_todo.Common.{
  String, some, List, [], ◌∷◌, ◌++◌, ◌≡◌, refl, ap, All, length, or_else,
}
use okrbest_plugin_todo.ListStore.{IssueRef, ok}
use okrbest_plugin_todo.ListStore.Bumping.{IsOther}
use okrbest_plugin_todo.Db.{
  Db, refs, put_list, remove_reference, get_issue_reference, get_issue_list_and_reference,
  my_list_key, out_list_key, in_list_key,
}
use okrbest_plugin_todo.Db.Laws.{
  received_lem, get_issue_reference-missing, get_issue_reference-found, remove_reference-ok,
}

-- The list has a reference of the issue between two parts without the issue.
abbrev pub At : Db → String → String → String → List IssueRef → IssueRef → List IssueRef → Type 0
At db user list issue front ir back =
    (db.lists user list ≡ some (front ++ ir ∷ back))
    × (ir.issue_id ≡ issue)
    × All (IsOther issue) front
    × All (IsOther issue) back

-- The list has no reference of the issue.
abbrev pub Without : Db → String → String → String → Type 0
Without db user list issue = All (IsOther issue) (refs db user list)

module _ (db : Db) (h : db.faults ≡ []) (user issue : String) (front back : List IssueRef)
    (ir : IssueRef) where
  pub received-At :
      At db user in_list_key issue front ir back
      → Without db user my_list_key issue
      → Without db user out_list_key issue
      → get_issue_list_and_reference user issue db ≡ (ok (in_list_key, some (ir, length front)), db)
  received-At (e, i, f, b) my out = received_lem db h user issue front back ir my out e f i

  pub sent-At :
      At db user out_list_key issue front ir back
      → Without db user my_list_key issue
      → get_issue_list_and_reference user issue db
        ≡ (ok (out_list_key, some (ir, length front)), db)
  unfolding get_issue_list_and_reference
  sent-At (e, i, f, b) my =
      rw
        (
          get_issue_reference-missing db h user issue my_list_key my,
          get_issue_reference-found db h user issue out_list_key front back ir e f i,
        )
        refl

  pub own-At :
      At db user my_list_key issue front ir back
      → get_issue_list_and_reference user issue db ≡ (ok (my_list_key, some (ir, length front)), db)
  unfolding get_issue_list_and_reference
  own-At (e, i, f, b) =
      rw (get_issue_reference-found db h user issue my_list_key front back ir e f i) refl

  pub found-At :
      (list : String)
      → At db user list issue front ir back
      → get_issue_reference user issue list db ≡ (ok (ir, length front), db)
  found-At list (e, i, f, b) = get_issue_reference-found db h user issue list front back ir e f i

  pub removed-At :
      (list : String)
      → At db user list issue front ir back
      → remove_reference user issue list db
        ≡ (ok tt, record db { lists = put_list user list (front ++ back) db.lists })
  removed-At list (e, i, f, b) =
      remove_reference-ok db h user issue list front back ir (ap (λ l. or_else l []) e) f b i
