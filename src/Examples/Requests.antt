-- ===== src/Examples/Requests.antt =====
-- Lists of issues on the server, at concrete data.
use okrbest_plugin_todo.Common.{
  String, ℕ, zero, suc, false, none, some, List, [], ◌∷◌, ◌≡◌, ◌≢◌, refl, map, eq_iff, arith,
}
use okrbest_plugin_todo.ListStore.{IssueRef, ok}
use okrbest_plugin_todo.ListStore.Sequential.{new_ref}
use okrbest_plugin_todo.Db.{
  Issue, Db, refs, put_issue, put_list, my_list_key, in_list_key, out_list_key,
}
use okrbest_plugin_todo.Db.Places.{At}
use okrbest_plugin_todo.ListManager.{
  send_issue, complete_issue, remove_issue, accept_issue, edit_issue, edited, change_assignment,
}
use okrbest_plugin_todo.ListManager.Reading.{ExtendedIssue, get_issue_list}
use okrbest_plugin_todo.ListManager.Sending.{issue_of, sent}
use okrbest_plugin_todo.ListManager.Restoring.{Same}
use okrbest_plugin_todo.ListManager.Returning.{complete_issue-send_issue}
use okrbest_plugin_todo.ListManager.Removing.{remove_issue-send_issue}
use okrbest_plugin_todo.ListManager.Failing.{Atomic, send_issue-failing}
use okrbest_plugin_todo.ListManager.Accepting.{
  AcceptAtomic, accept_issue-received, accept_issue-failing,
}
use okrbest_plugin_todo.ListManager.Completing.{complete_issue-sent}
use okrbest_plugin_todo.ListManager.Editing.{edit_issue-received}
use okrbest_plugin_todo.ListManager.Assigning.{given, change_assignment_other}
use okrbest_plugin_todo.ListManager.Showing.{get_issue_list-reads}

abbrev pub id_of : ℕ → String
id_of zero = "i0"
id_of (suc zero) = "i1"
id_of (suc (suc n)) = "i2"

abbrev pub empty_db : Db
empty_db = record {
  issues = λ _. none;
  lists = λ _ _. none;
  now = 7;
  new_ids = id_of;
  made = 0;
  faults = [];
}

i0-i1 : ◌≢◌ {A = String} "i0" "i1"
i0-i1 = ground (arith, eq_iff "i0" "i1")

i1-i0 : ◌≢◌ {A = String} "i1" "i0"
i1-i0 = ground (arith, eq_iff "i1" "i0")

ann-nil : ◌≢◌ {A = String} "ann" ""
ann-nil = ground (arith, eq_iff "ann" "")

bob-nil : ◌≢◌ {A = String} "bob" ""
bob-nil = ground (arith, eq_iff "bob" "")

ann-bob : ◌≢◌ {A = String} "ann" "bob"
ann-bob = ground (arith, eq_iff "ann" "bob")

abbrev milk : String → Issue
milk id = issue_of empty_db id "milk" "" "" ""

complete_issue-send_issue_example :
    let after = send_issue "ann" "bob" "milk" "" "" "" empty_db in
    let completed = complete_issue "bob" "i1" after.1 in
    (after.0 ≡ ok "i1")
    × (completed.0 ≡ ok (some (milk "i0"), "ann", in_list_key))
    × Same empty_db completed.1
complete_issue-send_issue_example =
    complete_issue-send_issue empty_db "ann" "bob" "milk" "" "" "" refl (refl, λ u l. tt)
      (refl, λ u l. tt) i1-i0 ann-nil

remove_issue-send_issue_example :
    let after = send_issue "ann" "bob" "milk" "" "" "" empty_db in
    let removed = remove_issue "ann" "i0" after.1 in
    (after.0 ≡ ok "i1")
    × (removed.0 ≡ ok (some (milk "i1"), "bob", false, out_list_key))
    × Same empty_db removed.1
remove_issue-send_issue_example =
    remove_issue-send_issue empty_db "ann" "bob" "milk" "" "" "" refl (refl, λ u l. tt)
      (refl, λ u l. tt) i1-i0 bob-nil

-- the host fails when the receiver's inbox is saved
send_issue-failing_example : Atomic empty_db "ann" "bob" "milk" "" "" "" 5
send_issue-failing_example =
    send_issue-failing empty_db "ann" "bob" "milk" "" "" "" (refl, λ u l. tt) (refl, λ u l. tt) 5
      (ground arith)

-- ann sent an issue to bob
abbrev sent_db : Db
sent_db = sent empty_db "ann" "bob" milk "i0" "i1"

abbrev received_ref : IssueRef
received_ref = new_ref "i1" "ann" "i0"

abbrev sent_ref : IssueRef
sent_ref = new_ref "i0" "bob" "i1"

received-At : At sent_db "bob" in_list_key "i1" [] received_ref []
received-At = (refl, refl, tt, tt)

sent-At : At sent_db "ann" out_list_key "i0" [] sent_ref []
sent-At = (refl, refl, tt, tt)

accept_issue-received_example : accept_issue "bob" "i1" sent_db ≡ (
  ok ("milk", "ann"),
  record sent_db {
    lists =
        put_list "bob" in_list_key []
          (put_list "bob" my_list_key (new_ref "i1" "ann" "i0" ∷ []) sent_db.lists);
  },
)
accept_issue-received_example =
    accept_issue-received sent_db "bob" "i1" [] [] received_ref (milk "i1") refl received-At tt refl

accept_issue-failing_example : AcceptAtomic sent_db "bob" "i1" 4
accept_issue-failing_example =
    accept_issue-failing sent_db "bob" "i1" [] [] received_ref (milk "i1") received-At tt refl 4
      (ground arith)

complete_issue-sent_example :
    let after = complete_issue "ann" "i0" sent_db in
    (after.0 ≡ ok (some (milk "i1"), "bob", out_list_key))
    × (refs after.1 "ann" out_list_key ≡ [])
    × At after.1 "bob" in_list_key "i1" [] received_ref []
    × (after.1.issues "i0" ≡ none)
    × (after.1.issues "i1" ≡ none)
complete_issue-sent_example =
    complete_issue-sent sent_db "ann" "i0" [] [] [] [] sent_ref received_ref (milk "i0") (milk "i1")
      refl sent-At tt received-At tt bob-nil i0-i1 refl refl

edit_issue-received_example : edit_issue "bob" "i1" "tea" "green" sent_db ≡ (
  ok ("ann", in_list_key, "milk"),
  record sent_db {
    issues =
        put_issue "i1"
          (some (edited "tea" "green" (milk "i1")))
          (put_issue "i0" (some (edited "tea" "green" (milk "i0"))) sent_db.issues);
  },
)
edit_issue-received_example =
    edit_issue-received sent_db "bob" "i1" "tea" "green" [] [] received_ref (milk "i1") (milk "i0")
      refl received-At tt tt (ground (arith, eq_iff "i0" "")) refl refl refl refl

abbrev pub own_ref : IssueRef
own_ref = new_ref "i9" "" ""

-- ann has an issue of her own
abbrev pub own_db : Db
own_db = record empty_db {
  issues = put_issue "i9" (some (milk "i9")) empty_db.issues;
  lists = put_list "ann" my_list_key (own_ref ∷ []) empty_db.lists;
}

pub own-At : At own_db "ann" my_list_key "i9" [] own_ref []
own-At = (refl, refl, tt, tt)

change_assignment_other_example : change_assignment "i9" "ann" "bob" own_db ≡ (
  ok (milk "i9", ""),
  given
      (record own_db { lists = put_list "ann" my_list_key [] own_db.lists })
      "ann"
      "bob"
      "i9"
      "i0"
      (milk "i0"),
)
change_assignment_other_example =
    change_assignment_other own_db "ann" "bob" "i9" [] [] own_ref (milk "i9") refl own-At
      (refl, refl) refl refl tt tt ann-bob

get_issue_list-reads_example :
    (es : List ExtendedIssue) × (get_issue_list (λ _. none) "bob" in_list_key sent_db
      ≡ (ok es, sent_db))
    × (map (λ (e : ExtendedIssue). e.issue) es ≡ milk "i1" ∷ [])
get_issue_list-reads_example = get_issue_list-reads (λ _. none) sent_db refl "bob" in_list_key
