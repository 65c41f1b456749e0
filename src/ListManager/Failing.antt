-- ===== src/ListManager/Failing.antt =====
-- Sending an issue while the host fails once: server/list.go.
use okrbest_plugin_todo.Common.{
  String, ℕ, zero, suc, ◌<◌, Bool, true, false, none, some, List, [], ◌∷◌, ◌++◌, ◌≡◌, refl, ap, ◌∙◌,
  or_else, str_eq, eq_iff, arith,
}
use okrbest_plugin_todo.ListStore.{error, ok, add_ref, remove_ref}
use mathlib.Core.List.{append-nil}
use okrbest_plugin_todo.ListStore.Removing.{remove_ref-append}
use okrbest_plugin_todo.ListStore.Sequential.{new_ref, add_ref-new}
use okrbest_plugin_todo.Db.{Issue, Db, refs, put_issue, put_list, out_list_key, in_list_key}
use okrbest_plugin_todo.ListManager.{send_issue}
use okrbest_plugin_todo.ListManager.Sending.{issue_of}
use okrbest_plugin_todo.ListManager.Restoring.{IsUnused, Same, put_issue-undone}

-- the first calls of the host that succeed before one that fails
abbrev pub fails_after : ℕ → List Bool
fails_after zero = true ∷ []
fails_after (suc n) = false ∷ fails_after n

-- One call of the host fails, the one after `n` others.
abbrev pub failing : ℕ → Db → Db
failing n db = record db { faults = fails_after n }

-- Sending gives the host's error when the call after `n` others fails, and changes nothing.
abbrev pub Atomic : Db → String → String → String → String → String → String → ℕ → Type 0
Atomic db sender receiver message post_permalink description post_id n =
    let after =
      send_issue sender receiver message post_permalink description post_id (failing n db) in
    (after.0 ≡ error "KV") × Same db after.1

module _ (db : Db) (sender receiver message post_permalink description post_id : String)
    (us : IsUnused db (db.new_ids db.made)) (ur : IsUnused db (db.new_ids (suc db.made))) where
  abbrev s : String
  s = db.new_ids db.made

  abbrev r : String
  r = db.new_ids (suc db.made)

  abbrev issue : String → Issue
  issue id = issue_of db id message post_permalink description post_id

  issues_lem :
      (id : String)
      → put_issue r none
          (put_issue s none (put_issue r (some (issue r)) (put_issue s (some (issue s)) db.issues)))
          id
        ≡ db.issues id
  issues_lem = put_issue-undone db.issues s r (some (issue s)) (some (issue r)) us.0 ur.0

  added :
      add_ref s receiver r (refs db sender out_list_key)
      ≡ ok (tt, refs db sender out_list_key ++ new_ref s receiver r ∷ [])
  added = add_ref-new s receiver r (refs db sender out_list_key) (us.1 sender out_list_key)

  atomic0 : Atomic db sender receiver message post_permalink description post_id 0
  unfolding send_issue
  atomic0 = (refl, (λ id. refl, λ u l. refl))

  atomic1 : Atomic db sender receiver message post_permalink description post_id 1
  unfolding send_issue
  atomic1 = (refl, (λ id. ground (arith, eq_iff s id, us.0), λ u l. refl))

  atomic2 : Atomic db sender receiver message post_permalink description post_id 2
  unfolding send_issue
  atomic2 = (refl, (issues_lem, λ u l. refl))

  atomic3 : Atomic db sender receiver message post_permalink description post_id 3
  unfolding send_issue
  atomic3 = rw added (refl, (issues_lem, λ u l. refl))

  same_sender : str_eq sender sender ≡ true
  same_sender = (eq_iff sender sender).1 refl

  removed :
      remove_ref s (refs db sender out_list_key ++ new_ref s receiver r ∷ [])
      ≡ ok (tt, refs db sender out_list_key)
  removed =
      remove_ref-append s (refs db sender out_list_key) [] (new_ref s receiver r)
        (us.1 sender out_list_key) tt refl
      ∙ ap (λ l. ok (tt, l)) (append-nil (refs db sender out_list_key))

  lists_lem :
      (u l : String)
      → or_else
          (put_list sender out_list_key
            (refs db sender out_list_key)
            (put_list sender out_list_key
              (refs db sender out_list_key ++ new_ref s receiver r ∷ [])
              db.lists)
            u
            l)
          []
        ≡ refs db u l
  lists_lem u l = grind (arith, eq_iff sender u, eq_iff out_list_key l)

  atomic4 : Atomic db sender receiver message post_permalink description post_id 4
  unfolding send_issue
  atomic4 = rw (added, same_sender, removed) (refl, (issues_lem, lists_lem))

  added_in :
      add_ref r sender s (refs db receiver in_list_key)
      ≡ ok (tt, refs db receiver in_list_key ++ new_ref r sender s ∷ [])
  added_in = add_ref-new r sender s (refs db receiver in_list_key) (ur.1 receiver in_list_key)

  atomic5 : Atomic db sender receiver message post_permalink description post_id 5
  unfolding send_issue
  atomic5 = rw (added, added_in, same_sender, removed) (refl, (issues_lem, lists_lem))

-- When exactly one of the six calls that it makes of the host fails, and with two ids that no
-- issue and no list has, sending an issue gives the host's error, and all issues and all lists of
-- all users are as they were: what was saved already is taken back.
pub send_issue-failing :
    (db : Db) (sender receiver message post_permalink description post_id : String)
    → IsUnused db (db.new_ids db.made)
    → IsUnused db (db.new_ids (suc db.made))
    → (n : ℕ) → n < 6
    → Atomic db sender receiver message post_permalink description post_id n
send_issue-failing db sender receiver message post_permalink description post_id us ur zero h =
    atomic0 db sender receiver message post_permalink description post_id us ur
send_issue-failing db sender receiver message post_permalink description post_id us ur (suc zero)
      h =
    atomic1 db sender receiver message post_permalink description post_id us ur
send_issue-failing db sender receiver message post_permalink description post_id us ur
      (suc (suc zero)) h =
    atomic2 db sender receiver message post_permalink description post_id us ur
send_issue-failing db sender receiver message post_permalink description post_id us ur
      (suc (suc (suc zero))) h =
    atomic3 db sender receiver message post_permalink description post_id us ur
send_issue-failing db sender receiver message post_permalink description post_id us ur
      (suc (suc (suc (suc zero)))) h =
    atomic4 db sender receiver message post_permalink description post_id us ur
send_issue-failing db sender receiver message post_permalink description post_id us ur
      (suc (suc (suc (suc (suc zero))))) h =
    atomic5 db sender receiver message post_permalink description post_id us ur
send_issue-failing db sender receiver message post_permalink description post_id us ur
      (suc (suc (suc (suc (suc (suc n)))))) h =
    ground arith
