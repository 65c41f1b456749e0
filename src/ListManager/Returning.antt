-- ===== src/ListManager/Returning.antt =====
-- Sending an issue and completing it again: server/list.go.
use mathlib.Core.List.{append-nil}
use okrbest_plugin_todo.Common.{
  String, suc, some, [], ◌∷◌, ◌++◌, ◌≡◌, ◌≢◌, refl, sym, eq_iff, arith,
}
use okrbest_plugin_todo.ListStore.{ok}
use okrbest_plugin_todo.ListStore.Bumping.{IsOther}
use okrbest_plugin_todo.ListStore.Removing.{All-append}
use okrbest_plugin_todo.ListStore.Sequential.{new_ref}
use okrbest_plugin_todo.Db.{Issue, Db, refs, my_list_key, out_list_key, in_list_key}
use okrbest_plugin_todo.Db.Places.{At, Without}
use okrbest_plugin_todo.ListManager.{send_issue, complete_issue}
use okrbest_plugin_todo.ListManager.Sending.{issue_of, sent, send_lem}
use okrbest_plugin_todo.ListManager.Restoring.{IsUnused, Same, put_list-undone, All-put_list}
use okrbest_plugin_todo.ListManager.Completing.{without, complete_issue-received}

module _ (db : Db) (sender receiver s r : String) (issue : String → Issue) (us : IsUnused db s)
    (ur : IsUnused db r) (apart : r ≢ s) where
  pub sent-in :
      At
        (sent db sender receiver issue s r)
        receiver
        in_list_key
        r
        (refs db receiver in_list_key)
        (new_ref r sender s)
        []
  sent-in = (ground (arith, eq_iff receiver receiver), refl, ur.1 receiver in_list_key, tt)

  pub sent-out :
      At
        (sent db sender receiver issue s r)
        sender
        out_list_key
        s
        (refs db sender out_list_key)
        (new_ref s receiver r)
        []
  sent-out = (ground (arith, eq_iff sender sender), refl, us.1 sender out_list_key, tt)

  pub sent-Without_out : Without (sent db sender receiver issue s r) receiver out_list_key r
  sent-Without_out =
      All-put_list (IsOther r) db.lists sender out_list_key
        (refs db sender out_list_key ++ new_ref s receiver r ∷ []) receiver out_list_key
        (All-append (IsOther r) (refs db sender out_list_key) (new_ref s receiver r)
          (ur.1 sender out_list_key) (λ e. apart (sym e)))
        (ur.1 receiver out_list_key)

  -- the store after the receiver completed the issue
  abbrev undone : Db
  undone =
      without (sent db sender receiver issue s r) receiver in_list_key r
        (refs db receiver in_list_key ++ []) sender out_list_key s
        (refs db sender out_list_key ++ [])

  undone-Same : Same db undone
  undone-Same = (
    (λ id. grind (arith, eq_iff s id, eq_iff r id, us.0, ur.0)),
    (λ user list.
        rw (append-nil (refs db receiver in_list_key), append-nil (refs db sender out_list_key))
          (put_list-undone db.lists sender out_list_key receiver in_list_key
            (refs db sender out_list_key ++ new_ref s receiver r ∷ [])
            (refs db receiver in_list_key ++ new_ref r sender s ∷ []) user list)),
  )

  complete_issue-after :
      db.faults ≡ []
      → sender ≢ ""
      → complete_issue receiver r (sent db sender receiver issue s r)
        ≡ (ok (some (issue s), sender, in_list_key), undone)
  complete_issue-after h named =
      complete_issue-received (sent db sender receiver issue s r) receiver r
        (refs db receiver in_list_key) [] (refs db sender out_list_key) [] (new_ref r sender s)
        (new_ref s receiver r) (issue r) (issue s) h sent-in (ur.1 receiver my_list_key)
        sent-Without_out sent-out named apart (ground (arith, eq_iff r r))
        (ground (arith, apart, eq_iff s s, eq_iff r s))

-- While the host does not fail, with two different ids that no issue and no list has, and a
-- sender whose id is not empty: when an issue is sent and its receiver then completes it, the
-- receiver is told of the sender and of the sender's issue, and all issues and all lists of all
-- users are as they were before it was sent.
pub complete_issue-send_issue :
    (db : Db) (sender receiver message post_permalink description post_id : String)
    → db.faults ≡ []
    → IsUnused db (db.new_ids db.made)
    → IsUnused db (db.new_ids (suc db.made))
    → db.new_ids (suc db.made) ≢ db.new_ids db.made
    → sender ≢ ""
    → (let s = db.new_ids db.made in
        let r = db.new_ids (suc db.made) in
        let after = send_issue sender receiver message post_permalink description post_id db in
        let completed = complete_issue receiver r after.1 in
        (after.0 ≡ ok r)
        × (completed.0
            ≡ ok (
              some (issue_of db s message post_permalink description post_id),
              sender,
              in_list_key,
            ))
        × Same db completed.1)
complete_issue-send_issue db sender receiver message post_permalink description post_id h us ur
      apart named =
    let s = db.new_ids db.made in
    let r = db.new_ids (suc db.made) in
    let issue : String → Issue = λ id. issue_of db id message post_permalink description post_id in
    rw
      (
        send_lem db sender receiver message post_permalink description post_id h
            (us.1 sender out_list_key) (ur.1 receiver in_list_key),
        complete_issue-after db sender receiver s r issue us ur apart h named,
      )
      (refl, refl, undone-Same db sender receiver s r issue us ur apart)
