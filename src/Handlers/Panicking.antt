-- ===== src/Handlers/Panicking.antt =====
-- Requests that end as they should not: server/plugin.go.
use okrbest_plugin_todo.Common.{
  String, Bool, true, false, Option, none, some, List, [], ◌∷◌, ◌++◌, ◌≡◌, ◌≢◌, refl, All, str_eq,
  eq_iff, arith,
}
use okrbest_plugin_todo.ListStore.{IssueRef}
use okrbest_plugin_todo.ListStore.Bumping.{IsOther}
use okrbest_plugin_todo.Db.{Db, refs, put_list, my_list_key, in_list_key, out_list_key}
use okrbest_plugin_todo.Db.Laws.{get_and_remove_issue-missing, remove_reference-missing}
use okrbest_plugin_todo.Db.Places.{At, Without, received-At, removed-At}
use okrbest_plugin_todo.ListManager.Sending.{issue_of, add_issue_lem}
use okrbest_plugin_todo.Preferences.{Kv}
use okrbest_plugin_todo.Handlers.{refresh, panics, handle_complete}
use okrbest_plugin_todo.Handlers.Adding.{AddRequest, handle_add}

-- While the host does not fail, let a user's inbox have one reference of an issue and the two other
-- lists none, let the sender, whose id is not empty, have no reference of theirs in the list of
-- sent issues, and let neither issue be stored, as after the sender has completed it. A request to
-- complete the issue then panics. The user's web app is told to refresh the inbox, from which the
-- reference is gone, and nobody is told more.
pub handle_complete-panics :
    (username : String → Option String) (db : Db) (user id : String) (front back : List IssueRef)
    (ir : IssueRef)
    → db.faults ≡ []
    → id ≢ ""
    → At db user in_list_key id front ir back
    → Without db user my_list_key id
    → Without db user out_list_key id
    → Without db ir.foreign_user_id out_list_key ir.foreign_issue_id
    → ir.foreign_user_id ≢ ""
    → db.issues id ≡ none
    → db.issues ir.foreign_issue_id ≡ none
    → handle_complete username user (some id) db ≡ (
      panics (refresh user (in_list_key ∷ []) ∷ []),
      record db { lists = put_list user in_list_key (front ++ back) db.lists },
    )
unfolding handle_complete
handle_complete-panics username db user id front back ir h named at my out foreign other i j =
    let db1 : Db = record db { lists = put_list user in_list_key (front ++ back) db.lists } in
    let valid : str_eq id "" ≡ false = ground (arith, eq_iff id "", named) in
    let nonempty : str_eq ir.foreign_user_id "" ≡ false =
      ground (arith, eq_iff ir.foreign_user_id "", other) in
    rw
      (
        valid,
        received-At db h user id front back ir at my out,
        removed-At db h user id front back ir in_list_key at,
        get_and_remove_issue-missing db1 h id i,
        nonempty,
        remove_reference-missing db1 h ir.foreign_user_id ir.foreign_issue_id out_list_key foreign,
        get_and_remove_issue-missing db1 h ir.foreign_issue_id j,
      )
      refl

-- While the host does not fail, and with an id that is not yet on the own list: a valid request to
-- add an issue for the user who makes it, by their own name, saves the description as the
-- permalink, the post's id as the description, and the permalink as the post's id.
pub handle_add-own :
    (username : String → Option String) (find_user : String → Option (String × String))
    (fails : Bool) (kv : Kv) (user name : String) (a : AddRequest) (db : Db)
    → db.faults ≡ []
    → All (IsOther (db.new_ids db.made)) (refs db user my_list_key)
    → a.message ≢ ""
    → a.send_to ≢ ""
    → find_user a.send_to ≡ some (user, name)
    → (let id = db.new_ids db.made in
        (handle_add username find_user fails kv user (some a) db).1.issues id
        ≡ some (issue_of db id a.message a.description a.post_id a.post_permalink))
unfolding handle_add
handle_add-own username find_user fails kv user name a db h new message send_to found =
    let id = db.new_ids db.made in
    let valid : str_eq a.message "" ≡ false = ground (arith, eq_iff a.message "", message) in
    let given : str_eq a.send_to "" ≡ false = ground (arith, eq_iff a.send_to "", send_to) in
    let same : str_eq user user ≡ true = (eq_iff user user).1 refl in
    rw
      (
        valid,
        given,
        found,
        same,
        add_issue_lem db user a.message a.description a.post_id a.post_permalink h new,
      )
      (ground (arith, eq_iff id id))
