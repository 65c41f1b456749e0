-- ===== src/Serving/Calls.antt =====
-- From a call of the web app to what the server stores: webapp/src/actions.js, and server/plugin.go,
-- server/serializer.go and server/list.go.
use okrbest_plugin_todo.Common.{
  String, Bool, true, false, Option, some, ◌≡◌, ◌≢◌, refl, str_eq, eq_iff, arith, Option-cases, inl,
  inr,
}
use okrbest_plugin_todo.Db.{Db}
use okrbest_plugin_todo.ListManager.Requests as Manager
use okrbest_plugin_todo.Preferences.{Kv}
use okrbest_plugin_todo.Actions as Web
use okrbest_plugin_todo.Actions.{Value, undefined, null, text, object, Call, path, method, body}
use okrbest_plugin_todo.Handlers.{Response}
use okrbest_plugin_todo.Serving.{
  text_of, routes, routed, without_query, field, get_id, get_add_issue, get_edit_issue,
  get_change_assignment, handle, serve_http,
}
use okrbest_plugin_todo.Serving.Asked.{
  with_plain, stored_by, performed, asked, own_name, names_self,
}
use okrbest_plugin_todo.Serving.Operating.{
  handle_complete-serves, handle_remove-serves, handle_accept-serves, handle_bump-serves,
  handle_edit-serves, handle_change_assignment-serves, handle_add-serves, handle_add-displaces,
}

module _ (username : String → Option String) (find_user : String → Option (String × String))
    (fails : Bool) (kv : Kv) where
  -- what a request of a user is answered, whose method is sent in upper case
  abbrev pub received : (String → String) → String → Call → Db → Option (Response × Db)
  received to_upper user c db =
      serve_http username find_user fails kv user (to_upper (method c)) (path c) (body c) db

  pub received-asked :
      (to_upper : String → String)
      → to_upper "post" ≡ "POST"
      → to_upper "put" ≡ "PUT"
      → to_upper "get" ≡ "GET"
      → (user : String) (c : Call) (db : Db) → user ≢ ""
      → names_self username find_user fails kv user c ≡ false
      → stored_by (received to_upper user c db) db
        ≡ performed (asked username find_user fails kv user c) db
  unfolding serve_http method path body routes routed without_query handle asked get_id
      get_add_issue get_edit_issue get_change_assignment field names_self
  received-asked to_upper post put get user (Web.complete id) db ne other =
      let known : str_eq user "" ≡ false = ground (arith, eq_iff user "", ne) in
      rw (post, known) (handle_complete-serves username user id db)
  received-asked to_upper post put get user (Web.remove id) db ne other =
      let known : str_eq user "" ≡ false = ground (arith, eq_iff user "", ne) in
      rw (post, known) (handle_remove-serves username user id db)
  received-asked to_upper post put get user (Web.accept id) db ne other =
      let known : str_eq user "" ≡ false = ground (arith, eq_iff user "", ne) in
      rw (post, known) (handle_accept-serves username user id db)
  received-asked to_upper post put get user (Web.bump id) db ne other =
      let known : str_eq user "" ≡ false = ground (arith, eq_iff user "", ne) in
      rw (post, known) (handle_bump-serves username user id db)
  received-asked to_upper post put get user (Web.edit_issue id message description) db ne other =
      let known : str_eq user "" ≡ false = ground (arith, eq_iff user "", ne) in
      elim (Option-cases (text_of description)) [
        | inl e ↦ rw (put, known, asked, with_plain, e) refl
        | inr (d, e) ↦
            rw (put, known, asked, with_plain, e) (handle_edit-serves username user id message d db)
      ]
  received-asked to_upper post put get user (Web.change_assignee id assignee) db ne other =
      let known : str_eq user "" ≡ false = ground (arith, eq_iff user "", ne) in
      rw (post, known) (handle_change_assignment-serves username find_user user id assignee db)
  received-asked to_upper post put get user (Web.add message link description send_to post_id) db ne
        other =
      let known : str_eq user "" ≡ false = ground (arith, eq_iff user "", ne) in
      elim (Option-cases (text_of link)) [
        | inl e ↦ rw (post, known, asked, with_plain, e) refl
        | inr (l, e) ↦ elim (Option-cases (text_of description)) [
          | inl f ↦ rw (post, known, asked, with_plain, e, f) refl
          | inr (d, f) ↦ elim (Option-cases (text_of send_to)) [
            | inl g ↦ rw (post, known, asked, with_plain, e, f, g) refl
            | inr (s, g) ↦ elim (Option-cases (text_of post_id)) [
              | inl h ↦ rw (post, known, asked, with_plain, e, f, g, h) refl
              | inr (p, h) ↦
                  rw (post, known, asked, with_plain, e, f, g, h)
                    (handle_add-serves username find_user fails kv user message l d p s db
                      (ground (arith, other, g)))
            ]
          ]
        ]
      ]
  received-asked to_upper post put get user (Web.telemetry event properties) db ne other =
      let known : str_eq user "" ≡ false = ground (arith, eq_iff user "", ne) in
      rw (post, known) refl
  received-asked to_upper post put get user (Web.fetch_all_issue_lists true) db ne other =
      let known : str_eq user "" ≡ false = ground (arith, eq_iff user "", ne) in
      rw (get, known) refl
  received-asked to_upper post put get user (Web.fetch_all_issue_lists false) db ne other =
      let known : str_eq user "" ≡ false = ground (arith, eq_iff user "", ne) in
      rw (get, known) refl
  received-asked to_upper post put get user Web.update_config db ne other =
      let known : str_eq user "" ≡ false = ground (arith, eq_iff user "", ne) in
      rw (get, known) refl

  -- A call that adds an issue, with a message, for its user by the user's own name.
  pub received-displaced :
      (to_upper : String → String)
      → to_upper "post" ≡ "POST"
      → (user message link description post name : String) (receiver attached : Value) (db : Db)
      → user ≢ ""
      → message ≢ ""
      → text_of receiver ≡ some name
      → text_of attached ≡ some post
      → own_name username find_user fails kv user name ≡ true
      → stored_by
          (received to_upper user
            (Web.add message (text link) (text description) receiver attached)
            db)
          db
        ≡ performed (some (Manager.add user message description post link)) db
  unfolding serve_http method path body routes routed without_query handle get_add_issue field
  received-displaced to_upper post user message link description id name receiver attached db ne
        filled r a own =
      let known : str_eq user "" ≡ false = ground (arith, eq_iff user "", ne) in
      let valid : str_eq message "" ≡ false = ground (arith, eq_iff message "", filled) in
      rw (post, known, r, a)
        (handle_add-displaces username find_user fails kv user message link description id name db
          own valid)
