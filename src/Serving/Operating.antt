-- ===== src/Serving/Operating.antt =====
-- The handlers of server/plugin.go that change lists carry out one operation of server/list.go, or
-- none.
use okrbest_plugin_todo.Common.{
  String, Bool, Option, none, some, ◌≡◌, refl, str_eq, true, false, arith, Bool-cases, Option-cases,
  inl, inr,
}
use okrbest_plugin_todo.Db.{Db}
use okrbest_plugin_todo.ListManager.{
  add_issue, send_issue, complete_issue, edit_issue, change_assignment, accept_issue, remove_issue,
  bump_issue,
}
use okrbest_plugin_todo.ListManager.Requests.{Request, serve}
use okrbest_plugin_todo.ListManager.Requests as Manager
use okrbest_plugin_todo.Preferences.{Kv}
use okrbest_plugin_todo.Handlers.{
  answered-after, handle_complete, handle_remove, handle_bump, handle_accept,
}
use okrbest_plugin_todo.Handlers.Adding.{allows, handle_add, handle_edit, handle_change_assignment}
use okrbest_plugin_todo.Serving.Asked.{required, performed, adding, own_name}

module _ (username : String → Option String) where
  pub handle_complete-serves :
      (user id : String) (db : Db)
      → (handle_complete username user (some id) db).1
        ≡ performed (required id (some (Manager.complete user id))) db
  unfolding handle_complete serve
  handle_complete-serves user id db = elim (Bool-cases (str_eq id "")) [
    | inl e ↦ rw e refl
    | inr e ↦ rw e (answered-after _ (complete_issue user id db))
  ]

  pub handle_remove-serves :
      (user id : String) (db : Db)
      → (handle_remove username user (some id) db).1
        ≡ performed (required id (some (Manager.remove user id))) db
  unfolding handle_remove serve
  handle_remove-serves user id db = elim (Bool-cases (str_eq id "")) [
    | inl e ↦ rw e refl
    | inr e ↦ rw e (answered-after _ (remove_issue user id db))
  ]

  pub handle_accept-serves :
      (user id : String) (db : Db)
      → (handle_accept username user (some id) db).1
        ≡ performed (required id (some (Manager.accept user id))) db
  unfolding handle_accept serve
  handle_accept-serves user id db = elim (Bool-cases (str_eq id "")) [
    | inl e ↦ rw e refl
    | inr e ↦ rw e (answered-after _ (accept_issue user id db))
  ]

  pub handle_bump-serves :
      (user id : String) (db : Db)
      → (handle_bump username user (some id) db).1
        ≡ performed (required id (some (Manager.bump user id))) db
  unfolding handle_bump serve
  handle_bump-serves user id db = elim (Bool-cases (str_eq id "")) [
    | inl e ↦ rw e refl
    | inr e ↦ rw e (answered-after _ (bump_issue user id db))
  ]

  pub handle_edit-serves :
      (user id message description : String) (db : Db)
      → (handle_edit username user
          (some (record { id = id; message = message; description = description }))
          db).1
        ≡ performed (required id (some (Manager.edit user id message description))) db
  unfolding handle_edit serve
  handle_edit-serves user id message description db = elim (Bool-cases (str_eq id "")) [
    | inl e ↦ rw e refl
    | inr e ↦ rw e (answered-after _ (edit_issue user id message description db))
  ]

  module _ (find_user : String → Option (String × String)) where
    pub handle_change_assignment-serves :
        (user id assignee : String) (db : Db)
        → (handle_change_assignment username find_user user (some (id, assignee)) db).1
          ≡ performed
              (required id (
                required assignee (elim (find_user assignee) [
                  | none ↦ none
                  | some (receiver, _) ↦ some (Manager.assign id user receiver)
                ])))
              db
    unfolding handle_change_assignment serve
    handle_change_assignment-serves user id assignee db = elim (Bool-cases (str_eq id "")) [
      | inl e ↦ rw e refl
      | inr e ↦ elim (Bool-cases (str_eq assignee "")) [
        | inl f ↦ rw (e, f) refl
        | inr f ↦ elim (Option-cases (find_user assignee)) [
          | inl g ↦ rw (e, f, g) refl
          | inr ((receiver, name), g) ↦
              rw (e, f, g) (answered-after _ (change_assignment id user receiver db))
        ]
      ]
    ]

    -- A name that is found and is the user's.
    own_name_lem :
        (fails : Bool) (kv : Kv) (user send_to receiver full : String)
        → str_eq send_to "" ≡ false
        → find_user send_to ≡ some (receiver, full)
        → str_eq receiver user ≡ true
        → own_name username find_user fails kv user send_to ≡ true
    unfolding own_name
    own_name_lem fails kv user send_to receiver full f g own = rw (f, g, own) refl

    own_name-found :
        (fails : Bool) (kv : Kv) (user send_to : String)
        → own_name username find_user fails kv user send_to ≡ true
        → (receiver : String) × (full : String) × (str_eq send_to "" ≡ false)
          × (find_user send_to ≡ some (receiver, full))
          × (str_eq receiver user ≡ true)
    unfolding own_name
    own_name-found fails kv user send_to h = elim (Bool-cases (str_eq send_to "")) [
      | inl f ↦ ground (arith, h, f)
      | inr f ↦ elim (Option-cases (find_user send_to)) [
        | inl g ↦ ground (arith, h, f, g)
        | inr ((receiver, full), g) ↦ (receiver, full, f, g, ground (arith, h, f, g))
      ]
    ]

    -- An issue for oneself by name is added with its texts in other places.
    pub handle_add-displaces :
        (fails : Bool) (kv : Kv) (user message link description post send_to : String) (db : Db)
        → own_name username find_user fails kv user send_to ≡ true
        → str_eq message "" ≡ false
        → (handle_add username find_user fails kv user
            (some (record {
              message = message;
              description = description;
              send_to = send_to;
              post_permalink = link;
              post_id = post;
            }))
            db).1
          ≡ serve (Manager.add user message description post link) db
    unfolding handle_add serve own_name
    handle_add-displaces fails kv user message link description post send_to db h e =
        let (receiver, full, f, g, own) = own_name-found fails kv user send_to h in
        rw (e, f, g, own) (answered-after _ (add_issue user message description post link db))

    pub handle_add-serves :
        (fails : Bool) (kv : Kv) (user message link description post send_to : String) (db : Db)
        → own_name username find_user fails kv user send_to ≡ false
        → (handle_add username find_user fails kv user
            (some (record {
              message = message;
              description = description;
              send_to = send_to;
              post_permalink = link;
              post_id = post;
            }))
            db).1
          ≡ performed
              (required message
                (adding username find_user fails kv user message link description post send_to))
              db
    unfolding handle_add serve own_name
    handle_add-serves fails kv user message link description post send_to db h =
        elim (Bool-cases (str_eq message "")) [
          | inl e ↦ rw e refl
          | inr e ↦ elim (Bool-cases (str_eq send_to "")) [
            | inl f ↦ rw (e, f) (answered-after _ (add_issue user message link description post db))
            | inr f ↦ elim (Option-cases (find_user send_to)) [
              | inl g ↦ rw (e, f, g) refl
              | inr ((receiver, name), g) ↦ elim (Bool-cases (str_eq receiver user)) [
                | inl own ↦
                    ground (arith, own_name_lem fails kv user send_to receiver name f g own, h)
                | inr other ↦ elim (Bool-cases (allows username fails receiver kv)) [
                  | inl allowed ↦
                      rw (e, f, g, other, allowed)
                        (answered-after _
                          (send_issue user receiver message link description post db))
                  | inr blocked ↦ rw (e, f, g, other, blocked) refl
                ]
              ]
            ]
          ]
        ]
