-- ===== src/Serving/Asked.antt =====
-- The operations of server/list.go that users of the web app want: what a call of
-- webapp/src/actions.js is there for.
use okrbest_plugin_todo.Common.{String, Bool, false, Option, none, some, str_eq, if◌then◌else◌}
use okrbest_plugin_todo.Db.{Db}
use okrbest_plugin_todo.ListManager.Requests.{Request, serve}
use okrbest_plugin_todo.ListManager.Requests as Manager
use okrbest_plugin_todo.Preferences.{Kv}
use okrbest_plugin_todo.Actions as Web
use okrbest_plugin_todo.Actions.{Value, undefined, null, text, object, Call, path, method, body}
use okrbest_plugin_todo.Handlers.{Response}
use okrbest_plugin_todo.Handlers.Adding.{allows}
use okrbest_plugin_todo.Serving.{text_of}

abbrev pub required : String → Option Request → Option Request
required s r = if str_eq s "" then none else r

abbrev pub with_plain : Value → (String → Option Request) → Option Request
with_plain v f = elim (text_of v) [ none ↦ none | some s ↦ f s ]

-- what is stored after an answer, if the request changes lists, and after an operation, if there is
-- one
abbrev pub stored_by : Option (Response × Db) → Db → Db
stored_by none db = db
stored_by (some (response, after)) db = after

abbrev pub performed : Option Request → Db → Db
performed none db = db
performed (some r) db = serve r db

module _ (username : String → Option String) (find_user : String → Option (String × String))
    (fails : Bool) (kv : Kv) where
  -- whether a name is the user's own, and whether a call adds an issue for its user by such a name
  unfoldable pub own_name : String → String → Bool
  own_name user name =
      if str_eq name ""
      then false
      else elim (find_user name) [ none ↦ false | some (receiver, _) ↦ str_eq receiver user ]

  unfoldable pub names_self : String → Call → Bool
  unfolding own_name
  names_self user (Web.add _ _ _ send_to _) = elim (text_of send_to) [
    | none ↦ false
    | some name ↦ own_name user name
  ]
  names_self user _ = false

  -- the operation that a user wants who adds an issue, for somebody or for themselves
  abbrev pub adding : String → (message link description post : String) → String → Option Request
  adding user message link description post send_to =
      if str_eq send_to ""
      then some (Manager.add user message link description post)
      else elim (find_user send_to) [
        | none ↦ none
        | some (receiver, _) ↦
            if str_eq receiver user
            then some (Manager.add user message link description post)
            else if allows username fails receiver kv
            then some (Manager.send user receiver message link description post)
            else none
      ]

  -- the operation on lists that a call of the web app asks for, if any
  unfoldable pub asked : String → Call → Option Request
  asked user (Web.complete id) = required id (some (Manager.complete user id))
  asked user (Web.remove id) = required id (some (Manager.remove user id))
  asked user (Web.accept id) = required id (some (Manager.accept user id))
  asked user (Web.bump id) = required id (some (Manager.bump user id))
  asked user (Web.edit_issue id message description) =
      with_plain description (λ d. required id (some (Manager.edit user id message d)))
  asked user (Web.change_assignee id assignee) = required id (
      required assignee (elim (find_user assignee) [
        | none ↦ none
        | some (receiver, _) ↦ some (Manager.assign id user receiver)
      ]))
  asked user (Web.add message link description send_to post) = with_plain link (λ l.
      with_plain description (λ d.
        with_plain send_to
          (λ s. with_plain post (λ p. required message (adding user message l d p s)))))
  asked user (Web.telemetry _ _) = none
  asked user (Web.fetch_all_issue_lists _) = none
  asked user Web.update_config = none
