-- ===== src/Serving.antt =====
-- How the server takes a request: the router and `checkAuth` of server/plugin.go, and the bodies of
-- server/serializer.go. A body is the object of a request of the web app, or `none` where there is
-- none.
pub mod Asked
pub mod Operating
pub mod Calls
pub mod Saving
pub mod Tracking
use Prim.Native.Char.{code}
use Prim.Native.String.{[] as nil, ◌∷◌ as ◌∷ᶜ◌}
use okrbest_plugin_todo.Common.{
  String, ℕ, Bool, Option, none, some, List, [], ◌∷◌, nat_eq, str_eq, lookup, if◌then◌else◌, ◌&&◌,
}
use okrbest_plugin_todo.Db.{Db}
use okrbest_plugin_todo.Preferences.{Kv}
use okrbest_plugin_todo.Actions.{Value, undefined, null, text, object}
use okrbest_plugin_todo.Handlers.{
  Response, refused, handle_complete, handle_remove, handle_bump, handle_accept,
}
use okrbest_plugin_todo.Handlers.Adding.{
  AddRequest, EditRequest, handle_add, handle_edit, handle_change_assignment,
}

-- the handlers that change lists, and the others
pub data Endpoint : Type 0 where
  add remove complete accept bump edit change_assignment : Endpoint
  lists telemetry config : Endpoint

-- `initializeAPI`: a handler for a method and a path
unfoldable pub routes : List ((String × String) × Endpoint)
routes =
    (("/add", "POST"), add)
    ∷ (("/lists", "GET"), lists)
    ∷ (("/remove", "POST"), remove)
    ∷ (("/complete", "POST"), complete)
    ∷ (("/accept", "POST"), accept)
    ∷ (("/bump", "POST"), bump)
    ∷ (("/telemetry", "POST"), telemetry)
    ∷ (("/config", "GET"), config)
    ∷ (("/edit", "PUT"), edit)
    ∷ (("/change_assignment", "POST"), change_assignment)
    ∷ []

unfoldable pub routed : List ((String × String) × Endpoint) → String → String → Option Endpoint
routed [] path method = none
routed (((p, m), endpoint) ∷ rest) path method =
    if str_eq p path && str_eq m method then some endpoint else routed rest path method

-- the path of a URL without its query
unfoldable pub without_query : String → String
without_query nil = ""
without_query (c ∷ᶜ s) = let rest = without_query s in if nat_eq (code c) 63 then "" else c ∷ᶜ rest

-- A request's body: an object's properties.
abbrev pub Body : Type 0
Body = Option (List (String × Value))

-- What a field of the type of texts is, for a value: null leaves it empty, and an object is an
-- error, `none`.
abbrev pub text_of : Value → Option String
text_of undefined = some ""
text_of null = some ""
text_of (text s) = some s
text_of (object _) = none

-- a field of a request, which is empty where the property is missing
unfoldable pub field : String → List (String × Value) → Option String
field key properties = elim (lookup key properties) [ none ↦ some "" | some v ↦ text_of v ]

infixl 5 ◌>>=◌
abbrev ◌>>=◌ : {A B : Type 0} → Option A → (A → Option B) → Option B
none >>= f = none
some a >>= f = f a

-- `GetAcceptRequestPayloadFromJSON` and those of completing, removing and bumping
unfoldable pub get_id : Body → Option String
unfolding field
get_id none = none
get_id (some properties) = field "id" properties

unfoldable pub get_add_issue : Body → Option AddRequest
unfolding field
get_add_issue none = none
get_add_issue (some properties) = do
  message ← field "message" properties
  post_permalink ← field "postPermalink" properties
  description ← field "description" properties
  send_to ← field "send_to" properties
  post_id ← field "post_id" properties
  some (record {
    message = message;
    description = description;
    send_to = send_to;
    post_permalink = post_permalink;
    post_id = post_id;
  })

unfoldable pub get_edit_issue : Body → Option EditRequest
unfolding field
get_edit_issue none = none
get_edit_issue (some properties) = do
  id ← field "id" properties
  message ← field "message" properties
  description ← field "description" properties
  some (record { id = id; message = message; description = description })

unfoldable pub get_change_assignment : Body → Option (String × String)
unfolding field
get_change_assignment none = none
get_change_assignment (some properties) = do
  id ← field "id" properties
  send_to ← field "send_to" properties
  some (id, send_to)

module _ (username : String → Option String) (find_user : String → Option (String × String))
    (fails : Bool) (kv : Kv) where
  -- the handlers that change lists; `none` for another
  unfoldable pub handle : Endpoint → String → Body → Db → Option (Response × Db)
  unfolding handle_add handle_remove handle_complete handle_accept handle_bump handle_edit
      handle_change_assignment get_id get_add_issue get_edit_issue get_change_assignment
  handle add user body db =
      some (handle_add username find_user fails kv user (get_add_issue body) db)
  handle remove user body db = some (handle_remove username user (get_id body) db)
  handle complete user body db = some (handle_complete username user (get_id body) db)
  handle accept user body db = some (handle_accept username user (get_id body) db)
  handle bump user body db = some (handle_bump username user (get_id body) db)
  handle edit user body db = some (handle_edit username user (get_edit_issue body) db)
  handle change_assignment user body db =
      some (handle_change_assignment username find_user user (get_change_assignment body) db)
  handle lists user body db = none
  handle telemetry user body db = none
  handle config user body db = none

  -- a request with the id of its user in the header; `none` where another handler answers, or none
  unfoldable pub serve_http : String → String → String → Body → Db → Option (Response × Db)
  unfolding routes routed without_query handle
  serve_http user method url body db = elim (routed routes (without_query url) method) [
    | none ↦ none
    | some endpoint ↦
        if str_eq user "" then some (refused 401, db) else handle endpoint user body db
  ]
