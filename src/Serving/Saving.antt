-- ===== src/Serving/Saving.antt =====
-- From a key in the add card to what the server stores:
-- webapp/src/components/add_issue/add_issue.jsx, webapp/src/actions.js, and server/plugin.go,
-- server/serializer.go and server/list.go.
use okrbest_plugin_todo.Common.{
  String, Bool, true, false, Option, some, [], ◌∷◌, ◌++◌, ◌≡◌, ◌≢◌, refl, str_eq, eq_iff, arith,
  if◌then◌else◌,
}
use okrbest_plugin_todo.Store.{PluginState}
use okrbest_plugin_todo.Db.{Db}
use okrbest_plugin_todo.ListManager.Requests as Manager
use okrbest_plugin_todo.Preferences.{Kv}
use okrbest_plugin_todo.Actions.{Value, text, Call, add}
use okrbest_plugin_todo.Actions.Requests.{sent}
use okrbest_plugin_todo.AddIssue.{Props, State, Card, key_down, step}
use okrbest_plugin_todo.AddIssue.Mapping.{Ready, props_of}
use okrbest_plugin_todo.AddIssue.Submitting.{recipient, thread, step-enter-IsSaved}
use okrbest_plugin_todo.Serving.{text_of}
use okrbest_plugin_todo.Serving.Asked.{
  required, with_plain, stored_by, performed, adding, asked, own_name, names_self,
}
use okrbest_plugin_todo.Serving.Calls.{received, received-asked, received-displaced}

-- the id of the thread that the issue is attached to, empty for none
abbrev pub thread_id : PluginState → State → String
thread_id s state = if state.attach_to_thread then s.post_id else ""

text_of-thread :
    (props : Props) (state : State)
    → text_of (thread props state) ≡ some (if state.attach_to_thread then props.post_id else "")
text_of-thread props state = ground arith

module _ (username : String → Option String) (find_user : String → Option (String × String))
    (fails : Bool) (kv : Kv) where
  -- what a user asks for who sends such an issue
  asked-add :
      (user message link description to post : String) (receiver attached : Value)
      → text_of receiver ≡ some to
      → text_of attached ≡ some post
      → message ≢ ""
      → asked username find_user fails kv user
          (add message (text link) (text description) receiver attached)
        ≡ adding username find_user fails kv user message link description post to
  unfolding asked
  asked-add user message link description to post receiver attached r a ne =
      let given : str_eq message "" ≡ false = ground (arith, eq_iff message "", ne) in
      rw (asked, with_plain, r, a, required, given) refl

  named :
      (user message link description to : String) (receiver attached : Value)
      → text_of receiver ≡ some to
      → own_name username find_user fails kv user to ≡ false
      → names_self username find_user fails kv user
          (add message (text link) (text description) receiver attached)
        ≡ false
  unfolding names_self
  named user message link description to receiver attached r other = rw (names_self, r) other

  -- Let the methods be sent in upper case, let the add card of a user who is logged in be ready
  -- with a message that is not empty, and let the value that it has for the receiver be read as a
  -- name, empty for none, which is not the user's own. Enter sends one request, and once the server
  -- has received it, whatever it had stored, it has done what adding this message, permalink and
  -- description asks for, for this receiver, attached to the card's thread if the card says so: it
  -- adds to the own list, or sends to a receiver who is known, is another user and receives issues,
  -- or does nothing where there is no such receiver.
  pub step-enter-adding :
      (pathname : String → Option String) (to_upper : String → String)
      → to_upper "post" ≡ "POST"
      → to_upper "put" ≡ "PUT"
      → to_upper "get" ≡ "GET"
      → (user to : String) (c : Card) (s : PluginState) (team server : String) (db : Db)
      → Ready pathname c.world s team server
      → text_of (recipient (props_of pathname c.world.state s team) c.state) ≡ some to
      → user ≢ ""
      → c.state.message ≢ ""
      → own_name username find_user fails kv user to ≡ false
      → (c' : Card) × (call : Call) × (step pathname c (key_down "Enter" false) ≡ some c')
        × (c'.world.requests ≡ c.world.requests ++ sent server call ∷ [])
        × (stored_by (received username find_user fails kv to_upper user call db) db
            ≡ performed
                (adding username find_user fails kv user c.state.message c.state.post_permalink
                  c.state.description
                  (thread_id s c.state)
                  to)
                db)
  step-enter-adding pathname to_upper post put get user to c s team server db r known logged_in ne
        other =
      let props = props_of pathname c.world.state s team in
      let (c', steps, saved) = step-enter-IsSaved pathname c s team server r in
      (
        c',
        add c.state.message (text c.state.post_permalink) (text c.state.description)
            (recipient props c.state) (thread props c.state),
        steps,
        saved.sent_once,
        rw
            (
              received-asked username find_user fails kv to_upper post put get user _ db logged_in (
                  named user c.state.message c.state.post_permalink c.state.description to
                    (recipient props c.state) (thread props c.state) known other),
              asked-add user c.state.message c.state.post_permalink c.state.description to
                  (thread_id s c.state) (recipient props c.state) (thread props c.state) known
                  (text_of-thread props c.state) ne,
            )
            refl,
      )

  -- Let `post` be sent in upper case, let the add card of a user who is logged in be ready with a
  -- message that is not empty, and let the value that it has for the receiver be read as a name of
  -- the user's own. Enter sends one request, and once the server has received it, it has done what
  -- adding an issue to the own list does whose permalink is the card's description, whose
  -- description is the id of the card's thread, if it is attached to it, and whose post is the
  -- card's permalink.
  pub step-enter-displaced :
      (pathname : String → Option String) (to_upper : String → String)
      → to_upper "post" ≡ "POST"
      → (user to : String) (c : Card) (s : PluginState) (team server : String) (db : Db)
      → Ready pathname c.world s team server
      → text_of (recipient (props_of pathname c.world.state s team) c.state) ≡ some to
      → user ≢ ""
      → c.state.message ≢ ""
      → own_name username find_user fails kv user to ≡ true
      → (c' : Card) × (call : Call) × (step pathname c (key_down "Enter" false) ≡ some c')
        × (c'.world.requests ≡ c.world.requests ++ sent server call ∷ [])
        × (stored_by (received username find_user fails kv to_upper user call db) db
            ≡ performed
                (some (
                  Manager.add user c.state.message c.state.description
                    (thread_id s c.state)
                    c.state.post_permalink))
                db)
  step-enter-displaced pathname to_upper post user to c s team server db r known logged_in ne own =
      let props = props_of pathname c.world.state s team in
      let (c', steps, saved) = step-enter-IsSaved pathname c s team server r in
      (
        c',
        add c.state.message (text c.state.post_permalink) (text c.state.description)
            (recipient props c.state) (thread props c.state),
        steps,
        saved.sent_once,
        received-displaced username find_user fails kv to_upper post user c.state.message
            c.state.post_permalink c.state.description (thread_id s c.state) to
            (recipient props c.state) (thread props c.state) db logged_in ne known
            (text_of-thread props c.state) own,
      )
