-- ===== src/Bot/Answering.antt =====
-- Whether the receiver of an issue is offered the buttons of its post: server/bot.go,
-- server/plugin.go, server/list.go and webapp/src/components/post_type_todo.
use okrbest_plugin_todo.Common.{
  String, suc, Bool, true, false, Option, some, List, [], ◌∷◌, ◌++◌, ◌≡◌, ◌≢◌, refl, any, map,
  str_eq, eq_iff, concat, arith, Option-cases, inl, inr,
}
use okrbest_plugin_todo.ListStore.{IssueRef, ok}
use okrbest_plugin_todo.ListStore.Sequential.{new_ref}
use okrbest_plugin_todo.Db.{Issue, Db, refs, in_list_key, out_list_key}
use okrbest_plugin_todo.Db.Calm.{IsCalm}
use okrbest_plugin_todo.Db.Places.{Without}
use okrbest_plugin_todo.ListManager.Reading.{ExtendedIssue, sent_issue, get_issue_list}
use okrbest_plugin_todo.ListManager.Sending.{issue_of, sent, send_lem}
use okrbest_plugin_todo.ListManager.Showing.{stored, get_issue_list-reads}
use okrbest_plugin_todo.Preferences.{Kv}
use okrbest_plugin_todo.Handlers.{said_by}
use okrbest_plugin_todo.Handlers.Adding.{AddRequest, attached, handle_add, allows}
use okrbest_plugin_todo.Bot.{
  Host, Post, TodoProps, posted, post_of, post_bot_custom_dm, create_bot_post_dm,
}
use okrbest_plugin_todo.PostTypeTodo.{pending_answer, render, render_post, content_of}

-- the post about an issue, in a channel
abbrev pub todo_post : String → TodoProps → Post
todo_post channel props = record {
  channel_id = channel;
  message = concat (props.message ∷ ": " ∷ props.todo ∷ []);
  props = some props;
  root_id = "";
}

abbrev pub has_id : String → List Issue → Bool
has_id id = any (λ (i : Issue). str_eq i.id id)

-- What the web app looks for is in the issues that were read.
pub pending-has :
    (es : List ExtendedIssue) (id : String)
    → pending_answer (map sent_issue es) id ≡ has_id id (map (λ (e : ExtendedIssue). e.issue) es)
unfolding pending_answer sent_issue
pending-has [] id = refl
pending-has (e ∷ es) id = rw (pending-has es id) refl

has_id-last :
    (db : Db) (list : List IssueRef) (ir : IssueRef) (issue : Issue)
    → db.issues ir.issue_id ≡ some issue
    → has_id issue.id (stored db (list ++ ir ∷ [])) ≡ true
has_id-last db [] ir issue e = rw e (ground (arith, eq_iff issue.id issue.id))
has_id-last db (x ∷ xs) ir issue e = elim (Option-cases (db.issues x.issue_id)) [
  | inl f ↦ rw f (has_id-last db xs ir issue e)
  | inr (i, f) ↦ rw f (ground (arith, has_id-last db xs ir issue e))
]

-- A message of the bot with buttons is one post in the channel, in which the host can post.
pub custom_dm-posts :
    (host : Host) (user channel : String) (props : TodoProps)
    → host.direct_channel user ≡ some channel
    → host.creating_fails ≡ false
    → post_bot_custom_dm host user props.message props.todo props.post_permalink props.issue_id
      ≡ todo_post channel props ∷ []
unfolding post_bot_custom_dm create_bot_post_dm
custom_dm-posts host user channel props c f = rw (create_bot_post_dm, c, f) refl

-- The issue at the end of a list that is read is found there, by its own id.
pub last-pending :
    (username : String → Option String) (db : Db) (user list : String) (front : List IssueRef)
    (ir : IssueRef) (issue : Issue)
    → IsCalm db
    → refs db user list ≡ front ++ ir ∷ []
    → db.issues ir.issue_id ≡ some issue
    → (es : List ExtendedIssue) × (get_issue_list username user list db ≡ (ok es, db))
      × (pending_answer (map sent_issue es) issue.id ≡ true)
last-pending username db user list front ir issue h e i =
    let (es, reads, m) = get_issue_list-reads username db h user list in
    (es, reads, rw (pending-has es issue.id, m, e) (has_id-last db front ir issue i))

module _ (username : String → Option String) (find_user : String → Option (String × String))
    (fails : Bool) (kv : Kv) (host : Host) (formatted : String → String → String) where
  -- Let the host not fail, nor fail to post in the channel of the bot and the receiver. Let a
  -- request of the web app to add an issue have a message and a name of another user, who receives
  -- issues, and let the ids that are made next be on neither of the two lists that the issue is put
  -- on. The first thing that the bot posts is then a post in that channel with the issue's text and
  -- with an id of an issue that the receiver, who then reads the inbox, finds there, so that the
  -- web app shows the post with its buttons.
  pub handle_add-answerable :
      (user receiver full channel site_url : String) (done : Bool) (a : AddRequest) (db : Db)
      → IsCalm db
      → a.message ≢ ""
      → a.send_to ≢ ""
      → find_user a.send_to ≡ some (receiver, full)
      → receiver ≢ user
      → allows username fails receiver kv ≡ true
      → Without db user out_list_key (db.new_ids db.made)
      → Without db receiver in_list_key (db.new_ids (suc db.made))
      → host.direct_channel receiver ≡ some channel
      → host.creating_fails ≡ false
      → (let (response, after) = handle_add username find_user fails kv user (some a) db in
          (props : TodoProps) × (rest : List Post) × (es : List ExtendedIssue) × (posted host
              response.notices
            ≡ todo_post channel props ∷ rest)
          × (props.todo ≡ a.message)
          × (get_issue_list username receiver in_list_key after ≡ (ok es, after))
          × ((render_post formatted site_url
                (pending_answer (map sent_issue es) props.issue_id)
                done
                props).content
              ≡ some (content_of done)))
  unfolding handle_add posted post_of render_post render
  handle_add-answerable user receiver full channel site_url done a db h message send_to known other
        allowed out inbox c f =
      let valid : str_eq a.message "" ≡ false = ground (arith, eq_iff a.message "", message) in
      let given : str_eq a.send_to "" ≡ false = ground (arith, eq_iff a.send_to "", send_to) in
      let apart : str_eq receiver user ≡ false = ground (arith, eq_iff receiver user, other) in
      let s = db.new_ids db.made in
      let r = db.new_ids (suc db.made) in
      let copy : String → Issue =
        λ id. issue_of db id a.message a.post_permalink a.description a.post_id in
      let sent_text : String =
        concat
          (said_by username user " sent @" ∷ a.send_to ∷ " a todo attached to this thread" ∷ []) in
      let props : TodoProps = record {
        message = concat ("You have received a new Todo from " ∷ said_by username user "" ∷ []);
        todo = a.message;
        post_permalink = a.post_permalink;
        issue_id = r;
      } in
      let (es, reads, pending) =
        last-pending username (sent db user receiver copy s r) receiver in_list_key
          (refs db receiver in_list_key) (new_ref r user s) (copy r) h
          (ground (arith, eq_iff receiver receiver)) (ground (arith, eq_iff r r)) in
      rw
        (
          valid,
          given,
          known,
          apart,
          allowed,
          send_lem db user receiver a.message a.post_permalink a.description a.post_id h out inbox,
        )
        (
          props,
          posted host (attached username a sent_text),
          es,
          rw (custom_dm-posts host receiver channel props c f) refl,
          refl,
          reads,
          rw pending refl,
        )
