-- ===== src/Bot/Giving.antt =====
-- The post about an issue that was given to somebody: `handleChangeAssignment` of server/plugin.go,
-- with server/bot.go and webapp/src/components/post_type_todo.
use mathlib.Core.Option.{some-injective}
use okrbest_plugin_todo.Common.{
  String, Bool, false, Option, none, some, List, [], ◌∷◌, ◌++◌, ◌≡◌, ◌≢◌, refl, sym, ap, ◌∙◌, All,
  map, str_eq, eq_iff, concat, arith, Option-cases, Bool-cases, inl, inr,
}
use okrbest_plugin_todo.ListStore.{IssueRef, ok}
use okrbest_plugin_todo.ListStore.Bumping.{IsOther}
use okrbest_plugin_todo.ListStore.Sequential.{new_ref}
use okrbest_plugin_todo.Db.{
  Issue, Db, refs, put_issue, put_list, in_list_key, out_list_key, my_list_key,
}
use okrbest_plugin_todo.Db.Calm.{IsCalm}
use okrbest_plugin_todo.Db.Places.{At, Without}
use okrbest_plugin_todo.ListManager.Reading.{ExtendedIssue, sent_issue, get_issue_list}
use okrbest_plugin_todo.ListManager.Sending.{issue_of}
use okrbest_plugin_todo.ListManager.Assigning.{given, change_assignment_other}
use okrbest_plugin_todo.ListManager.Showing.{stored, get_issue_list-reads}
use okrbest_plugin_todo.Handlers.{said_by}
use okrbest_plugin_todo.Handlers.Adding.{handle_change_assignment}
use okrbest_plugin_todo.Bot.{Host, TodoProps, posted, post_of}
use okrbest_plugin_todo.Bot.Answering.{todo_post, has_id, pending-has, custom_dm-posts}
use okrbest_plugin_todo.PostTypeTodo.{pending_answer, render, render_post}

-- Each issue is stored under its own id.
abbrev pub AreNamed : Db → Type 0
AreNamed db = (k : String) (i : Issue) → db.issues k ≡ some i → i.id ≡ k

has_id-none :
    (db : Db) (id : String) (list : List IssueRef)
    → AreNamed db
    → All (IsOther id) list
    → has_id id (stored db list) ≡ false
has_id-none db id [] named other = refl
has_id-none db id (x ∷ xs) named other = elim (Option-cases (db.issues x.issue_id)) [
  | inl f ↦ rw (stored, f) (has_id-none db id xs named other.1)
  | inr (i, f) ↦
      rw (stored, f)
        (ground (
          arith,
          has_id-none db id xs named other.1,
          named x.issue_id i f,
          other.0,
          eq_iff i.id id,
        ))
]

pub put-named :
    (issues : String → Option Issue) (id : String) (issue : Issue)
    → issue.id ≡ id
    → ((k : String) (i : Issue) → issues k ≡ some i → i.id ≡ k)
    → (k : String) (i : Issue) → put_issue id (some issue) issues k ≡ some i
    → i.id ≡ k
put-named issues id issue own named k i e = elim (Bool-cases (str_eq id k)) [
  | inl same ↦
      let shown : some issue ≡ some i = ground (arith, e, same) in
      ap (λ (j : Issue). j.id) (sym (some-injective issue i shown)) ∙ own ∙ (eq_iff id k).0 same
  | inr other ↦ named k i (ground (arith, e, other))
]

All-last :
    (id : String) (list : List IssueRef) (ir : IssueRef)
    → All (IsOther id) list
    → IsOther id ir
    → All (IsOther id) (list ++ ir ∷ [])
All-last id [] ir h o = (o, tt)
All-last id (x ∷ xs) ir h o = (h.0, All-last id xs ir h.1 o)

-- An issue that no reference of a list is of is not found on the list.
not-pending :
    (username : String → Option String) (db : Db) (user list id : String)
    → IsCalm db
    → AreNamed db
    → Without db user list id
    → (es : List ExtendedIssue) × (get_issue_list username user list db ≡ (ok es, db))
      × (pending_answer (map sent_issue es) id ≡ false)
not-pending username db user list id h named without =
    let (es, reads, m) = get_issue_list-reads username db h user list in
    (es, reads, rw (pending-has es id, m) (has_id-none db id (refs db user list) named without))

module _ (username : String → Option String) (find_user : String → Option (String × String))
    (host : Host) (formatted : String → String → String) where
  -- Let the host not fail, nor fail to post in the channel of the bot and the receiver, and let
  -- each issue be stored under its own id. Let an issue be stored, whose id is not empty, let the
  -- own list of a user have one reference of it, with no other user, and the list of sent issues
  -- none, and let the inbox of another user have none either, nor one of the id that is made next,
  -- which is another id. When the issue is given to this other user by name, the one post of the
  -- bot is in that channel and has the id of the giver's issue. It is not in the inbox that the
  -- receiver then reads, so that the receiver is shown the post without its buttons.
  pub handle_change_assignment-unanswerable :
      (user receiver full channel site_url id send_to : String) (done : Bool) (db : Db)
      (front back : List IssueRef) (ir : IssueRef) (issue : Issue)
      → IsCalm db
      → AreNamed db
      → At db user my_list_key id front ir back
      → (ir.foreign_user_id ≡ "") × (ir.foreign_issue_id ≡ "")
      → db.issues id ≡ some issue
      → Without db user out_list_key id
      → Without db receiver in_list_key (db.new_ids db.made)
      → Without db receiver in_list_key id
      → db.new_ids db.made ≢ id
      → id ≢ ""
      → send_to ≢ ""
      → find_user send_to ≡ some (receiver, full)
      → user ≢ receiver
      → host.direct_channel receiver ≡ some channel
      → host.creating_fails ≡ false
      → (let (response, after) =
            handle_change_assignment username find_user user (some (id, send_to)) db in
          (props : TodoProps) × (es : List ExtendedIssue) × (posted host response.notices
            ≡ todo_post channel props ∷ [])
          × (props.issue_id ≡ id)
          × (get_issue_list username receiver in_list_key after ≡ (ok es, after))
          × ((render_post formatted site_url
                (pending_answer (map sent_issue es) props.issue_id)
                done
                props).content
              ≡ none))
  unfolding handle_change_assignment posted post_of render_post render
  handle_change_assignment-unanswerable user receiver full channel site_url id send_to done db front
        back ir issue h named at own i out inbox absent new filled to known other c f =
      let valid : str_eq id "" ≡ false = ground (arith, eq_iff id "", filled) in
      let addressed : str_eq send_to "" ≡ false = ground (arith, eq_iff send_to "", to) in
      let apart : str_eq receiver user ≡ false = ground (arith, eq_iff receiver user, other) in
      let r = db.new_ids db.made in
      let copy : Issue =
        issue_of db r issue.message issue.post_permalink issue.description issue.post_id in
      let taken : Db = record db { lists = put_list user my_list_key (front ++ back) db.lists } in
      let after : Db = given taken user receiver id r copy in
      let props : TodoProps = record {
        message = concat ("You have received a new Todo from " ∷ said_by username user "" ∷ []);
        todo = issue.message;
        post_permalink = issue.post_permalink;
        issue_id = id;
      } in
      let kept : refs after receiver in_list_key
          ≡ refs db receiver in_list_key ++ new_ref r user id ∷ [] =
        ground (arith, eq_iff receiver receiver) in
      let (es, reads, pending) =
        not-pending username after receiver in_list_key id h (put-named db.issues r copy refl named)
          (rw kept (All-last id (refs db receiver in_list_key) (new_ref r user id) absent new)) in
      rw
        (
          valid,
          addressed,
          known,
          change_assignment_other db user receiver id front back ir issue h at own i
              (named id issue i) out inbox other,
          apart,
        )
        (
          props,
          es,
          rw (custom_dm-posts host receiver channel props c f) refl,
          refl,
          reads,
          rw pending refl,
        )
