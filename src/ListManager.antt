-- ===== src/ListManager.antt =====
-- server/list.go: the lists of issues, over the operations of the store.
pub mod Reading
pub mod Completing
pub mod Failing
pub mod Restoring
pub mod Returning
pub mod Keeping
pub mod Safe
pub mod Requests
pub mod Accepting
pub mod Removing
pub mod Assigning
pub mod Editing
pub mod Showing
pub mod Listing
pub mod Sending
use okrbest_plugin_todo.Common.{
  String, ℕ, Bool, true, false, not, ◌&&◌, ◌||◌, Option, none, some, List, [], ◌∷◌, or_else, truthy,
  str_eq, concat, if◌then◌else◌,
}
use okrbest_plugin_todo.ListStore.{IssueRef}
use okrbest_plugin_todo.Db
use okrbest_plugin_todo.Db.{
  Issue, M, pure, fail, ◌>>=◌, ◌>>◌, attempt, or_roll_back, log_error, my_list_key, in_list_key,
  out_list_key, new_issue, save_issue, get_issue, get_and_remove_issue, get_list, add_reference,
  remove_reference, pop_reference, bump_reference, get_issue_reference,
  get_issue_list_and_reference,
}

unfoldable pub add_issue : String → String → String → String → String → M Issue
unfolding new_issue save_issue add_reference Db.remove_issue
add_issue user message post_permalink description post_id = do
  issue ← new_issue message post_permalink description post_id
  save_issue issue
  or_roll_back (add_reference user issue.id my_list_key "" "")
      (log_error (Db.remove_issue issue.id))
  pure issue

unfoldable pub send_issue : String → String → String → String → String → String → M String
unfolding new_issue save_issue add_reference Db.remove_issue remove_reference
send_issue sender receiver message post_permalink description post_id = do
  sent ← new_issue message post_permalink description post_id
  save_issue sent
  received ← new_issue message post_permalink description post_id
  or_roll_back (save_issue received) (log_error (Db.remove_issue sent.id))
  or_roll_back (add_reference sender sent.id out_list_key receiver received.id)
      (log_error (Db.remove_issue sent.id) >> log_error (Db.remove_issue received.id))
  or_roll_back (add_reference receiver received.id in_list_key sender sent.id) (
      log_error (Db.remove_issue sent.id)
      >> log_error (Db.remove_issue received.id)
      >> log_error (remove_reference sender sent.id out_list_key))
  pure received.id

-- What completing, removing and popping share: the other user's issue goes as well, and the issue
-- that is returned is then that one, or nil.
abbrev pub clean_foreign :
    {A : Type 0} → (list : String) → IssueRef → Option Issue → (Option Issue → String → A) → M A
clean_foreign list ir issue result =
    if str_eq ir.foreign_user_id ""
    then pure (result issue "")
    else (log_error (remove_reference ir.foreign_user_id ir.foreign_issue_id list)
        >> (attempt (get_and_remove_issue ir.foreign_issue_id) >>= λ foreign_issue.
            pure (result foreign_issue ir.foreign_user_id)))

-- the issue, the other user, and the list that it was on
unfoldable pub complete_issue : String → String → M (Option Issue × String × String)
unfolding get_issue_list_and_reference remove_reference get_and_remove_issue
complete_issue user issue_id = do
  found ← get_issue_list_and_reference user issue_id
  elim found.1 [
    | none ↦ fail "cannot find element"
    | some (ir, n) ↦ do
      remove_reference user issue_id found.0
      issue ← attempt (get_and_remove_issue issue_id)
      clean_foreign out_list_key ir issue (λ i other. (i, other, found.0))
  ]

abbrev pub edited : String → String → Issue → Issue
edited new_message new_description issue = record issue {
  message = new_message;
  description = new_description;
}

-- The other user's issue is edited as well, if there is one, and its old message returned.
abbrev pub edit_foreign : String → String → String → M String
edit_foreign new_message new_description id =
    if str_eq id ""
    then pure ""
    else (attempt (get_issue id) >>= λ foreign_issue. elim foreign_issue [
      | none ↦ pure ""
      | some f ↦
          log_error (save_issue (edited new_message new_description f)) >>= λ _. pure f.message
    ])

-- what was edited: the other user, the list, and the message that the other user's issue had
unfoldable pub edit_issue : String → String → String → String → M (String × String × String)
unfolding get_issue save_issue get_issue_list_and_reference
edit_issue user issue_id new_message new_description = do
  issue ← get_issue issue_id
  found ← get_issue_list_and_reference user issue_id
  elim found.1 [
    | none ↦ fail "reference not found"
    | some (ir, n) ↦ do
      old_message ← edit_foreign new_message new_description ir.foreign_issue_id
      save_issue (edited new_message new_description issue)
      pure (ir.foreign_user_id, found.0, old_message)
  ]

-- the first steps of `ChangeAssignment`: taking the issue back from whom it was sent to
unfoldable pub take_back : IssueRef → M (Unit {0})
unfolding get_issue_list_and_reference remove_reference get_and_remove_issue
take_back ir =
    if str_eq ir.foreign_user_id ""
    then pure tt
    else (get_issue_list_and_reference ir.foreign_user_id ir.foreign_issue_id >>= λ found.
        elim found.1 [
          | none ↦ fail "reference not found"
          | some _ ↦
              remove_reference ir.foreign_user_id ir.foreign_issue_id found.0
              >> log_error (get_and_remove_issue ir.foreign_issue_id)
        ])

-- the rest of it, for an issue on a list of the user
unfoldable pub reassign : Issue → String → String → String → String → IssueRef → M (Issue × String)
unfolding remove_reference add_reference new_issue save_issue
reassign issue issue_id user send_to list ir =
    if str_eq user send_to && str_eq list out_list_key
    then (remove_reference user issue_id out_list_key
        >> add_reference user issue_id my_list_key "" ""
        >> pure (issue, ir.foreign_user_id))
    else (do
      if not (str_eq user send_to) then remove_reference user issue_id list else pure tt
      received ← new_issue issue.message issue.post_permalink issue.description issue.post_id
      save_issue received
      add_reference user issue_id out_list_key send_to received.id
      add_reference send_to received.id in_list_key user issue.id
      pure (issue, ir.foreign_user_id))

unfoldable pub change_assignment : String → String → String → M (Issue × String)
unfolding get_issue get_issue_list_and_reference take_back reassign
change_assignment issue_id user send_to = do
  issue ← get_issue issue_id
  found ← get_issue_list_and_reference user issue_id
  elim found.1 [
    | none ↦ fail "reference not found"
    | some (ir, n) ↦
        if str_eq found.0 in_list_key
          || (not (str_eq ir.foreign_issue_id "") && str_eq found.0 my_list_key)
        then fail "trying to change the assignment of a todo not owned"
        else (take_back ir >> reassign issue issue_id user send_to found.0 ir)
  ]

abbrev pub with_permalink : Issue → String
with_permalink issue =
    if truthy issue.post_permalink
    then concat (issue.message ∷ "\n[Permalink](" ∷ issue.post_permalink ∷ ")" ∷ [])
    else issue.message

-- the message, with the permalink if there is one, and the other user
unfoldable pub accept_issue : String → String → M (String × String)
unfolding get_issue get_issue_reference add_reference remove_reference
accept_issue user issue_id = do
  issue ← get_issue issue_id
  found ← get_issue_reference user issue_id in_list_key
  add_reference user issue_id my_list_key found.0.foreign_user_id found.0.foreign_issue_id
  or_roll_back (remove_reference user issue_id in_list_key)
      (log_error (remove_reference user issue_id my_list_key))
  pure (with_permalink issue, found.0.foreign_user_id)

-- the issue, the other user, whether that one is the sender, and the list that it was on
unfoldable pub remove_issue : String → String → M (Option Issue × String × Bool × String)
unfolding get_issue_list_and_reference remove_reference get_and_remove_issue
remove_issue user issue_id = do
  found ← get_issue_list_and_reference user issue_id
  elim found.1 [
    | none ↦ fail "cannot find element"
    | some (ir, n) ↦ do
      remove_reference user issue_id found.0
      issue ← attempt (get_and_remove_issue issue_id)
      if str_eq ir.foreign_user_id ""
          then pure (issue, "", false, found.0)
          else (get_issue_list_and_reference ir.foreign_user_id ir.foreign_issue_id >>= λ foreign.
              clean_foreign foreign.0 ir issue
                (λ i other. (i, other, str_eq foreign.0 out_list_key, found.0)))
  ]

unfoldable pub pop_issue : String → M (Option Issue × String)
unfolding pop_reference get_and_remove_issue remove_reference
pop_issue user = do
  ir ← pop_reference user my_list_key
  issue ← attempt (get_and_remove_issue ir.issue_id)
  clean_foreign out_list_key ir issue (λ i other. (i, other))

-- the receiver's issue, the receiver, and the issue's id; nothing if that issue is not there
unfoldable pub bump_issue : String → String → M (Option Issue × String × String)
unfolding get_issue_reference bump_reference get_issue
bump_issue user issue_id = do
  found ← get_issue_reference user issue_id out_list_key
  bump_reference found.0.foreign_user_id found.0.foreign_issue_id in_list_key
  issue ← attempt (get_issue found.0.foreign_issue_id)
  pure (elim issue [
    | none ↦ (none, "", "")
    | some i ↦ (some i, found.0.foreign_user_id, found.0.foreign_issue_id)
  ])
