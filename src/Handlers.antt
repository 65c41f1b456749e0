-- ===== src/Handlers.antt =====
-- The HTTP handlers of server/plugin.go that change lists: what they answer, whom they tell, and
-- what is stored afterwards. A request is its decoded body, `none` where the body is no such JSON
-- or is null. A handler that panics has told some already; its panic is recovered from and logged.
-- What is tracked and logged is left out.
pub mod Adding
pub mod Panicking
pub mod Listing
pub mod Reminding
use okrbest_plugin_todo.Common.{
  String, ℕ, Bool, true, false, Option, none, some, List, [], ◌∷◌, ◌++◌, is_some, or_else, truthy,
  str_eq, concat, if◌then◌else◌, ◌≡◌, refl,
}
use okrbest_plugin_todo.ListStore.{Result, error, panic, ok}
use okrbest_plugin_todo.Db.{Db, Issue, my_list_key, in_list_key, out_list_key}
use okrbest_plugin_todo.ListManager.{
  add_issue, send_issue, complete_issue, edit_issue, change_assignment, accept_issue, remove_issue,
  bump_issue, with_permalink,
}
use okrbest_plugin_todo.ListManager.Reading.{get_user_name}
use okrbest_plugin_todo.Preferences.{Kv, get_allow_incoming_task_requests_preference}

-- an event for a user's web app, a message of the bot to a user, one with an issue, one in a
-- thread, or one in a channel that only the user sees
pub data Notice : Type 0 where
  refresh : (user : String) (lists : List String) → Notice
  dm : (user message : String) → Notice
  custom_dm : (user message todo post_permalink issue_id : String) → Notice
  reply : (post_id message todo post_permalink : String) → Notice
  ephemeral : (user channel message : String) → Notice

pub record Response : Type 0 where
  pub status : ℕ
  pub notices : List Notice
  pub panicked : Bool

abbrev pub done : List Notice → Response
done notices = record { status = 200; notices = notices; panicked = false }

abbrev pub refused : ℕ → Response
refused status = record { status = status; notices = []; panicked = false }

abbrev pub panics : List Notice → Response
panics notices = record { status = 200; notices = notices; panicked = true }

-- `postReplyIfNeeded`
abbrev pub reply_if_needed : String → String → Issue → List Notice
reply_if_needed post_id message issue =
    if truthy post_id then reply post_id message issue.message issue.post_permalink ∷ [] else []

-- An error of the lists is answered with 500; a panic tells nobody.
abbrev pub answered : {A : Type 0} → (A → Response) → Result A × Db → Response × Db
answered respond (error e, db) = (refused 500, db)
answered respond (panic, db) = (panics [], db)
answered respond (ok a, db) = (respond a, db)

-- The answer does not change what is stored.
pub answered-after : {A : Type 0} (f : A → Response) (r : Result A × Db) → (answered f r).1 ≡ r.1
answered-after f (error e, db) = refl
answered-after f (panic, db) = refl
answered-after f (ok a, db) = refl

-- A request that is not valid is answered with 400; `IsValid` of most requests asks for an id.
abbrev pub with_id : Option String → (String → Db → Response × Db) → Db → Response × Db
with_id none handle db = (refused 400, db)
with_id (some id) handle db = if truthy id then handle id db else (refused 400, db)

module _ (username : String → Option String) where
  abbrev pub said_by : String → String → String
  unfolding get_user_name
  said_by user text = concat ("@" ∷ get_user_name username user ∷ text ∷ [])

  -- `handleComplete`, once the issue is completed: it reads the issue that it was given, if any
  unfoldable pub completed : String → Option Issue × String × String → Response
  unfolding get_user_name
  completed user (none, foreign, list) = panics (refresh user (list ∷ []) ∷ [])
  completed user (some issue, foreign, list) = done (
      refresh user (list ∷ [])
        ∷ reply_if_needed issue.post_id (said_by user " completed a todo attached to this thread")
            issue
      ++ (if str_eq foreign ""
          then []
          else refresh foreign (out_list_key ∷ [])
            ∷ dm foreign
                (concat (said_by user " completed a Todo you sent: " ∷ with_permalink issue ∷ []))
            ∷ []))

  unfoldable pub handle_complete : String → Option String → Db → Response × Db
  unfolding completed complete_issue
  handle_complete user request =
      with_id request (λ id db. answered (completed user) (complete_issue user id db))

  -- `handleRemove`, once the issue is removed
  unfoldable pub removed : String → Option Issue × String × Bool × String → Response
  unfolding get_user_name
  removed user (none, foreign, is_sender, list) = panics (refresh user (list ∷ []) ∷ [])
  removed user (some issue, foreign, is_sender, list) =
      let what =
        if is_sender then " declined a Todo you sent: " else " removed a Todo you received: " in
      let message = concat (said_by user what ∷ issue.message ∷ []) in
      done (
        refresh user (list ∷ [])
          ∷ reply_if_needed issue.post_id (said_by user " removed a todo attached to this thread")
              issue
        ++ (if str_eq foreign ""
            then []
            else refresh foreign ((if is_sender then out_list_key else in_list_key) ∷ [])
              ∷ dm foreign (with_permalink (record issue { message = message }))
              ∷ []))

  unfoldable pub handle_remove : String → Option String → Db → Response × Db
  unfolding removed remove_issue
  handle_remove user request =
      with_id request (λ id db. answered (removed user) (remove_issue user id db))

  -- `handleBump`, once the issue is bumped; with no issue there is no other user either
  unfoldable pub bumped : String → Option Issue × String × String → Response
  unfolding get_user_name
  bumped user (todo, foreign, id) = if str_eq foreign "" then done [] else elim todo [
    | none ↦ panics (refresh foreign (in_list_key ∷ []) ∷ [])
    | some issue ↦ done (
        refresh foreign (in_list_key ∷ [])
        ∷ custom_dm foreign (said_by user " bumped a Todo you received.") issue.message
            issue.post_permalink id
        ∷ [])
  ]

  unfoldable pub handle_bump : String → Option String → Db → Response × Db
  unfolding bumped bump_issue
  handle_bump user request =
      with_id request (λ id db. answered (bumped user) (bump_issue user id db))

  -- `handleAccept`, once the issue is accepted
  unfoldable pub accepted : String → String × String → Response
  unfolding get_user_name
  accepted user (message, sender) = done (
      refresh user (my_list_key ∷ in_list_key ∷ [])
      ∷ refresh sender (out_list_key ∷ [])
      ∷ dm sender (concat (said_by user " accepted a Todo you sent: " ∷ message ∷ []))
      ∷ [])

  unfoldable pub handle_accept : String → Option String → Db → Response × Db
  unfolding accepted accept_issue
  handle_accept user request =
      with_id request (λ id db. answered (accepted user) (accept_issue user id db))
