-- ===== src/Examples/Posts.antt =====
-- The posts of the bot at concrete data.
use okrbest_plugin_todo.Common.{
  String, true, false, none, some, List, [], ◌∷◌, ◌≡◌, ◌≢◌, refl, map, str_eq, eq_iff, arith,
  if◌then◌else◌,
}
use okrbest_plugin_todo.ListStore.{ok}
use okrbest_plugin_todo.Db.{in_list_key}
use okrbest_plugin_todo.ListManager.Reading.{ExtendedIssue, sent_issue, get_issue_list}
use okrbest_plugin_todo.ListManager.Sending.{issue_of}
use okrbest_plugin_todo.Handlers.{dm, reply}
use okrbest_plugin_todo.Handlers.Adding.{handle_add, handle_change_assignment, allows}
use okrbest_plugin_todo.Bot.{
  Host, Post, TodoProps, posted, post_of, reply_post_bot, post_bot_dm, create_bot_post_dm,
}
use okrbest_plugin_todo.Bot.Answering.{todo_post, handle_add-answerable}
use okrbest_plugin_todo.Bot.Giving.{AreNamed, put-named, handle_change_assignment-unanswerable}
use okrbest_plugin_todo.PostTypeTodo.{pending_answer, render_post, content_of}
use okrbest_plugin_todo.Commands.Storing.{asking}
use okrbest_plugin_todo.Examples.Requests.{empty_db, own_db, own_ref, own-At}
use okrbest_plugin_todo.Examples.Commands.{nobody, nothing, found}

-- direct channels are named by the user, and `p1` is a post in a thread
abbrev host : Host
host = record {
  direct_channel = λ user. some user;
  get_post = λ id. if str_eq id "p1" then some ("p1", "town", "p0") else none;
  creating_fails = false;
}

posted_town :
    posted host
      (dm "ann" "hi" ∷ reply "p1" "done" "milk" "/pl/p1" ∷ reply "p2" "done" "milk" "" ∷ [])
    ≡ record { channel_id = "ann"; message = "hi"; props = none; root_id = "" }
      ∷ record {
        channel_id = "town";
        message = "done\n> milk\n> [Permalink](/pl/p1)";
        props = none;
        root_id = "p0";
      }
      ∷ []
unfolding posted post_of reply_post_bot post_bot_dm create_bot_post_dm
posted_town = refl

abbrev plain : String → String → String
plain site_url s = s

differ : ◌≢◌ {A = String} "milk" ""
differ = ground (arith, eq_iff "milk" "")

bob-nil : ◌≢◌ {A = String} "bob" ""
bob-nil = ground (arith, eq_iff "bob" "")

bob-ann : ◌≢◌ {A = String} "bob" "ann"
bob-ann = ground (arith, eq_iff "bob" "ann")

ann-bob : ◌≢◌ {A = String} "ann" "bob"
ann-bob = ground (arith, eq_iff "ann" "bob")

allowed : allows nobody false "bob" nothing ≡ true
unfolding allows
allowed = refl

handle_add-answerable_example :
    let (response, after) =
      handle_add nobody found false nothing "ann" (some (asking "milk" "bob")) empty_db in
    (props : TodoProps) × (rest : List Post) × (es : List ExtendedIssue) × (posted host
        response.notices
      ≡ todo_post "bob" props ∷ rest)
    × (props.todo ≡ "milk")
    × (get_issue_list nobody "bob" in_list_key after ≡ (ok es, after))
    × ((render_post plain ""
          (pending_answer (map sent_issue es) props.issue_id)
          false
          props).content
        ≡ some (content_of false))
handle_add-answerable_example =
    handle_add-answerable nobody found false nothing host plain "ann" "bob" "bob" "bob" "" false
      (asking "milk" "bob") empty_db refl differ bob-nil refl bob-ann allowed tt tt refl refl

own-named : AreNamed own_db
own-named =
    put-named empty_db.issues "i9" (issue_of empty_db "i9" "milk" "" "" "") refl
      (λ k i e. ground (arith, e))

i0-i9 : ◌≢◌ {A = String} "i0" "i9"
i0-i9 = ground (arith, eq_iff "i0" "i9")

i9-nil : ◌≢◌ {A = String} "i9" ""
i9-nil = ground (arith, eq_iff "i9" "")

handle_change_assignment-unanswerable_example :
    let (response, after) =
      handle_change_assignment nobody found "ann" (some ("i9", "bob")) own_db in
    (props : TodoProps) × (es : List ExtendedIssue) × (posted host response.notices
      ≡ todo_post "bob" props ∷ [])
    × (props.issue_id ≡ "i9")
    × (get_issue_list nobody "bob" in_list_key after ≡ (ok es, after))
    × ((render_post plain ""
          (pending_answer (map sent_issue es) props.issue_id)
          false
          props).content
        ≡ none)
handle_change_assignment-unanswerable_example =
    handle_change_assignment-unanswerable nobody found host plain "ann" "bob" "bob" "bob" "" "i9"
      "bob" false own_db [] [] own_ref (issue_of empty_db "i9" "milk" "" "" "") refl own-named
      own-At (refl, refl) refl tt tt tt i0-i9 i9-nil bob-nil refl ann-bob refl refl
