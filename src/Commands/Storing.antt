-- ===== src/Commands/Storing.antt =====
-- What `/todo add` and `/todo send` store is what the web app's request to add an issue stores:
-- server/command.go and server/plugin.go.
use text.Mathlib.TextLemmas.{append-ne-nil_of_right_ne-nil}
use okrbest_plugin_todo.Common.{
  String, ℕ, Bool, false, Option, some, List, [], ◌∷◌, ◌≡◌, ◌≢◌, refl, sym, ◌∙◌, subst, drop,
  Option-cases, Bool-cases, inl, inr, str_eq, eq_iff, arith,
}
use okrbest_plugin_todo.ListStore.{Result, error, panic, ok}
use okrbest_plugin_todo.Db.{Db, Issue, my_list_key}
use okrbest_plugin_todo.Db.Calm.{IsCalm, IsCalm-IsInvariant}
use okrbest_plugin_todo.ListManager.{add_issue, send_issue}
use okrbest_plugin_todo.ListManager.Keeping.{add_issue-Keeps}
use okrbest_plugin_todo.ListManager.Showing.{get_issue_list-reads}
use okrbest_plugin_todo.Preferences.{Kv}
use okrbest_plugin_todo.Handlers.{answered-after}
use okrbest_plugin_todo.Handlers.Adding.{AddRequest, handle_add, allows}
use okrbest_plugin_todo.Commands.Handling.{CommandArgs, Failures}
use okrbest_plugin_todo.Commands.Lists.{
  with_list, added, sent, run_add_command, send_to, run_send_command, user_name,
}
use okrbest_plugin_todo.Commands.{execute_words, execute_command, run_subcommand}
use okrbest_plugin_todo.Commands.Words.{command_words, join}
use okrbest_plugin_todo.Commands.Words.Filled.{AreFilled, command_words-AreFilled}

-- the request of the web app with only a message and a receiver
abbrev pub asking : String → String → AddRequest
asking message send_to = record {
  message = message;
  description = "";
  send_to = send_to;
  post_permalink = "";
  post_id = "";
}

join-filled :
    (word : String) (words : List String) → AreFilled (word ∷ words) → join (word ∷ words) ≢ ""
unfolding join
join-filled word [] h = h.0
join-filled word (next ∷ words) h =
    append-ne-nil_of_right_ne-nil word
      (append-ne-nil_of_right_ne-nil " " (join-filled next words h.1))

module _ (username : String → Option String) (format_date : ℕ → String)
    (find_user : String → Option (String × String)) (fails : Bool) (kv : Kv) where
  added-after :
      (extra : CommandArgs) (r : Result Issue × Db)
      → IsCalm r.1
      → (added username format_date extra r).1 ≡ r.1
  unfolding added with_list
  added-after extra (error e, db) h = refl
  added-after extra (panic, db) h = refl
  added-after extra (ok new, db) h =
      let (es, e, m) = get_issue_list-reads username db h extra.user_id my_list_key in rw e refl

  sent-after :
      (extra : CommandArgs) (receiver name message : String) (r : Result String × Db)
      → (sent username format_date extra receiver name message r).1 ≡ r.1
  unfolding sent
  sent-after extra receiver name message (error e, db) = refl
  sent-after extra receiver name message (panic, db) = refl
  sent-after extra receiver name message (ok id, db) = refl

  run_add_command-after :
      (args : List String) (extra : CommandArgs) (db : Db)
      → IsCalm db
      → join args ≢ ""
      → (run_add_command username format_date args extra db).1
        ≡ (add_issue extra.user_id (join args) "" "" "" db).1
  unfolding run_add_command
  run_add_command-after args extra db h ne =
      let filled : str_eq (join args) "" ≡ false = ground (arith, eq_iff (join args) "", ne) in
      rw filled (
        added-after extra (add_issue extra.user_id (join args) "" "" "" db) (
          (add_issue-Keeps IsCalm IsCalm-IsInvariant extra.user_id (join args) "" "" "").after db
            h))

  add-stores :
      (args : List String) (extra : CommandArgs) (db : Db)
      → IsCalm db
      → join args ≢ ""
      → (run_add_command username format_date args extra db).1
        ≡ (handle_add username find_user fails kv extra.user_id (some (asking (join args) "")) db).1
  unfolding handle_add
  add-stores args extra db h ne =
      let filled : str_eq (join args) "" ≡ false = ground (arith, eq_iff (join args) "", ne) in
      rw filled (
        run_add_command-after args extra db h ne
        ∙ sym (answered-after _ (add_issue extra.user_id (join args) "" "" "" db)))

  run_send_command-named :
      (target name word : String) (words : List String) (extra : CommandArgs) (db : Db)
      → user_name target ≡ some name
      → run_send_command username format_date find_user fails kv (target ∷ word ∷ words) extra db
        ≡ send_to username format_date find_user fails kv name (word ∷ words) extra db
  unfolding run_send_command
  run_send_command-named target name word words extra db t = rw (run_send_command, t) refl

  send-stores :
      (target name word : String) (words : List String) (extra : CommandArgs) (db : Db)
      → IsCalm db
      → AreFilled (word ∷ words)
      → user_name target ≡ some name
      → name ≢ ""
      → (run_send_command username format_date find_user fails kv
          (target ∷ word ∷ words)
          extra
          db).1
        ≡ (handle_add username find_user fails kv extra.user_id
            (some (asking (join (word ∷ words)) name))
            db).1
  unfolding handle_add send_to
  send-stores target name word words extra db h f t ne =
      let message = join (word ∷ words) in
      let filled : str_eq message "" ≡ false =
        ground (arith, eq_iff message "", join-filled word words f) in
      let given : str_eq name "" ≡ false = ground (arith, eq_iff name "", ne) in
      rw (run_send_command-named target name word words extra db t, filled, given)
        (elim (Option-cases (find_user name)) [
          | inl e ↦ rw (send_to, e) refl
          | inr ((receiver, full), e) ↦ elim (Bool-cases (str_eq receiver extra.user_id)) [
            | inl own ↦
                rw (send_to, e, own)
                  (run_add_command-after (word ∷ words) extra db h (join-filled word words f)
                    ∙ sym (answered-after _ (add_issue extra.user_id message "" "" "" db)))
            | inr other ↦ elim (Bool-cases (allows username fails receiver kv)) [
              | inl allowed ↦
                  rw (send_to, e, other, allowed)
                    (sent-after extra receiver name message
                        (send_issue extra.user_id receiver message "" "" "" db)
                      ∙ sym (
                          answered-after _ (send_issue extra.user_id receiver message "" "" "" db)))
              | inr blocked ↦ rw (send_to, e, other, blocked) refl
            ]
          ]
        ])

  -- While the host does not fail: a command with the words `add` and some more stores what a
  -- request of the web app stores that adds an issue with these words, joined by spaces, as its
  -- message.
  pub execute_add-handle_add :
      (failures : Failures) (extra : CommandArgs) (db : Db) (trigger word : String)
      (words : List String)
      → IsCalm db
      → command_words extra.command ≡ trigger ∷ "add" ∷ word ∷ words
      → (execute_command username format_date find_user failures extra kv db).2
        ≡ (handle_add username find_user fails kv extra.user_id
            (some (asking (join (word ∷ words)) ""))
            db).1
  unfolding execute_command execute_words run_subcommand
  execute_add-handle_add failures extra db trigger word words h e =
      let f : AreFilled ("add" ∷ word ∷ words) =
        subst (λ ws. AreFilled (drop 1 ws)) e (command_words-AreFilled extra.command) in
      rw e (add-stores (word ∷ words) extra db h (join-filled word words f.1))

  -- While the host does not fail when it stores lists and issues: a command with the word `send`, a
  -- name, with or without an `@` before it, and some more words stores what a request of the web
  -- app stores that adds an issue for the user of this name, with these words, joined by spaces, as
  -- its message. This is so whoever that user is, whether or not they receive issues, where there
  -- is no such user, and where the host fails to read the user's preference at both.
  pub execute_send-handle_add :
      (failures : Failures) (extra : CommandArgs) (db : Db) (trigger target name word : String)
      (words : List String)
      → IsCalm db
      → failures.reading_incoming ≡ fails
      → command_words extra.command ≡ trigger ∷ "send" ∷ target ∷ word ∷ words
      → user_name target ≡ some name
      → name ≢ ""
      → (execute_command username format_date find_user failures extra kv db).2
        ≡ (handle_add username find_user fails kv extra.user_id
            (some (asking (join (word ∷ words)) name))
            db).1
  unfolding execute_command execute_words run_subcommand
  execute_send-handle_add failures extra db trigger target name word words h r e t ne =
      let f : AreFilled ("send" ∷ target ∷ word ∷ words) =
        subst (λ ws. AreFilled (drop 1 ws)) e (command_words-AreFilled extra.command) in
      rw (e, r) (send-stores target name word words extra db h f.1.1 t ne)
