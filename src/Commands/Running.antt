-- ===== src/Commands/Running.antt =====
-- What subcommands leave in the store, and that they do not panic: server/command.go.
use Prim.Native.Char.{code}
use Prim.Native.String.{[] as nil, ◌∷◌ as cons}
use okrbest_plugin_todo.Common.{
  if◌then◌else◌, refl, concat, nat_eq, String, ℕ, Bool, true, false, Option, none, some, List, [],
  ◌∷◌, ◌≡◌, ◌∙◌, str_eq, not,
}
use okrbest_plugin_todo.ListStore.{Result, error, panic, is_panic, ok}
use okrbest_plugin_todo.Db.{Db, Issue, my_list_key}
use okrbest_plugin_todo.Db.Keeping.{IsInvariant}
use okrbest_plugin_todo.ListManager.{add_issue, send_issue, pop_issue}
use okrbest_plugin_todo.ListManager.Keeping.{add_issue-Keeps, send_issue-Keeps, pop_issue-Keeps}
use okrbest_plugin_todo.ListManager.Reading.{ExtendedIssue, get_issue_list}
use okrbest_plugin_todo.ListManager.Listing.{get_issue_list-Keeps}
use okrbest_plugin_todo.Preferences.{Kv}
use okrbest_plugin_todo.Handlers.{Notice}
use okrbest_plugin_todo.Handlers.Adding.{allows}
use okrbest_plugin_todo.Commands.Handling.{CommandArgs, Ran, respond}
use okrbest_plugin_todo.Commands.Texts.{get_help}
use okrbest_plugin_todo.Commands.Words.Filled.{AreFilled}
use okrbest_plugin_todo.Commands.Lists.{
  added, with_list, listed, flagged, popped, sent, run_add_command, run_list_command,
  run_pop_command, send_to, run_send_command, user_name, including,
}
use okrbest_plugin_todo.Commands.Words.{join}

-- Where the store has the property, the operations that the handlers call do not panic.
pub record Finish (username : String → Option String) (P : Db → Type 0) : Type 0 where
  pub adding :
      (user message : String) (db : Db)
      → P db
      → is_panic (add_issue user message "" "" "" db).0 ≡ false
  pub sending :
      (sender receiver message : String) (db : Db)
      → P db
      → is_panic (send_issue sender receiver message "" "" "" db).0 ≡ false
  pub listing :
      (user list : String) (db : Db)
      → P db
      → is_panic (get_issue_list username user list db).0 ≡ false

-- The store has the property, and the handler has not panicked if the operations do not.
pub record RanWell (username : String → Option String) (P : Db → Type 0) (r : Ran × Db)
    : Type 0 where
  pub finishes : Finish username P → r.0.panicked ≡ false
  pub keeps : P r.1

module _ (username : String → Option String) (format_date : ℕ → String) (P : Db → Type 0)
    (inv : IsInvariant P) where
  well : {ran : Ran} {db : Db} → P db → ran.panicked ≡ false → RanWell username P (ran, db)
  well p e = record { finishes = λ _. e; keeps = p }

  panicked :
      {ran : Ran} {db : Db}
      → P db
      → (Finish username P → true ≡ false)
      → ran.panicked ≡ true
      → RanWell username P (ran, db)
  panicked p e q = record { finishes = λ f. q ∙ e f; keeps = p }

  with_list-RanWell :
      (extra : CommandArgs) (message : String) (f : List ExtendedIssue → List ExtendedIssue)
      (notices : List Notice) (r : Result (List ExtendedIssue) × Db)
      → P r.1
      → (Finish username P → is_panic r.0 ≡ false)
      → RanWell username P (with_list username format_date extra message f notices r)
  unfolding with_list
  with_list-RanWell extra message f notices (error e, db) p c = well p refl
  with_list-RanWell extra message f notices (panic, db) p c = panicked p c refl
  with_list-RanWell extra message f notices (ok issues, db) p c = well p refl

  added-RanWell :
      (extra : CommandArgs) (r : Result Issue × Db)
      → P r.1
      → (Finish username P → is_panic r.0 ≡ false)
      → RanWell username P (added username format_date extra r)
  unfolding added
  added-RanWell extra (error e, db) p c = well p refl
  added-RanWell extra (panic, db) p c = panicked p c refl
  added-RanWell extra (ok new, db) p c =
      with_list-RanWell extra "Added Todo." (including new) _
        (get_issue_list username extra.user_id my_list_key db)
        ((get_issue_list-Keeps username P inv extra.user_id my_list_key).after db p)
        (λ f. f.listing extra.user_id my_list_key db p)

  if-RanWell :
      (b : Bool) {r s : Ran × Db}
      → RanWell username P r
      → RanWell username P s
      → RanWell username P (if b then r else s)
  if-RanWell true hr hs = hr
  if-RanWell false hr hs = hs

  pub run_add_command-RanWell :
      (args : List String) (extra : CommandArgs) (db : Db)
      → P db
      → RanWell username P (run_add_command username format_date args extra db)
  unfolding run_add_command
  run_add_command-RanWell args extra db p = if-RanWell (str_eq (join args) "") (well p refl) (
      added-RanWell extra (add_issue extra.user_id (join args) "" "" "" db)
        ((add_issue-Keeps P inv extra.user_id (join args) "" "" "").after db p)
        (λ f. f.adding extra.user_id (join args) db p))

  listed-RanWell :
      (extra : CommandArgs) (heading : String) (r : Result (List ExtendedIssue) × Db)
      → P r.1
      → (Finish username P → is_panic r.0 ≡ false)
      → RanWell username P (listed username format_date extra heading r)
  unfolding listed
  listed-RanWell extra heading (error e, db) p c = well p refl
  listed-RanWell extra heading (panic, db) p c = panicked p c refl
  listed-RanWell extra heading (ok issues, db) p c = well p refl

  pub run_list_command-RanWell :
      (args : List String) (extra : CommandArgs) (db : Db)
      → P db
      → RanWell username P (run_list_command username format_date args extra db)
  unfolding run_list_command
  run_list_command-RanWell args extra db p = by (flagged args)
    where
      by :
          (o : Option (String × String))
          → RanWell username P (elim o as (λ _. Ran × Db) [
            | none ↦ (record (respond extra get_help) { is_user_error = true }, db)
            | some (list, heading) ↦
                listed username format_date extra heading
                  (get_issue_list username extra.user_id list db)
          ])
      by none = well p refl
      by (some (list, heading)) =
          listed-RanWell extra heading (get_issue_list username extra.user_id list db)
            ((get_issue_list-Keeps username P inv extra.user_id list).after db p)
            (λ f. f.listing extra.user_id list db p)

  sent-RanWell :
      (extra : CommandArgs) (receiver name message : String) (r : Result String × Db)
      → P r.1
      → (Finish username P → is_panic r.0 ≡ false)
      → RanWell username P (sent username format_date extra receiver name message r)
  unfolding sent
  sent-RanWell extra receiver name message (error e, db) p c = well p refl
  sent-RanWell extra receiver name message (panic, db) p c = panicked p c refl
  sent-RanWell extra receiver name message (ok id, db) p c = well p refl

  -- Popping may panic, but it keeps the property.
  popped-keeps :
      (extra : CommandArgs) (r : Result (Option Issue × String) × Db)
      → P r.1
      → P (popped username format_date extra r).1
  unfolding popped
  popped-keeps extra (error e, db) p = p
  popped-keeps extra (panic, db) p = p
  popped-keeps extra (ok (none, foreign), db) p = p
  popped-keeps extra (ok (some issue, foreign), db) p =
      (with_list-RanWell extra "Removed top Todo." (λ issues. issues) _
        (get_issue_list username extra.user_id my_list_key db)
        ((get_issue_list-Keeps username P inv extra.user_id my_list_key).after db p)
        (λ f. f.listing extra.user_id my_list_key db p)).keeps

  pub run_pop_command-keeps :
      (extra : CommandArgs) (db : Db) → P db → P (run_pop_command username format_date extra db).1
  unfolding run_pop_command
  run_pop_command-keeps extra db p =
      popped-keeps extra (pop_issue extra.user_id db)
        ((pop_issue-Keeps P inv extra.user_id).after db p)

  module _ (find_user : String → Option (String × String)) where
    send_to-RanWell :
        (fails : Bool) (kv : Kv) (name : String) (words : List String) (extra : CommandArgs)
        (db : Db)
        → P db
        → RanWell username P (send_to username format_date find_user fails kv name words extra db)
    unfolding send_to
    send_to-RanWell fails kv name words extra db p = by (find_user name)
      where
        text : String
        text = join words

        by :
            (o : Option (String × String))
            → RanWell username P (elim o as (λ _. Ran × Db) [
              | none ↦
                  (respond extra (concat ("Please, provide a valid user.\n" ∷ get_help ∷ [])), db)
              | some (receiver, _) ↦
                  if str_eq receiver extra.user_id
                  then run_add_command username format_date words extra db
                  else if not (allows username fails receiver kv)
                  then (respond extra (concat ("@" ∷ name ∷ " has blocked Todo requests" ∷ [])), db)
                  else sent username format_date extra receiver name text
                      (send_issue extra.user_id receiver text "" "" "" db)
            ])
        by none = well p refl
        by (some (receiver, _)) =
            if-RanWell (str_eq receiver extra.user_id) (run_add_command-RanWell words extra db p) (
              if-RanWell (not (allows username fails receiver kv)) (well p refl) (
                sent-RanWell extra receiver name text
                  (send_issue extra.user_id receiver text "" "" "" db)
                  ((send_issue-Keeps P inv extra.user_id receiver text "" "" "").after db p)
                  (λ f. f.sending extra.user_id receiver text db p)))

    -- Sending does not panic where no argument is empty.
    pub run_send_command-RanWell :
        (fails : Bool) (kv : Kv) (args : List String) (extra : CommandArgs) (db : Db)
        → AreFilled args
        → P db
        → RanWell username P
            (run_send_command username format_date find_user fails kv args extra db)
    unfolding run_send_command user_name
    run_send_command-RanWell fails kv (nil ∷ word ∷ words) extra db h p = elim (h.0 refl) [ ]
    run_send_command-RanWell fails kv (cons c s ∷ word ∷ words) extra db h p =
        send_to-RanWell fails kv (if nat_eq (code c) 64 then s else cons c s) (word ∷ words) extra
          db p
    run_send_command-RanWell fails kv [] extra db h p = well p refl
    run_send_command-RanWell fails kv (target ∷ []) extra db h p = well p refl
