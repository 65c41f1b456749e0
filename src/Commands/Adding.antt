-- ===== src/Commands/Adding.antt =====
-- What `/todo add` stores and shows: `runAddCommand` of server/command.go.
use okrbest_plugin_todo.Common.{
  String, ℕ, suc, Bool, true, false, Option, some, List, [], ◌∷◌, ◌++◌, ◌≡◌, ◌≢◌, refl, ◌∙◌, ap,
  map, any, concat, ◌||◌, All, str_eq, eq_iff, arith, Bool-cases, Option-cases, inl, inr,
}
use okrbest_plugin_todo.ListStore.{IssueRef}
use okrbest_plugin_todo.ListStore.Bumping.{IsOther}
use okrbest_plugin_todo.ListStore.Sequential.{new_ref}
use okrbest_plugin_todo.Db.{Db, Issue, refs, put_list, put_issue, my_list_key}
use okrbest_plugin_todo.ListManager.Reading.{ExtendedIssue}
use okrbest_plugin_todo.ListManager.Sending.{issue_of, add_issue_lem}
use okrbest_plugin_todo.ListManager.Showing.{stored, get_issue_list-reads}
use okrbest_plugin_todo.Handlers.{refresh}
use okrbest_plugin_todo.Commands.Handling.{CommandArgs, finished, post_command_response}
use okrbest_plugin_todo.Commands.Texts.{issues_list_to_string}
use okrbest_plugin_todo.Commands.Lists.{including, with_list, added, run_add_command}
use okrbest_plugin_todo.Commands.Words.{join}

any_last :
    {A : Type 0} (p : A → Bool) (xs : List A) (x : A) → p x ≡ true → any p (xs ++ x ∷ []) ≡ true
any_last p [] x h = rw h refl
any_last p (y ∷ xs) x h =
    rw (any_last p xs x h) (elim (Bool-cases (p y)) [ inl e ↦ rw e refl | inr e ↦ rw e refl ])

any-map :
    {A B : Type 0} (p : B → Bool) (f : A → B) (xs : List A)
    → any (λ x. p (f x)) xs ≡ any p (map f xs)
any-map p f [] = refl
any-map p f (x ∷ xs) = ap (p (f x) ||◌) (any-map p f xs)

stored_last :
    (db : Db) (irs : List IssueRef) (ir : IssueRef) (issue : Issue)
    → db.issues ir.issue_id ≡ some issue
    → stored db (irs ++ ir ∷ []) ≡ stored db irs ++ issue ∷ []
stored_last db [] ir issue h = rw h refl
stored_last db (x ∷ irs) ir issue h = elim (Option-cases (db.issues x.issue_id)) [
  | inl e ↦ rw (stored, e) (stored_last db irs ir issue h)
  | inr (found, e) ↦ rw (stored, e) (ap (found ∷◌) (stored_last db irs ir issue h))
]

-- The own list is shown with the new issue, even if it was read without it.
pub including-shows :
    (new : Issue) (issues : List ExtendedIssue)
    → any (λ (i : ExtendedIssue). str_eq new.id i.issue.id) (including new issues) ≡ true
unfolding including
including-shows new issues =
    elim (Bool-cases (any (λ (i : ExtendedIssue). str_eq new.id i.issue.id) issues)) [
      | inl there ↦ rw (there, there) refl
      | inr missing ↦ rw missing (any_last _ issues _ ((eq_iff new.id new.id).1 refl))
    ]

module _ (username : String → Option String) (format_date : ℕ → String) (extra : CommandArgs)
    (db : Db) (h : db.faults ≡ []) where
  -- While the host does not fail, and with an id that is not yet on the user's own list: `/todo
  -- add` with some words saves an issue with them, joined by spaces, as its message, at the end of
  -- the own list, tells the user's web app to refresh that list, and answers with the issues of the
  -- list as it is now stored, the new one last. Nothing else changes.
  pub run_add_command_lem :
      (args : List String)
      → join args ≢ ""
      → All (IsOther (db.new_ids db.made)) (refs db extra.user_id my_list_key)
      → (let id = db.new_ids db.made in
          let issue = issue_of db id (join args) "" "" "" in
          let after : Db = record db {
            issues = put_issue id (some issue) db.issues;
            lists =
                put_list extra.user_id my_list_key
                  (refs db extra.user_id my_list_key ++ new_ref id "" "" ∷ [])
                  db.lists;
            made = suc db.made;
          } in
          (shown : List ExtendedIssue) × (map (λ (i : ExtendedIssue). i.issue) shown
            ≡ stored after (refs db extra.user_id my_list_key) ++ issue ∷ [])
          × (run_add_command username format_date args extra db ≡ (
            finished (
                refresh extra.user_id (my_list_key ∷ [])
                ∷ post_command_response extra (
                    concat (
                      "Added Todo."
                      ∷ " Todo List:\n\n"
                      ∷ issues_list_to_string format_date shown
                      ∷ []))
                ∷ []),
            after,
          )))
  unfolding run_add_command added with_list including
  run_add_command_lem args ne new =
      let id = db.new_ids db.made in
      let user = extra.user_id in
      let issue : Issue = issue_of db id (join args) "" "" "" in
      let irs : List IssueRef = refs db user my_list_key in
      let after : Db = record db {
        issues = put_issue id (some issue) db.issues;
        lists = put_list user my_list_key (irs ++ new_ref id "" "" ∷ []) db.lists;
        made = suc db.made;
      } in
      let filled : str_eq (join args) "" ≡ false = ground (arith, eq_iff (join args) "", ne) in
      let same_id : str_eq id id ≡ true = (eq_iff id id).1 refl in
      let same_user : str_eq user user ≡ true = (eq_iff user user).1 refl in
      let (shown, reads, m) = get_issue_list-reads username after h user my_list_key in
      let now : refs after user my_list_key ≡ irs ++ new_ref id "" "" ∷ [] = rw same_user refl in
      let saved : after.issues id ≡ some issue = rw same_id refl in
      let all : map (λ (i : ExtendedIssue). i.issue) shown ≡ stored after irs ++ issue ∷ [] =
        m ∙ ap (stored after) now ∙ stored_last after irs (new_ref id "" "") issue saved in
      let there : any (λ (i : ExtendedIssue). str_eq id i.issue.id) shown ≡ true =
        any-map (λ (i : Issue). str_eq id i.id) (λ (i : ExtendedIssue). i.issue) shown
        ∙ ap (any (λ (i : Issue). str_eq id i.id)) all
        ∙ any_last (λ (i : Issue). str_eq id i.id) (stored after irs) issue same_id in
      (shown, all, rw (filled, add_issue_lem db user (join args) "" "" "" h new, reads, there) refl)
