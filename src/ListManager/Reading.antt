-- ===== src/ListManager/Reading.antt =====
-- How lists are read for the web app: `GetIssueList`, `GetAllList` and what they show of the other
-- user, of server/list.go.
use okrbest_plugin_todo.Common.{
  String, ℕ, Option, none, some, List, [], ◌∷◌, or_else, str_eq, truthy, if◌then◌else◌,
}
use okrbest_plugin_todo.ListStore.{IssueRef}
use okrbest_plugin_todo.Model as Web
use okrbest_plugin_todo.Db.{
  Issue, M, pure, ◌>>=◌, attempt, my_list_key, in_list_key, out_list_key, get_issue, get_list,
  get_issue_list_and_reference,
}

-- `ExtendedIssue`
pub record ExtendedIssue : Type 0 where
  pub issue : Issue
  pub foreign_user : String
  pub foreign_list : String
  pub foreign_position : ℕ

-- An issue as the web app is sent it; an empty description is left out.
unfoldable pub sent_issue : ExtendedIssue → Web.Issue
sent_issue e = record {
  id = e.issue.id;
  message = e.issue.message;
  post_permalink = e.issue.post_permalink;
  description = if truthy e.issue.description then some e.issue.description else none;
  create_at = e.issue.create_at;
  post_id = e.issue.post_id;
  user = e.foreign_user;
  list = e.foreign_list;
  position = e.foreign_position;
}

-- `InFlag` and `OutFlag`
unfoldable pub list_name : String → String
list_name list =
    if str_eq list my_list_key
    then my_list_key
    else if str_eq list in_list_key
    then "in"
    else if str_eq list out_list_key
    then "out"
    else ""

-- The host gives the names of the users that it finds.
module _ (username : String → Option String) where
  unfoldable pub get_user_name : String → String
  get_user_name user = or_else (username user) "Someone"

  unfoldable pub extended : Issue → IssueRef → String × Option (IssueRef × ℕ) → ExtendedIssue
  unfolding list_name get_user_name
  extended issue ir found = record {
    issue = issue;
    foreign_user = get_user_name ir.foreign_user_id;
    foreign_list = list_name found.0;
    foreign_position = elim found.1 [ none ↦ 0 | some (_, n) ↦ n ];
  }

  unfoldable pub extend_issue_info : Issue → IssueRef → M ExtendedIssue
  unfolding get_issue_list_and_reference extended
  extend_issue_info issue ir =
      if str_eq ir.foreign_user_id ""
      then pure
          (record { issue = issue; foreign_user = ""; foreign_list = ""; foreign_position = 0 })
      else (get_issue_list_and_reference ir.foreign_user_id ir.foreign_issue_id >>= λ found.
          pure (extended issue ir found))

  -- An issue that cannot be read is left out.
  unfoldable pub extend_all : List IssueRef → M (List ExtendedIssue)
  unfolding get_issue extend_issue_info
  extend_all [] = pure []
  extend_all (ir ∷ irs) =
      let rest = extend_all irs in
      attempt (get_issue ir.issue_id) >>= λ found. elim found [
        | none ↦ rest
        | some issue ↦ (do
          extended ← extend_issue_info issue ir
          more ← rest
          pure (extended ∷ more))
      ]

  unfoldable pub get_issue_list : String → String → M (List ExtendedIssue)
  unfolding get_list extend_all
  get_issue_list user list = do irs ← get_list user list; extend_all irs

  -- the lists of received, own and sent issues
  unfoldable pub get_all_list :
      String → M (List ExtendedIssue × List ExtendedIssue × List ExtendedIssue)
  unfolding get_issue_list
  get_all_list user = do
    inbox ← get_issue_list user in_list_key
    my ← get_issue_list user my_list_key
    out ← get_issue_list user out_list_key
    pure (inbox, my, out)
