-- ===== src/ListManager/Listing.antt =====
-- An invariant of the store is one of reading lists of issues: server/list.go.
use okrbest_plugin_todo.Common.{String, Option, List, [], ◌∷◌, str_eq}
use okrbest_plugin_todo.ListStore.{IssueRef, ok}
use okrbest_plugin_todo.Db.{Db, Issue, my_list_key, in_list_key, out_list_key}
use okrbest_plugin_todo.Db.Keeping.{
  Keeps, IsInvariant, bind-Keeps, pure-Keeps, attempt-Keeps, if-Keeps, option-Keeps,
  get_issue_list_and_reference-Keeps,
}
use okrbest_plugin_todo.ListManager.Reading.{
  extend_issue_info, extend_all, get_issue_list, get_all_list,
}

module _ (username : String → Option String) (P : Db → Type 0) (inv : IsInvariant P) where
  extend_issue_info-Keeps :
      (issue : Issue) (ir : IssueRef) → Keeps P (extend_issue_info username issue ir)
  unfolding extend_issue_info
  extend_issue_info-Keeps issue ir = if-Keeps P (str_eq ir.foreign_user_id "") (pure-Keeps P _) (
      bind-Keeps P (get_issue_list_and_reference-Keeps P inv ir.foreign_user_id ir.foreign_issue_id)
        (λ found. pure-Keeps P _))

  extend_all-Keeps : (irs : List IssueRef) → Keeps P (extend_all username irs)
  unfolding extend_all
  extend_all-Keeps [] = pure-Keeps P (ok [])
  extend_all-Keeps (ir ∷ irs) = bind-Keeps P (attempt-Keeps P (inv.get ir.issue_id)) (λ found.
      option-Keeps P found (extend_all-Keeps irs) (λ issue.
        bind-Keeps P (extend_issue_info-Keeps issue ir)
          (λ e. bind-Keeps P (extend_all-Keeps irs) (λ more. pure-Keeps P (ok (e ∷ more))))))

  pub get_issue_list-Keeps : (user list : String) → Keeps P (get_issue_list username user list)
  unfolding get_issue_list
  get_issue_list-Keeps user list = bind-Keeps P (inv.list user list) extend_all-Keeps

  pub get_all_list-Keeps : (user : String) → Keeps P (get_all_list username user)
  unfolding get_all_list
  get_all_list-Keeps user = bind-Keeps P (get_issue_list-Keeps user in_list_key) (λ inbox.
      bind-Keeps P (get_issue_list-Keeps user my_list_key) (λ my.
        bind-Keeps P (get_issue_list-Keeps user out_list_key)
          (λ out. pure-Keeps P (ok (inbox, my, out)))))
