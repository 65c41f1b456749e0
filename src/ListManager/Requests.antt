-- ===== src/ListManager/Requests.antt =====
-- What users ask of server/list.go, one request after the other.
use okrbest_plugin_todo.Common.{String, List, [], ◌∷◌}
use okrbest_plugin_todo.Db.{Db}
use okrbest_plugin_todo.Db.Keeping.{IsInvariant}
use okrbest_plugin_todo.Db.Valid.{IsValid, IsValid-IsInvariant}
use okrbest_plugin_todo.ListManager.{
  add_issue, send_issue, complete_issue, edit_issue, change_assignment, accept_issue, remove_issue,
  pop_issue, bump_issue,
}
use okrbest_plugin_todo.ListManager.Keeping.{
  add_issue-Keeps, send_issue-Keeps, complete_issue-Keeps, edit_issue-Keeps,
  change_assignment-Keeps, accept_issue-Keeps, remove_issue-Keeps, pop_issue-Keeps,
  bump_issue-Keeps,
}

-- the operations of the interface `ListManager` that change what is stored, and their arguments
pub data Request : Type 0 where
  add : (user message post_permalink description post_id : String) → Request
  send : (sender receiver message post_permalink description post_id : String) → Request
  complete : (user issue_id : String) → Request
  edit : (user issue_id new_message new_description : String) → Request
  assign : (issue_id user send_to : String) → Request
  accept : (user issue_id : String) → Request
  remove : (user issue_id : String) → Request
  pop : (user : String) → Request
  bump : (user issue_id : String) → Request

-- what is stored after a request
unfoldable pub serve : Request → Db → Db
serve (add user message post_permalink description post_id) db =
    (add_issue user message post_permalink description post_id db).1
serve (send sender receiver message post_permalink description post_id) db =
    (send_issue sender receiver message post_permalink description post_id db).1
serve (complete user issue_id) db = (complete_issue user issue_id db).1
serve (edit user issue_id new_message new_description) db =
    (edit_issue user issue_id new_message new_description db).1
serve (assign issue_id user send_to) db = (change_assignment issue_id user send_to db).1
serve (accept user issue_id) db = (accept_issue user issue_id db).1
serve (remove user issue_id) db = (remove_issue user issue_id db).1
serve (pop user) db = (pop_issue user db).1
serve (bump user issue_id) db = (bump_issue user issue_id db).1

unfoldable pub serve_all : List Request → Db → Db
unfolding serve
serve_all [] db = db
serve_all (request ∷ requests) db = serve_all requests (serve request db)

-- What the operations of the store keep, the requests keep.
pub serve-keeps :
    (P : Db → Type 0) → IsInvariant P → (request : Request) (db : Db) → P db → P (serve request db)
unfolding serve
serve-keeps P inv (add user m l d p) = (add_issue-Keeps P inv user m l d p).after
serve-keeps P inv (send sender receiver m l d p) =
    (send_issue-Keeps P inv sender receiver m l d p).after
serve-keeps P inv (complete user id) = (complete_issue-Keeps P inv user id).after
serve-keeps P inv (edit user id m d) = (edit_issue-Keeps P inv user id m d).after
serve-keeps P inv (assign id user send_to) = (change_assignment-Keeps P inv id user send_to).after
serve-keeps P inv (accept user id) = (accept_issue-Keeps P inv user id).after
serve-keeps P inv (remove user id) = (remove_issue-Keeps P inv user id).after
serve-keeps P inv (pop user) = (pop_issue-Keeps P inv user).after
serve-keeps P inv (bump user id) = (bump_issue-Keeps P inv user id).after

-- Whatever requests follow each other, and whichever calls of the host fail meanwhile: if no list
-- has two references of the same issue and each issue is under its own id, then that is so
-- afterwards.
pub serve_all-IsValid :
    (requests : List Request) (db : Db) → IsValid db → IsValid (serve_all requests db)
unfolding serve_all
serve_all-IsValid [] db v = v
serve_all-IsValid (request ∷ requests) db v =
    serve_all-IsValid requests (serve request db)
      (serve-keeps IsValid IsValid-IsInvariant request db v)
