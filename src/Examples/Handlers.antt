-- ===== src/Examples/Handlers.antt =====
-- Handlers of the server, at concrete data.
use okrbest_plugin_todo.Common.{none, some, [], ◌∷◌, ◌≡◌, refl, eq_iff, arith}
use okrbest_plugin_todo.ListStore.Sequential.{new_ref}
use okrbest_plugin_todo.Db.{Db, put_list, in_list_key}
use okrbest_plugin_todo.Handlers.{refresh, panics, handle_complete}
use okrbest_plugin_todo.Handlers.Panicking.{handle_complete-panics}
use okrbest_plugin_todo.Examples.Requests.{empty_db}

-- bob's inbox has an issue that ann, who sent it, has completed
abbrev dangling_db : Db
dangling_db = record empty_db {
  lists = put_list "bob" in_list_key (new_ref "i1" "ann" "i0" ∷ []) empty_db.lists;
}

handle_complete-panics_example : handle_complete (λ _. none) "bob" (some "i1") dangling_db ≡ (
  panics (refresh "bob" (in_list_key ∷ []) ∷ []),
  record dangling_db { lists = put_list "bob" in_list_key [] dangling_db.lists },
)
handle_complete-panics_example =
    handle_complete-panics (λ _. none) dangling_db "bob" "i1" [] [] (new_ref "i1" "ann" "i0") refl
      (ground (arith, eq_iff "i1" "")) (refl, refl, tt, tt) tt tt tt
      (ground (arith, eq_iff "ann" "")) refl refl
