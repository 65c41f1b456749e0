-- ===== src/ListManager/Restoring.antt =====
-- Undoing changes of the store.
use okrbest_plugin_todo.Common.{
  String, Bool, true, false, Option, none, some, List, [], ◌≡◌, All, or_else, str_eq, eq_iff, arith,
  if◌then◌else◌,
}
use okrbest_plugin_todo.ListStore.{IssueRef}
use okrbest_plugin_todo.ListStore.Bumping.{IsOther}
use okrbest_plugin_todo.Db.{Issue, Db, refs, put_issue, put_list}

-- No issue has the id, and no list has a reference of it.
abbrev pub IsUnused : Db → String → Type 0
IsUnused db id =
    (db.issues id ≡ none) × ((user list : String) → All (IsOther id) (refs db user list))

-- The same issues, and on each list the same references.
abbrev pub Same : Db → Db → Type 0
Same db db' =
    ((id : String) → db'.issues id ≡ db.issues id)
    × ((user list : String) → refs db' user list ≡ refs db user list)

-- Deleting two issues that were saved with unused ids.
pub put_issue-undone :
    (issues : String → Option Issue) (s r : String) (sent received : Option Issue)
    → issues s ≡ none
    → issues r ≡ none
    → (id : String)
    → put_issue r none (put_issue s none (put_issue r received (put_issue s sent issues))) id
      ≡ issues id
put_issue-undone issues s r sent received es er id = grind (arith, eq_iff s id, eq_iff r id, es, er)

-- Writing the references of two lists back.
pub put_list-undone :
    (lists : String → String → Option (List IssueRef)) (u1 l1 u2 l2 : String)
    (refs1 refs2 : List IssueRef) (user list : String)
    → or_else
        (put_list u1 l1
          (or_else (lists u1 l1) [])
          (put_list u2 l2
            (or_else (lists u2 l2) [])
            (put_list u2 l2 refs2 (put_list u1 l1 refs1 lists)))
          user
          list)
        []
      ≡ or_else (lists user list) []
put_list-undone lists u1 l1 u2 l2 refs1 refs2 user list =
    grind (arith, eq_iff u1 user, eq_iff l1 list, eq_iff u2 user, eq_iff l2 list)

-- What is true of a list's references that are written, and was of those of all lists, is true of
-- all.
pub All-put_list :
    (P : IssueRef → Type 0) (lists : String → String → Option (List IssueRef)) (u1 l1 : String)
    (rs : List IssueRef) (user list : String)
    → All P rs
    → All P (or_else (lists user list) [])
    → All P (or_else (put_list u1 l1 rs lists user list) [])
All-put_list P lists u1 l1 rs user list new old = step (str_eq l1 list) (str_eq u1 user)
  where
    step :
        (b c : Bool)
        → All P
            (or_else (if b then (if c then some rs else lists user list) else lists user list) [])
    step true true = new
    step true false = old
    step false c = old
