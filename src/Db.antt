-- ===== src/Db.antt =====
-- server/store.go as one request sees it, with the issues of server/issue.go: what the host's
-- key-value store holds, and the operations of the interface `ListStore`. A list is in its current
-- format, and nobody else writes meanwhile; ListStore has what happens otherwise. Each call of the
-- host may fail: `faults` tells of the calls to come, and those after its end succeed.
pub mod Laws
pub mod Places
pub mod Reads
pub mod Keeping
pub mod Valid
pub mod Calm
pub mod Safe
use okrbest_plugin_todo.Common.{
  String, ℕ, suc, Bool, true, false, ◌&&◌, Option, none, some, List, [], ◌∷◌, ◌++◌, or_else,
  is_some, str_eq, if◌then◌else◌,
}
use okrbest_plugin_todo.ListStore.{
  IssueRef, Result, error, panic, ok, add_ref, remove_ref, pop_ref, bump_ref,
}

pub record Issue : Type 0 where
  pub id : String
  pub message : String
  pub post_permalink : String
  pub description : String
  pub create_at : ℕ
  pub post_id : String

-- `MyListKey`, `InListKey`, `OutListKey`
abbrev pub my_list_key : String
my_list_key = ""

abbrev pub in_list_key : String
in_list_key = "_in"

abbrev pub out_list_key : String
out_list_key = "_out"

-- The keys of issues and of lists, the clock, and the ids that `model.NewId` is going to give.
pub record Db : Type 0 where
  pub issues : String → Option Issue
  pub lists : String → String → Option (List IssueRef)
  pub now : ℕ
  pub new_ids : ℕ → String
  pub made : ℕ
  pub faults : List Bool

-- the references in a list; there are none under a missing key
abbrev pub refs : Db → String → String → List IssueRef
refs db user list = or_else (db.lists user list) []

-- An operation: its result or an error, and the store after it.
abbrev pub M : Type 0 → Type 0
M A = Db → Result A × Db

abbrev pub pure : {A : Type 0} → A → M A
pure a db = (ok a, db)

abbrev pub fail : {A : Type 0} → String → M A
fail e db = (error e, db)

abbrev pub bound : {A B : Type 0} → (A → M B) → Result A × Db → Result B × Db
bound f (ok a, db) = f a db
bound f (error e, db) = (error e, db)
bound f (panic, db) = (panic, db)

infixl 5 ◌>>=◌ ◌>>◌
abbrev pub ◌>>=◌ : {A B : Type 0} → M A → (A → M B) → M B
◌>>=◌ m f db = bound f (m db)

abbrev pub ◌>>◌ : {B : Type 0} → M (Unit {0}) → M B → M B
m >> k = m >>= λ _. k

abbrev tried : {A : Type 0} → Result A × Db → Result (Option A) × Db
tried (ok a, db) = (ok (some a), db)
tried (error e, db) = (ok none, db)
tried (panic, db) = (panic, db)

-- An error is at most logged, and what was to be returned is nil.
abbrev pub attempt : {A : Type 0} → M A → M (Option A)
attempt m db = tried (m db)

-- An error after its rollback, unless that panics.
abbrev rolled_back : {A : Type 0} → String → Result (Unit {0}) × Db → Result A × Db
rolled_back e (ok _, db) = (error e, db)
rolled_back e (error _, db) = (error e, db)
rolled_back e (panic, db) = (panic, db)

abbrev recovered : {A : Type 0} → M (Unit {0}) → Result A × Db → Result A × Db
recovered rollback (ok a, db) = (ok a, db)
recovered rollback (error e, db) = rolled_back e (rollback db)
recovered rollback (panic, db) = (panic, db)

-- On an error the rollback is carried out, whose own errors are logged, and the error is returned.
abbrev pub or_roll_back : {A : Type 0} → M A → M (Unit {0}) → M A
or_roll_back m rollback db = recovered rollback (m db)

-- one step of a rollback
abbrev pub log_error : {A : Type 0} → M A → M (Unit {0})
log_error m = attempt m >>= λ _. pure tt

abbrev pub lift : {A : Type 0} → Result A → M A
lift r db = (r, db)

abbrev faulty : List Bool → Db → Result (Unit {0}) × Db
faulty [] db = (ok tt, db)
faulty (true ∷ rest) db = (error "KV", record db { faults = rest })
faulty (false ∷ rest) db = (ok tt, record db { faults = rest })

-- a call of the host
unfoldable pub kv_call : M (Unit {0})
kv_call db = faulty db.faults db

abbrev pub put_issue : String → Option Issue → (String → Option Issue) → String → Option Issue
put_issue id issue issues j = if str_eq id j then issue else issues j

abbrev pub put_list :
    String
    → String
    → List IssueRef
    → (String → String → Option (List IssueRef))
    → String
    → String
    → Option (List IssueRef)
put_list user list refs lists v l =
    if str_eq list l then (if str_eq user v then some refs else lists v l) else lists v l

pub write_issue : String → Option Issue → M (Unit {0})
write_issue id issue db = (ok tt, record db { issues = put_issue id issue db.issues })

unfoldable pub read_issue : String → M Issue
read_issue id db = elim (db.issues id) [
  | none ↦ (error "cannot find issue", db)
  | some issue ↦ (ok issue, db)
]

-- `newIssue`
unfoldable pub new_issue : String → String → String → String → M Issue
new_issue message post_permalink description post_id db = (
  ok (record {
    id = db.new_ids db.made;
    message = message;
    post_permalink = post_permalink;
    description = description;
    create_at = db.now;
    post_id = post_id;
  }),
  record db { made = suc db.made },
)

unfoldable pub save_issue : Issue → M (Unit {0})
unfolding kv_call write_issue
save_issue issue = do kv_call; write_issue issue.id (some issue)

unfoldable pub get_issue : String → M Issue
unfolding kv_call read_issue
get_issue id = do kv_call; read_issue id

unfoldable pub remove_issue : String → M (Unit {0})
unfolding kv_call write_issue
remove_issue id = do kv_call; write_issue id none

unfoldable pub get_and_remove_issue : String → M Issue
unfolding get_issue remove_issue
get_and_remove_issue id = do issue ← get_issue id; remove_issue id; pure issue

unfoldable pub read_list : String → String → M (Option (List IssueRef))
read_list user list db = (ok (db.lists user list), db)

pub write_list : String → String → List IssueRef → M (Unit {0})
write_list user list refs db = (ok tt, record db { lists = put_list user list refs db.lists })

unfoldable pub get_list : String → String → M (List IssueRef)
unfolding kv_call read_list
get_list user list = do kv_call; found ← read_list user list; pure (or_else found [])

-- The operations that change a list: reading, changing and saving it.
pub change : {A : Type 0} → String → String → (List IssueRef → Result (A × List IssueRef)) → M A
unfolding get_list kv_call write_list
change user list f = do
  refs ← get_list user list
  changed ← lift (f refs)
  kv_call
  write_list user list changed.1
  pure changed.0

unfoldable pub add_reference : String → String → String → String → String → M (Unit {0})
unfolding change
add_reference user issue list foreign_user foreign_issue =
    change user list (add_ref issue foreign_user foreign_issue)

unfoldable pub remove_reference : String → String → String → M (Unit {0})
unfolding change
remove_reference user issue list = change user list (remove_ref issue)

unfoldable pub pop_reference : String → String → M IssueRef
unfolding change
pop_reference user list = change user list pop_ref

unfoldable pub bump_reference : String → String → String → M (Unit {0})
unfolding change
bump_reference user issue list = change user list (bump_ref issue)

-- the loop of `GetIssueReference`: the first reference with the issue, and its index
pub find_ref : String → ℕ → List IssueRef → Option (IssueRef × ℕ)
find_ref issue i [] = none
find_ref issue i (ir ∷ list) =
    if str_eq ir.issue_id issue then some (ir, i) else find_ref issue (suc i) list

unfoldable pub found_ref : String → Option (List IssueRef) → Result (IssueRef × ℕ)
unfolding find_ref
found_ref issue none = error "cannot load list"
found_ref issue (some list) = elim (find_ref issue 0 list) [
  | none ↦ error "cannot find issue"
  | some r ↦ ok r
]

unfoldable pub get_issue_reference : String → String → String → M (IssueRef × ℕ)
unfolding kv_call read_list found_ref
get_issue_reference user issue list = do
  kv_call
  found ← read_list user list
  lift (found_ref issue found)

abbrev chosen :
    Option (IssueRef × ℕ)
    → Option (IssueRef × ℕ)
    → Option (IssueRef × ℕ)
    → String × Option (IssueRef × ℕ)
chosen (some r) out inbox = (my_list_key, some r)
chosen none (some r) inbox = (out_list_key, some r)
chosen none none (some r) = (in_list_key, some r)
chosen none none none = ("", none)

-- The list with the issue and its reference there, in the order of the user's own list, the sent and
-- the received issues. Errors are ignored.
unfoldable pub get_issue_list_and_reference : String → String → M (String × Option (IssueRef × ℕ))
unfolding get_issue_reference
get_issue_list_and_reference user issue = do
  my ← attempt (get_issue_reference user issue my_list_key)
  out ← if is_some my then pure none else attempt (get_issue_reference user issue out_list_key)
  inbox ←
      if is_some my
      then pure none
      else if is_some out
      then pure none
      else attempt (get_issue_reference user issue in_list_key)
  pure (chosen my out inbox)
