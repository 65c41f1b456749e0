-- ===== src/ListStore.antt =====
-- server/store.go: the lists of references that the server keeps in the host's key-value store, one
-- key for each list of a user. `decode`, `decode_legacy` and `encode` are the JSON of a list of
-- references and the older JSON of a list of ids; what else happens to a key between the steps of an
-- operation is explicit.
pub mod Bumping
pub mod Removing
pub mod Ending
pub mod Racing
pub mod Sequential
pub mod Distinct
use okrbest_plugin_todo.Common.{
  String, ℕ, zero, suc, ◌-◌, ltb, ◌+◌, Bool, true, false, Option, none, some, List, [], ◌∷◌, ◌++◌,
  map, any, is_nil, length, take, drop, nat_eq, str_eq, if◌then◌else◌,
}

pub record IssueRef : Type 0 where
  pub issue_id : String
  pub foreign_issue_id : String
  pub foreign_user_id : String

-- an error by its text, a panic, or a value
pub data Result (A : Type 0) : Type 0 where
  error : String → Result A
  panic : Result A
  ok : A → Result A

abbrev pub is_panic : {A : Type 0} → Result A → Bool
is_panic (error _) = false
is_panic panic = true
is_panic (ok _) = false

-- What an operation makes of the list that it has read: what it returns, and the new list.
-- `AddReference`
unfoldable pub add_ref :
    String → String → String → List IssueRef → Result (Unit {0} × List IssueRef)
add_ref issue_id foreign_user_id foreign_issue_id list =
    if any (λ (ir : IssueRef). str_eq ir.issue_id issue_id) list
    then error "issue id already exists in list"
    else ok (
      tt,
      list
          ++ (record {
            issue_id = issue_id;
            foreign_issue_id = foreign_issue_id;
            foreign_user_id = foreign_user_id;
          })
            ∷ [],
    )

-- `PopReference`
unfoldable pub pop_ref : List IssueRef → Result (IssueRef × List IssueRef)
pop_ref [] = error "cannot find issue"
pop_ref (ir ∷ list) = ok (ir, list)

-- `for i, ir = range list` up to the `break`: the index and the reference of the latest iteration
pub search : String → ℕ → ℕ × Option IssueRef → List IssueRef → ℕ × Option IssueRef
search issue_id i latest [] = latest
search issue_id i latest (ir ∷ list) =
    let rest = search issue_id (suc i) (i, some ir) list in
    if str_eq issue_id ir.issue_id then (i, some ir) else rest

-- What follows the loop of `BumpReference`. There is a latest reference unless the list is empty.
pub to_front : ℕ × Option IssueRef → List IssueRef → Result (Unit {0} × List IssueRef)
to_front (i, none) list = error "cannot find issue"
to_front (i, some ir) list =
    if nat_eq i (length list)
    then error "cannot find issue"
    else ok (tt, ir ∷ take i list ++ drop (suc i) list)

-- `BumpReference`
unfoldable pub bump_ref : String → List IssueRef → Result (Unit {0} × List IssueRef)
unfolding search to_front
bump_ref issue_id list = to_front (search issue_id 0 (0, none) list) list

-- The loop of `RemoveReference`, by the number of iterations left. The loop runs over all of the
-- array, `seen ++ rest`, of which the list is the first `len` elements. A match moves the elements
-- after it one place to the front, and leaves those behind the list. `none` where a slice is out of
-- range.
pub remove_loop :
    String → ℕ → List IssueRef → List IssueRef → ℕ → Bool → Option (List IssueRef × Bool)
remove_loop issue_id zero seen rest len found = some (take len (seen ++ rest), found)
remove_loop issue_id (suc n) seen [] len found = some (take len seen, found)
remove_loop issue_id (suc n) seen (ir ∷ rest) len found =
    let k = len - suc (length seen) in
    let moved = take k rest ++ drop k (ir ∷ rest) in
    let here = remove_loop issue_id n (seen ++ take 1 moved) (drop 1 moved) (len - 1) true in
    let next = remove_loop issue_id n (seen ++ ir ∷ []) rest len found in
    if str_eq ir.issue_id issue_id then (if ltb (length seen) len then here else none) else next

-- `RemoveReference`; out of range the handler panics
unfoldable pub remove_ref : String → List IssueRef → Result (Unit {0} × List IssueRef)
unfolding remove_loop
remove_ref issue_id list = elim (remove_loop issue_id (length list) [] list (length list) false) [
  | none ↦ panic
  | some (list', found) ↦ if found then ok (tt, list') else error "cannot find issue"
]

-- What happens during one try: the host may fail to read the key, once or when it is read again for
-- the older format, and to set it; others may write it after each of the two times that it was
-- read.
pub record Race (Value : Type 0) : Type 0 where
  pub get_fails : Bool
  pub between : Option Value → Option Value
  pub legacy_fails : Bool
  pub others : Option Value → Option Value
  pub set_fails : Bool

abbrev pub quiet : {Value : Type 0} → Race Value
quiet = record {
  get_fails = false;
  between = λ v. v;
  legacy_fails = false;
  others = λ v. v;
  set_fails = false;
}

abbrev pub legacy_ref : String → IssueRef
legacy_ref v = record { issue_id = v; foreign_issue_id = ""; foreign_user_id = "" }

module _ {Value : Type 0} (same : Value → Value → Bool) (decode : Value → Option (List IssueRef))
    (decode_legacy : Value → Option (List String)) (encode : List IssueRef → Value) where
  -- the host's comparison of a key's value with the one that was read
  unfoldable pub same_value : Option Value → Option Value → Bool
  same_value none none = true
  same_value (some a) (some b) = same a b
  same_value _ _ = false

  -- The list or an error, and the key's value, which is also the one that was read.
  unfoldable pub legacy_issue_ref :
      Race Value → Option Value → Result (List IssueRef) × Option Value
  legacy_issue_ref race value = if race.legacy_fails then (error "get", value) else elim value [
    | none ↦ (ok [], none)
    | some json ↦ elim (decode_legacy json) [
      | none ↦ (error "json", some json)
      | some ids ↦ (ok (map legacy_ref ids), some json)
    ]
  ]

  unfoldable pub get_list : Race Value → Option Value → Result (List IssueRef) × Option Value
  unfolding legacy_issue_ref
  get_list race value = if race.get_fails then (error "get", value) else elim value [
    | none ↦ (ok [], none)
    | some json ↦ elim (decode json) [
      | some list ↦ (ok list, some json)
      | none ↦ legacy_issue_ref race (race.between (some json))
    ]
  ]

  -- `saveList`: whether it was saved, and the key's value, from the value that was read
  unfoldable pub save_list : Race Value → List IssueRef → Option Value → Result Bool × Option Value
  unfolding same_value
  save_list race list original =
      if race.set_fails
      then (error "set", race.others original)
      else if same_value (race.others original) original
      then (ok true, some (encode list))
      else (ok false, race.others original)

  -- The three ways on from `saveList`: with no result another round follows.
  pub after_save : {A : Type 0} → A → Result Bool × Option Value → Option (Result A) × Option Value
  after_save a (error e, value) = (some (error e), value)
  after_save a (panic, value) = (some panic, value)
  after_save a (ok true, value) = (some (ok a), value)
  after_save a (ok false, value) = (none, value)

  pub store_change :
      {A : Type 0}
      → Race Value
      → Option Value
      → Result (A × List IssueRef)
      → Option (Result A) × Option Value
  unfolding save_list after_save
  store_change race original (error e) = (some (error e), original)
  store_change race original panic = (some panic, original)
  store_change race original (ok (a, list)) = after_save a (save_list race list original)

  pub after_read :
      {A : Type 0}
      → (List IssueRef → Result (A × List IssueRef))
      → Race Value
      → Result (List IssueRef) × Option Value
      → Option (Result A) × Option Value
  unfolding store_change
  after_read change race (error e, original) = (some (error e), original)
  after_read change race (panic, original) = (some panic, original)
  after_read change race (ok list, original) = store_change race original (change list)

  -- One round of the loop: the result if the loop ends, and the key's value.
  unfoldable pub try_once :
      {A : Type 0}
      → (List IssueRef → Result (A × List IssueRef))
      → Race Value
      → Option Value
      → Option (Result A) × Option Value
  unfolding get_list after_read
  try_once change race value = after_read change race (get_list race value)

  -- The loop, by the number of tries that are left. The numbers name the tries' races.
  pub retry :
      {A : Type 0}
      → (List IssueRef → Result (A × List IssueRef))
      → String
      → (ℕ → Race Value)
      → ℕ
      → Option Value
      → Result A × Option Value
  unfolding try_once
  retry change failure races zero value = (error failure, value)
  retry change failure races (suc n) value =
      let tried = try_once change (races n) value in
      let rest = retry change failure races n tried.1 in
      elim tried.0 [ some r ↦ (r, tried.1) | none ↦ rest ]

  -- the operations, with `StoreRetries` tries
  unfoldable pub add_reference :
      String → String → String → (ℕ → Race Value) → Option Value → Result (Unit {0}) × Option Value
  unfolding retry add_ref
  add_reference issue_id foreign_user_id foreign_issue_id races value =
      retry (add_ref issue_id foreign_user_id foreign_issue_id) "unable to store installation" races
        3 value

  unfoldable pub remove_reference :
      String → (ℕ → Race Value) → Option Value → Result (Unit {0}) × Option Value
  unfolding retry remove_ref
  remove_reference issue_id races value =
      retry (remove_ref issue_id) "unable to store list" races 3 value

  unfoldable pub pop_reference : (ℕ → Race Value) → Option Value → Result IssueRef × Option Value
  unfolding retry pop_ref
  pop_reference races value = retry pop_ref "unable to store list" races 3 value

  unfoldable pub bump_reference :
      String → (ℕ → Race Value) → Option Value → Result (Unit {0}) × Option Value
  unfolding retry bump_ref
  bump_reference issue_id races value =
      retry (bump_ref issue_id) "unable to store list" races 3 value
