-- ===== src/ListStore/Bumping.antt =====
-- What bumping does to a list: `BumpReference` of server/store.go.
use mathlib.Core.List.{append-nil}
use okrbest_plugin_todo.Common.{
  String, ℕ, suc, ◌+◌, false, Option, none, some, List, [], ◌∷◌, ◌++◌, ◌≡◌, ◌≢◌, ◌∙◌, refl, ap, All,
  length, take, drop, nat_eq, eq_iff, arith,
}
use okrbest_plugin_todo.ListStore.{IssueRef, ok, error, search, to_front, bump_ref}

-- The reference is of another issue.
abbrev pub IsOther : String → IssueRef → Type 0
IsOther issue_id ir = ir.issue_id ≢ issue_id

search-found :
    (issue_id : String) (i : ℕ) (latest : ℕ × Option IssueRef) (front back : List IssueRef)
    (ir : IssueRef)
    → All (IsOther issue_id) front
    → ir.issue_id ≡ issue_id
    → search issue_id i latest (front ++ ir ∷ back) ≡ (i + length front, some ir)
unfolding search
search-found issue_id i latest [] back ir h e = ground (arith, eq_iff issue_id ir.issue_id)
search-found issue_id i latest (x ∷ front) back ir h e = ground (
  arith,
  eq_iff issue_id x.issue_id,
  h.0,
  search-found issue_id (suc i) (i, some x) front back ir h.1 e,
)

search-missing :
    (issue_id : String) (i : ℕ) (latest : ℕ × Option IssueRef) (front : List IssueRef)
    (ir : IssueRef)
    → All (IsOther issue_id) front
    → IsOther issue_id ir
    → search issue_id i latest (front ++ ir ∷ []) ≡ (i + length front, some ir)
unfolding search
search-missing issue_id i latest [] ir h e = ground (arith, eq_iff issue_id ir.issue_id)
search-missing issue_id i latest (x ∷ front) ir h e = ground (
  arith,
  eq_iff issue_id x.issue_id,
  h.0,
  search-missing issue_id (suc i) (i, some x) front ir h.1 e,
)

pub take-append : {A : Type 0} (xs ys : List A) → take (length xs) (xs ++ ys) ≡ xs
take-append [] ys = refl
take-append (x ∷ xs) ys = ap (λ zs. x ∷ zs) (take-append xs ys)

drop-append : {A : Type 0} (xs ys : List A) (y : A) → drop (suc (length xs)) (xs ++ y ∷ ys) ≡ ys
drop-append [] ys y = refl
drop-append (x ∷ xs) ys y = drop-append xs ys y

length-append :
    {A : Type 0} (xs ys : List A) (y : A) → nat_eq (length xs) (length (xs ++ y ∷ ys)) ≡ false
length-append [] ys y = ground arith
length-append (x ∷ xs) ys y = ground (arith, length-append xs ys y)

to_front-append :
    (i : ℕ) (front back : List IssueRef) (ir : IssueRef)
    → i ≡ length front
    → to_front (i, some ir) (front ++ ir ∷ back) ≡ ok (tt, ir ∷ front ++ back)
unfolding to_front
to_front-append i front back ir e =
    rw (e, length-append front back ir, take-append front (ir ∷ back), drop-append front back ir)
      refl

-- Bumping an issue that is in a list moves its first reference to the front and keeps the order of
-- the others. An empty list gives an error.
pub bump_ref-append :
    (issue_id : String) (front back : List IssueRef) (ir : IssueRef)
    → All (IsOther issue_id) front
    → ir.issue_id ≡ issue_id
    → (bump_ref issue_id (front ++ ir ∷ back) ≡ ok (tt, ir ∷ front ++ back))
      × (bump_ref issue_id [] ≡ error "cannot find issue")
unfolding bump_ref
bump_ref-append issue_id front back ir h e = (
  rw (search-found issue_id 0 (0, none) front back ir h e)
      (to_front-append (0 + length front) front back ir (omega arith)),
  refl,
)

-- Bumping an issue that is not in a list is no error unless the list is empty: it moves the last
-- reference, of another issue, to the front.
pub bump_ref-missing :
    (issue_id : String) (front : List IssueRef) (ir : IssueRef)
    → All (IsOther issue_id) front
    → IsOther issue_id ir
    → bump_ref issue_id (front ++ ir ∷ []) ≡ ok (tt, ir ∷ front)
unfolding bump_ref
bump_ref-missing issue_id front ir h e = rw (search-missing issue_id 0 (0, none) front ir h e) (
    to_front-append (0 + length front) front [] ir (omega arith)
    ∙ ap (λ l. ok (tt, ir ∷ l)) (append-nil front))
