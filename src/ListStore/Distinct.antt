-- ===== src/ListStore/Distinct.antt =====
-- The operations of server/store.go on a list that has at most one reference of each issue.
use mathlib.Core.List.{append-nil}
use okrbest_plugin_todo.Common.{
  String, Bool, true, false, List, [], ◌∷◌, ◌++◌, ◌≡◌, ◌⊎◌, inl, inr, refl, sym, ap, subst, All,
  any, str_eq, if◌then◌else◌, eq_iff, arith,
}
use okrbest_plugin_todo.ListStore.{
  IssueRef, Result, error, panic, ok, add_ref, remove_ref, pop_ref, bump_ref,
}
use okrbest_plugin_todo.ListStore.Bumping.{IsOther, bump_ref-append, bump_ref-missing}
use okrbest_plugin_todo.ListStore.Removing.{remove_ref-append, remove_ref-missing, All-append}
use okrbest_plugin_todo.ListStore.Sequential.{new_ref}

-- No two references of the list are of the same issue.
abbrev pub IsDistinct : List IssueRef → Type 0
IsDistinct [] = Unit
IsDistinct (ir ∷ list) = All (IsOther ir.issue_id) list × IsDistinct list

-- The list that an operation leaves, if there is one.
abbrev pub Leaves : {A : Type 0} → (List IssueRef → Type 0) → Result (A × List IssueRef) → Type 0
Leaves P (error e) = Unit
Leaves P panic = ⊥
Leaves P (ok (a, list)) = P list

-- A list is without the issue, or has a first reference of it.
abbrev Located : String → List IssueRef → Type 0
Located id list =
    All (IsOther id) list
    ⊎ ((front : List IssueRef) × (ir : IssueRef) × (back : List IssueRef) × (list
          ≡ front ++ ir ∷ back)
        × All (IsOther id) front
        × (ir.issue_id ≡ id))

located : (id : String) (list : List IssueRef) → Located id list
located id [] = inl tt
located id (ir ∷ list) = here (str_eq ir.issue_id id) refl (located id list)
  where
    here : (b : Bool) → str_eq ir.issue_id id ≡ b → Located id list → Located id (ir ∷ list)
    here true e l = inr ([], ir, list, refl, tt, (eq_iff ir.issue_id id).0 e)
    here false e (inl h) = inl (ground (arith, eq_iff ir.issue_id id), h)
    here false e (inr (front, x, back, p, f, i)) =
        inr (ir ∷ front, x, back, ap (λ l. ir ∷ l) p, (ground (arith, eq_iff ir.issue_id id), f), i)

All-parts :
    (P : IssueRef → Type 0) (front back : List IssueRef) (ir : IssueRef)
    → All P (front ++ ir ∷ back)
    → P ir × All P (front ++ back)
All-parts P [] back ir h = h
All-parts P (x ∷ front) back ir h = let (i, r) = All-parts P front back ir h.1 in (i, (h.0, r))

-- Without one of its references a list stays distinct, and is without the reference's issue.
parts_lem :
    (front back : List IssueRef) (ir : IssueRef)
    → IsDistinct (front ++ ir ∷ back)
    → IsDistinct (front ++ back) × All (IsOther ir.issue_id) (front ++ back)
parts_lem [] back ir h = (h.1, h.0)
parts_lem (x ∷ front) back ir h =
    let (d, a) = parts_lem front back ir h.1 in
    let (i, r) = All-parts (IsOther x.issue_id) front back ir h.0 in ((r, d), ((λ e. i (sym e)), a))

All-back : (P : IssueRef → Type 0) (front back : List IssueRef) → All P (front ++ back) → All P back
All-back P [] back h = h
All-back P (x ∷ front) back h = All-back P front back h.1

IsDistinct-append :
    (list : List IssueRef) (ir : IssueRef)
    → IsDistinct list
    → All (IsOther ir.issue_id) list
    → IsDistinct (list ++ ir ∷ [])
IsDistinct-append [] ir d a = (tt, tt)
IsDistinct-append (x ∷ list) ir d a = (
  All-append (IsOther x.issue_id) list ir d.0 (λ e. a.0 (sym e)),
  IsDistinct-append list ir d.1 a.1,
)

pub remove_ref-IsDistinct :
    (id : String) (list : List IssueRef) → IsDistinct list → Leaves IsDistinct (remove_ref id list)
remove_ref-IsDistinct id list d = by (located id list)
  where
    by : Located id list → Leaves IsDistinct (remove_ref id list)
    by (inl h) = rw (remove_ref-missing id list h) tt
    by (inr (front, ir, back, e, f, i)) =
        let (d', a) = parts_lem front back ir (subst IsDistinct e d) in
        rw
          (
            e,
            remove_ref-append id front back ir f
                (All-back (IsOther id) front back
                  (subst (λ j. All (IsOther j) (front ++ back)) i a))
                i,
          )
          d'

pub add_ref-IsDistinct :
    (id user foreign : String) (list : List IssueRef)
    → IsDistinct list
    → Leaves IsDistinct (add_ref id user foreign list)
unfolding add_ref
add_ref-IsDistinct id user foreign list d =
    by (any (λ (ir : IssueRef). str_eq ir.issue_id id) list) (absent list)
  where
    absent :
        (l : List IssueRef)
        → any (λ (ir : IssueRef). str_eq ir.issue_id id) l ≡ false
        → All (IsOther id) l
    absent [] e = tt
    absent (ir ∷ l) e = (ground (arith, eq_iff ir.issue_id id, e), absent l (ground (arith, e)))

    by :
        (b : Bool)
        → (b ≡ false → All (IsOther id) list)
        → Leaves IsDistinct (
            if b
            then error "issue id already exists in list"
            else ok (tt, list ++ new_ref id user foreign ∷ []))
    by true h = tt
    by false h = IsDistinct-append list (new_ref id user foreign) d (h refl)

pub pop_ref-IsDistinct : (list : List IssueRef) → IsDistinct list → Leaves IsDistinct (pop_ref list)
unfolding pop_ref
pop_ref-IsDistinct [] d = tt
pop_ref-IsDistinct (ir ∷ list) d = d.1

-- A list that is not empty, by its last reference.
last_lem :
    (ir : IssueRef) (list : List IssueRef)
    → (front : List IssueRef) × (x : IssueRef) × (ir ∷ list ≡ front ++ x ∷ [])
last_lem ir [] = ([], ir, refl)
last_lem ir (y ∷ list) = let (front, x, e) = last_lem y list in (ir ∷ front, x, ap (λ l. ir ∷ l) e)

bump_ref-nil : (id : String) → Leaves IsDistinct (bump_ref id [])
unfolding bump_ref
bump_ref-nil id = tt

pub bump_ref-IsDistinct :
    (id : String) (list : List IssueRef) → IsDistinct list → Leaves IsDistinct (bump_ref id list)
bump_ref-IsDistinct id list d = by list d (located id list)
  where
    moved :
        (front back : List IssueRef) (ir : IssueRef)
        → IsDistinct (front ++ ir ∷ back)
        → IsDistinct (ir ∷ front ++ back)
    moved front back ir h = let (k, a) = parts_lem front back ir h in (a, k)

    by : (l : List IssueRef) → IsDistinct l → Located id l → Leaves IsDistinct (bump_ref id l)
    by [] h (inl o) = bump_ref-nil id
    by (x ∷ l) h (inl o) =
        let (front, y, e) = last_lem x l in
        let p = All-parts (IsOther id) front [] y (subst (All (IsOther id)) e o) in
        rw (e, bump_ref-missing id front y (subst (All (IsOther id)) (append-nil front) p.1) p.0)
          (subst (λ m. IsDistinct (y ∷ m)) (append-nil front)
            (moved front [] y (subst IsDistinct e h)))
    by l h (inr (front, ir, back, e, f, i)) =
        rw (e, (bump_ref-append id front back ir f i).0)
          (moved front back ir (subst IsDistinct e h))
