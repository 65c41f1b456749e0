-- ===== src/ListStore/Removing.antt =====
-- What removing does to a list: the loop of `RemoveReference` of server/store.go, which changes the
-- array that it runs over.
use mathlib.Core.List.{append-nil, append_assoc}
use okrbest_plugin_todo.Common.{
  String, ℕ, zero, suc, ◌+◌, ◌-◌, Bool, true, false, some, List, [], ◌∷◌, ◌++◌, ◌≡◌, ◌∙◌, sym, refl,
  ap, All, length, take, drop, ltb, str_eq, eq_iff, arith,
}
use okrbest_plugin_todo.ListStore.{IssueRef, ok, error, remove_loop, remove_ref}
use okrbest_plugin_todo.ListStore.Bumping.{IsOther, take-append}

-- A part of the array without the issue changes nothing.
remove_loop-other :
    (issue_id : String) (seen rest : List IssueRef) (n len : ℕ) (found : Bool)
    → All (IsOther issue_id) rest
    → remove_loop issue_id n seen rest len found ≡ some (take len (seen ++ rest), found)
unfolding remove_loop
remove_loop-other issue_id seen rest zero len found h = refl
remove_loop-other issue_id seen [] (suc n) len found h = rw (append-nil seen) refl
remove_loop-other issue_id seen (ir ∷ rest) (suc n) len found h = ground (
  arith,
  eq_iff ir.issue_id issue_id,
  h.0,
  remove_loop-other issue_id (seen ++ ir ∷ []) rest n len found h.1,
  append_assoc seen (ir ∷ []) rest,
)

pub length-append : {A : Type 0} (xs ys : List A) → length (xs ++ ys) ≡ length xs + length ys
length-append [] ys = omega arith
length-append (x ∷ xs) ys = omega (arith, length-append xs ys)

take-all : {A : Type 0} (xs : List A) → take (length xs) xs ≡ xs
take-all [] = refl
take-all (x ∷ xs) = ap (λ zs. x ∷ zs) (take-all xs)

-- Behind the list stays a copy of its latest element.
drop-last :
    {A : Type 0} (x : A) (xs : List A)
    → (y : A) × (drop (length xs) (x ∷ xs) ≡ y ∷ []) × ((P : A → Type 0) → All P (x ∷ xs) → P y)
drop-last x [] = (x, refl, λ P h. h.0)
drop-last x (z ∷ xs) = let (y, e, a) = drop-last z xs in (y, e, λ P h. a P h.1)

pub All-append :
    {A : Type 0} (P : A → Type 0) (xs : List A) (y : A) → All P xs → P y → All P (xs ++ y ∷ [])
All-append P [] y h p = (p, tt)
All-append P (x ∷ xs) y h p = (h.0, All-append P xs y h.1 p)

take-parts :
    {A : Type 0} (seen rest ys : List A)
    → take (length seen + length rest) ((seen ++ rest) ++ ys) ≡ seen ++ rest
take-parts seen rest ys = rw (sym (length-append seen rest)) (take-append (seen ++ rest) ys)

regroup :
    {A : Type 0} (seen rs : List A) (z y : A)
    → (seen ++ z ∷ []) ++ (rs ++ y ∷ []) ≡ (seen ++ z ∷ rs) ++ y ∷ []
regroup seen rs z y =
    append_assoc seen (z ∷ []) (rs ++ y ∷ []) ∙ sym (append_assoc seen (z ∷ rs) (y ∷ []))

-- The rest of the loop after a match: what is moved holds the issue no more.
moved_lem :
    (issue_id : String) (seen rest : List IssueRef) (ir : IssueRef)
    → All (IsOther issue_id) rest
    → (let moved = rest ++ drop (length rest) (ir ∷ rest) in
        remove_loop issue_id
          (length rest)
          (seen ++ take 1 moved)
          (drop 1 moved)
          (length seen + length rest)
          true)
      ≡ some (seen ++ rest, true)
unfolding remove_loop
moved_lem issue_id seen [] ir h =
    ap (λ l. some (l, true))
      (ap (take (length seen + 0)) (append-nil (seen ++ ir ∷ []))
        ∙ (ap (λ l. take (length seen + 0) (l ++ ir ∷ [])) (sym (append-nil seen))
            ∙ take-parts seen [] (ir ∷ [])))
moved_lem issue_id seen (z ∷ rs) ir h =
    let (y, e, a) = drop-last z rs in
    rw e (
      remove_loop-other issue_id (seen ++ z ∷ []) (rs ++ y ∷ []) (length (z ∷ rs))
        (length seen + length (z ∷ rs)) true
        (All-append (IsOther issue_id) rs y h.1 (a (IsOther issue_id) h))
      ∙ ap (λ l. some (l, true))
          (ap (take (length seen + length (z ∷ rs))) (regroup seen rs z y)
            ∙ take-parts seen (z ∷ rs) (y ∷ [])))

remove_loop-match :
    (issue_id : String) (seen rest : List IssueRef) (ir : IssueRef)
    → All (IsOther issue_id) rest
    → ir.issue_id ≡ issue_id
    → remove_loop issue_id
        (suc (length rest))
        seen
        (ir ∷ rest)
        (length seen + suc (length rest))
        false
      ≡ some (seen ++ rest, true)
unfolding remove_loop
remove_loop-match issue_id seen rest ir h e =
    let n = length seen in
    let m = length rest in
    let hit : str_eq ir.issue_id issue_id ≡ true = (eq_iff ir.issue_id issue_id).1 e in
    let inside : ltb n (n + suc m) ≡ true = ground arith in
    let k : n + suc m - suc n ≡ m = omega arith in
    let shorter : n + suc m - 1 ≡ n + m = omega arith in
    rw (hit, inside, k, shorter, take-all rest) (moved_lem issue_id seen rest ir h)

remove_loop-append :
    (issue_id : String) (seen front back : List IssueRef) (ir : IssueRef)
    → All (IsOther issue_id) front
    → All (IsOther issue_id) back
    → ir.issue_id ≡ issue_id
    → remove_loop issue_id
        (length (front ++ ir ∷ back))
        seen
        (front ++ ir ∷ back)
        (length seen + length (front ++ ir ∷ back))
        false
      ≡ some (seen ++ (front ++ back), true)
unfolding remove_loop
remove_loop-append issue_id seen [] back ir f b e = remove_loop-match issue_id seen back ir b e
remove_loop-append issue_id seen (x ∷ front) back ir f b e =
    let list = front ++ ir ∷ back in
    let other : str_eq x.issue_id issue_id ≡ false =
      ground (arith, eq_iff x.issue_id issue_id, f.0) in
    let here : length (seen ++ x ∷ []) + length list ≡ length seen + suc (length list) =
      omega (arith, length-append seen (x ∷ [])) in
    rw (other, sym here)
      (remove_loop-append issue_id (seen ++ x ∷ []) front back ir f.1 b e
        ∙ ap (λ l. some (l, true)) (append_assoc seen (x ∷ []) (front ++ back)))

-- Removing an issue that one reference of the list is of, and no other, takes that reference out
-- and keeps the order of the others, although the loop goes on over the array that it has changed.
pub remove_ref-append :
    (issue_id : String) (front back : List IssueRef) (ir : IssueRef)
    → All (IsOther issue_id) front
    → All (IsOther issue_id) back
    → ir.issue_id ≡ issue_id
    → remove_ref issue_id (front ++ ir ∷ back) ≡ ok (tt, front ++ back)
unfolding remove_ref
remove_ref-append issue_id front back ir f b e =
    let list = front ++ ir ∷ back in
    let whole : 0 + length list ≡ length list = omega arith in
    rw (rw whole at (remove_loop-append issue_id [] front back ir f b e), remove_ref) refl

-- Removing an issue that no reference of the list is of gives an error.
pub remove_ref-missing :
    (issue_id : String) (list : List IssueRef)
    → All (IsOther issue_id) list
    → remove_ref issue_id list ≡ error "cannot find issue"
unfolding remove_ref
remove_ref-missing issue_id list h =
    rw (remove_loop-other issue_id [] list (length list) (length list) false h, remove_ref) refl
