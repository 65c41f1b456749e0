-- ===== src/ListStore/Ending.antt =====
-- The loop of `RemoveReference` ends: server/store.go.
use okrbest_plugin_todo.Common.{
  String, ℕ, zero, suc, ◌+◌, ◌-◌, ◌≤◌, Bool, true, some, List, [], ◌∷◌, ◌++◌, ◌≡◌, refl, sym, ap,
  length, take, drop, arith,
}
use mathlib.Core.List.{append-nil}
use okrbest_plugin_todo.ListStore.{IssueRef, remove_loop}
use okrbest_plugin_todo.ListStore.Removing.{length-append}

length-drop : (xs : List IssueRef) → length (drop 1 xs) ≡ length xs - 1
length-drop [] = omega arith
length-drop (x ∷ xs) = omega arith

-- Moving elements of the array one place to the front does not make it longer.
moved-length :
    (k : ℕ) (ir : IssueRef) (rest : List IssueRef)
    → length (take k rest) + length (drop k (ir ∷ rest)) ≤ suc (length rest)
moved-length zero ir rest = omega arith
moved-length (suc zero) ir [] = omega arith
moved-length (suc (suc k)) ir [] = omega arith
moved-length (suc k) ir (x ∷ rest) = omega (arith, moved-length k x rest)

-- As many iterations as the array that is left has elements are enough: with any two such numbers of
-- iterations, from wherever the loop is, it ends in the same way.
remove_loop-enough :
    (issue_id : String) (n m : ℕ) (seen rest : List IssueRef) (len : ℕ) (found : Bool)
    → length rest ≤ n
    → length rest ≤ m
    → remove_loop issue_id n seen rest len found ≡ remove_loop issue_id m seen rest len found
unfolding remove_loop
remove_loop-enough issue_id zero zero seen rest len found h k = refl
remove_loop-enough issue_id zero (suc m) seen [] len found h k =
    ap (λ l. some (take len l, found)) (append-nil seen)
remove_loop-enough issue_id zero (suc m) seen (ir ∷ rest) len found h k = ground (arith, h)
remove_loop-enough issue_id (suc n) zero seen [] len found h k =
    ap (λ l. some (take len l, found)) (sym (append-nil seen))
remove_loop-enough issue_id (suc n) zero seen (ir ∷ rest) len found h k = ground (arith, k)
remove_loop-enough issue_id (suc n) (suc m) seen [] len found h k = refl
remove_loop-enough issue_id (suc n) (suc m) seen (ir ∷ rest) len found h k =
    let j = len - suc (length seen) in
    let moved = take j rest ++ drop j (ir ∷ rest) in
    let short : length (drop 1 moved) ≤ length rest = omega (
      arith,
      length-drop moved,
      length-append (take j rest) (drop j (ir ∷ rest)),
      moved-length j ir rest,
    ) in
    let here =
      remove_loop-enough issue_id n m (seen ++ take 1 moved) (drop 1 moved) (len - 1) true
        (omega (arith, short, h)) (omega (arith, short, k)) in
    let next =
      remove_loop-enough issue_id n m (seen ++ ir ∷ []) rest len found (omega (arith, h))
        (omega (arith, k)) in
    rw (here, next) refl
