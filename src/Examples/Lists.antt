-- ===== src/Examples/Lists.antt =====
-- The server's lists of references.
use okrbest_plugin_todo.Common.{
  suc, String, ℕ, true, false, Option, none, some, List, [], ◌∷◌, ◌≡◌, refl, str_eq, eq_iff, arith,
  ◌&&◌, Bool, ℕ,
}
use okrbest_plugin_todo.ListStore.{
  IssueRef, ok, Race, quiet, add_ref, remove_ref, pop_ref, bump_ref, add_reference,
  remove_reference, pop_reference, bump_reference, legacy_ref,
}
use okrbest_plugin_todo.ListStore.Bumping.{IsOther}
use okrbest_plugin_todo.ListStore.Removing.{remove_ref-append}
use okrbest_plugin_todo.ListStore.Racing.{Ended, operations-Ended}
use okrbest_plugin_todo.ListStore.Sequential.{new_ref}

abbrev first : IssueRef
first = new_ref "i1" "u2" "j1"

abbrev second : IssueRef
second = legacy_ref "i2"

abbrev third : IssueRef
third = legacy_ref "i3"

other1 : IsOther "i2" first
other1 = ground (arith, eq_iff "i1" "i2")

other3 : IsOther "i2" third
other3 = ground (arith, eq_iff "i3" "i2")

remove_ref-append_example :
    remove_ref "i2" (first ∷ second ∷ third ∷ []) ≡ ok (tt, first ∷ third ∷ [])
remove_ref-append_example =
    remove_ref-append "i2" (first ∷ []) (third ∷ []) second (other1, tt) (other3, tt) refl

-- A key's value is a list itself, in the examples.
same_ref : IssueRef → IssueRef → Bool
same_ref a b =
    str_eq a.issue_id b.issue_id
    && str_eq a.foreign_issue_id b.foreign_issue_id
    && str_eq a.foreign_user_id b.foreign_user_id

same : List IssueRef → List IssueRef → Bool
unfolding same_ref
same [] [] = true
same (a ∷ as') (b ∷ bs) = same_ref a b && same as' bs
same _ _ = false

same_refl : (l : List IssueRef) → same l l ≡ true
unfolding same same_ref
same_refl [] = refl
same_refl (a ∷ l) = ground (
  arith,
  eq_iff a.issue_id a.issue_id,
  eq_iff a.foreign_issue_id a.foreign_issue_id,
  eq_iff a.foreign_user_id a.foreign_user_id,
  same_refl l,
)

abbrev decode_legacy : List IssueRef → Option (List String)
decode_legacy json = none

-- During the first try somebody else adds an issue; the host fails in the second.
abbrev busy : ℕ → Race (List IssueRef)
busy (suc (suc n)) = record quiet { others = λ v. some (third ∷ first ∷ []) }
busy _ = record quiet { get_fails = true }

abbrev stored : Option (List IssueRef)
stored = some (first ∷ [])

-- The new issue stands behind the one that was added in the meantime.
abbrev once : ℕ → Race (List IssueRef)
once (suc (suc n)) = record quiet { others = λ v. some (third ∷ first ∷ []) }
once _ = quiet

added_behind :
    add_reference same some decode_legacy (λ l. l) "i2" "" "" once stored
    ≡ (ok tt, some (third ∷ first ∷ second ∷ []))
unfolding add_reference same same_ref
added_behind = refl

operations-Ended_example :
    let added = add_reference same some decode_legacy (λ l. l) "i2" "u2" "j2" busy stored in
    let removed = remove_reference same some decode_legacy (λ l. l) "i2" busy stored in
    let popped = pop_reference same some decode_legacy (λ l. l) busy stored in
    let bumped = bump_reference same some decode_legacy (λ l. l) "i2" busy stored in
    Ended same some decode_legacy (λ l. l) (add_ref "i2" "u2" "j2") busy stored added.0 added.1
    × Ended same some decode_legacy (λ l. l) (remove_ref "i2") busy stored removed.0 removed.1
    × Ended same some decode_legacy (λ l. l) pop_ref busy stored popped.0 popped.1
    × Ended same some decode_legacy (λ l. l) (bump_ref "i2") busy stored bumped.0 bumped.1
operations-Ended_example =
    operations-Ended same some decode_legacy (λ l. l) busy stored "i2" "u2" "j2"
