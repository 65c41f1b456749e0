-- ===== src/ListStore/Sequential.antt =====
-- Operations on a list while nobody else writes it: server/store.go.
use mathlib.Core.List.{append-nil}
use okrbest_plugin_todo.Common.{
  String, ℕ, suc, Bool, true, false, Option, some, List, [], ◌∷◌, ◌++◌, ◌≡◌, refl, ap, ◌∙◌, All,
  any, str_eq, eq_iff, arith,
}
use okrbest_plugin_todo.ListStore.{
  IssueRef, Result, ok, Race, quiet, same_value, get_list, save_list, after_save, store_change,
  after_read, try_once, retry, add_ref, remove_ref, add_reference, remove_reference,
}
use okrbest_plugin_todo.ListStore.Bumping.{IsOther}
use okrbest_plugin_todo.ListStore.Removing.{remove_ref-append}

-- nobody else writes, and the host does not fail
abbrev pub no_race : {Value : Type 0} → ℕ → Race Value
no_race n = quiet

abbrev pub new_ref : String → String → String → IssueRef
new_ref issue_id user foreign = record {
  issue_id = issue_id;
  foreign_issue_id = foreign;
  foreign_user_id = user;
}

-- A new issue is added at the end.
pub add_ref-new :
    (issue_id user foreign : String) (list : List IssueRef)
    → All (IsOther issue_id) list
    → add_ref issue_id user foreign list ≡ ok (tt, list ++ new_ref issue_id user foreign ∷ [])
unfolding add_ref
add_ref-new issue_id user foreign list h = rw (absent list h, add_ref) refl
  where
    absent :
        (l : List IssueRef)
        → All (IsOther issue_id) l
        → any (λ (ir : IssueRef). str_eq ir.issue_id issue_id) l ≡ false
    absent [] h = refl
    absent (ir ∷ l) h = ground (arith, eq_iff ir.issue_id issue_id, h.0, absent l h.1)

module _ {Value : Type 0} (same : Value → Value → Bool) (decode : Value → Option (List IssueRef))
    (decode_legacy : Value → Option (List String)) (encode : List IssueRef → Value)
    (same_refl : (v : Value) → same v v ≡ true)
    (decode-encode : (l : List IssueRef) → decode (encode l) ≡ some l) where
  -- With nobody else writing, the first try does what the change makes of the list.
  retry-quiet :
      {A : Type 0} (change : List IssueRef → Result (A × List IssueRef)) (failure : String) (n : ℕ)
      (list list' : List IssueRef) (a : A)
      → change list ≡ ok (a, list')
      → retry same decode decode_legacy encode change failure no_race (suc n) (some (encode list))
        ≡ (ok a, some (encode list'))
  unfolding retry try_once after_read get_list store_change save_list same_value after_save
  retry-quiet change failure n list list' a c =
      ground (arith, decode-encode list, c, same_refl (encode list))

  -- With nobody else writing, and a host that does not fail: an issue that no reference of a stored
  -- list is of is added at the end of the list, and removing it then gives back the list as it was.
  pub remove_reference-add_reference :
      (list : List IssueRef) (issue_id user foreign : String)
      → All (IsOther issue_id) list
      → (let added =
            add_reference same decode decode_legacy encode issue_id user foreign no_race
              (some (encode list)) in
          (added ≡ (ok tt, some (encode (list ++ new_ref issue_id user foreign ∷ []))))
          × (remove_reference same decode decode_legacy encode issue_id no_race added.1
              ≡ (ok tt, some (encode list))))
  unfolding add_reference remove_reference
  remove_reference-add_reference list issue_id user foreign h =
      let longer = list ++ new_ref issue_id user foreign ∷ [] in
      let added =
        retry-quiet (add_ref issue_id user foreign) "unable to store installation" 2 list longer tt
          (add_ref-new issue_id user foreign list h) in
      let removed = retry-quiet (remove_ref issue_id) "unable to store list" 2 longer list tt (
        remove_ref-append issue_id list [] (new_ref issue_id user foreign) h tt refl
        ∙ ap (λ l. ok (tt, l)) (append-nil list)) in
      (
        added,
        ap (λ p. remove_reference same decode decode_legacy encode issue_id no_race p.1) added
            ∙ removed,
      )
