-- ===== src/Utils/Names.antt =====
-- The names shown for a user: `getFullName` and `getDescription` of webapp/src/utils.js.
use Prim.Native.String
use text.Mathlib.TextLemmas.{append-eq-nil_iff}
use okrbest_plugin_todo.Common.{String, ◌≡◌, ◌≢◌, ◌↔◌, eq_iff, arith, concat, [], ◌∷◌}
use okrbest_plugin_todo.Model.{User}
use okrbest_plugin_todo.Utils.{get_full_name, get_description}

nonempty-append : (s t : String) → s ≢ "" → String.◌++◌ s t ≢ ""
nonempty-append s t h e = h (append-eq-nil_iff.0 e).0

full_name_lem : (u : User) → (get_full_name u ≡ "") ↔ ((u.first_name ≡ "") × (u.last_name ≡ ""))
unfolding get_full_name
full_name_lem u = ground (
  arith,
  eq_iff u.first_name "",
  eq_iff u.last_name "",
  nonempty-append u.first_name (String.◌++◌ " " u.last_name),
)

dash-ne-empty : (t : String) → String.◌++◌ "- " t ≢ ""
dash-ne-empty t = nonempty-append "- " t (ground (arith, eq_iff "- " ""))

paren-ne-empty : (t : String) → String.◌++◌ "- (" t ≢ ""
paren-ne-empty t = nonempty-append "- (" t (ground (arith, eq_iff "- (" ""))

description_lem :
    (u : User)
    → (get_description u ≡ "") ↔ ((u.first_name ≡ "") × (u.last_name ≡ "") × (u.nickname ≡ ""))
unfolding get_description
description_lem u = ground (
  arith,
  eq_iff u.first_name "",
  eq_iff u.last_name "",
  eq_iff u.nickname "",
  dash-ne-empty (concat (get_full_name u ∷ " (" ∷ u.nickname ∷ ")" ∷ [])),
  dash-ne-empty (get_full_name u),
  paren-ne-empty (concat (u.nickname ∷ ")" ∷ [])),
)

-- The description of a user is empty exactly when the user has neither a first nor a last name
-- nor a nickname; the full name is empty exactly when there is neither a first nor a last name.
pub get_description-eq-empty :
    (u : User)
    → ((get_description u ≡ "") ↔ ((u.first_name ≡ "") × (u.last_name ≡ "") × (u.nickname ≡ "")))
      × ((get_full_name u ≡ "") ↔ ((u.first_name ≡ "") × (u.last_name ≡ "")))
get_description-eq-empty u = (description_lem u, full_name_lem u)
