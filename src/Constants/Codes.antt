-- ===== src/Constants/Codes.antt =====
-- The table `KeyCodes` of webapp/src/constants.jsx: its entries are told apart by their keyCode.
use mathlib.Core.List.{Memᴰ}
use okrbest_plugin_todo.Common.{
  String, Bool, true, not, ◌&&◌, ◌||◌, List, [], ◌∷◌, ◌≡◌, refl, nat_eq, str_eq, eq_iff, arith,
}
use okrbest_plugin_todo.Constants.{Key, key_codes}

all : {A : Type 0} → (A → Bool) → List A → Bool
all p [] = true
all p (x ∷ xs) = p x && all p xs

all_of_mem :
    {A : Type 0} (p : A → Bool) {x : A} (xs : List A) → all p xs ≡ true → Memᴰ x xs → p x ≡ true
unfolding all
all_of_mem p [] h m = elim m [ ]
all_of_mem p (y ∷ ys) h (Memᴰ.head e) = ground arith
all_of_mem p (y ∷ ys) h (Memᴰ.tail m) = all_of_mem p ys (ground arith) m

-- two entries with one keyCode have one name
agree : String × Key → String × Key → Bool
agree (n, k) (m, l) = not (nat_eq k.1 l.1) || str_eq n m

table_agrees : all (λ e. all (agree e) key_codes) key_codes ≡ true
unfolding all agree
table_agrees = refl

-- Two entries of the table with the same keyCode have the same name.
pub key_codes_distinct :
    (n m : String) (k l : Key) → Memᴰ (n, k) key_codes → Memᴰ (m, l) key_codes → k.1 ≡ l.1 → n ≡ m
unfolding agree
key_codes_distinct n m k l p q e = ground (
  arith,
  eq_iff n m,
  all_of_mem (agree (n, k)) {x = (m, l)} key_codes
      (all_of_mem (λ e. all (agree e) key_codes) {x = (n, k)} key_codes table_agrees p) q,
)
