-- ===== src/Utils/Keys.antt =====
-- `isKeyPressed` of webapp/src/utils.js over the table of webapp/src/constants.jsx.
use mathlib.Core.List.{Memᴰ}
use okrbest_plugin_todo.Common.{String, true, none, some, ◌≡◌, ◌≢◌, ◌⊎◌, arith}
use okrbest_plugin_todo.Constants.{Key, key_codes, composing}
use okrbest_plugin_todo.Constants.Codes.{key_codes_distinct}
use okrbest_plugin_todo.Utils.{KeyEvent, is_key_pressed}

-- The browser does not tell the key's meaning.
abbrev pub IsUnidentified : KeyEvent → Type 0
IsUnidentified event =
    (event.key ≡ none) ⊎ (event.key ≡ some "Unidentified") ⊎ (event.key ≡ some "Dead")

module _ (to_upper : String → String) where
  -- Without a key's meaning a key is taken for the one at its position, and never while composing.
  code_of_pressed :
      (event : KeyEvent) (k : Key)
      → IsUnidentified event
      → is_key_pressed to_upper event k ≡ true
      → (event.key_code ≡ k.1) × (event.key_code ≢ composing.1)
  unfolding is_key_pressed
  code_of_pressed event k u h = ground arith

  -- An event whose key is not identified by the browser presses at most one entry of the table of
  -- keys, and never the entry for composing.
  pub is_key_pressed_unique :
      (event : KeyEvent) (n m : String) (k l : Key)
      → IsUnidentified event
      → Memᴰ (n, k) key_codes
      → Memᴰ (m, l) key_codes
      → is_key_pressed to_upper event k ≡ true
      → is_key_pressed to_upper event l ≡ true
      → (n ≡ m) × (k.1 ≢ composing.1)
  is_key_pressed_unique event n m k l u p q hk hl =
      let (e, f) = code_of_pressed event k u hk in
      let (g, _) = code_of_pressed event l u hl in
      (key_codes_distinct n m k l p q (ground arith), ground arith)
