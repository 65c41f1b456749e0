-- ===== src/Examples/Helpers.antt =====
-- Keys, permissions, and names.
use mathlib.Core.List.{Memᴰ}
use okrbest_plugin_todo.Common.{String, true, false, none, ◌≡◌, refl}
use okrbest_plugin_todo.Constants.{key_codes, tab}
use okrbest_plugin_todo.Utils.{KeyEvent, is_key_pressed}

abbrev to_upper : String → String
to_upper s = s

-- the key Tab of an old browser
abbrev old_tab : KeyEvent
old_tab = record { key = none; key_code = 9; alt_key = false; shift_key = false }

tab_pressed : is_key_pressed to_upper old_tab tab ≡ true
unfolding is_key_pressed
tab_pressed = refl

tab_listed : Memᴰ ("TAB", tab) key_codes
tab_listed = Memᴰ.tail (Memᴰ.head refl)
