-- ===== src/Menus/Shortcuts.antt =====
-- The menu of an issue and its keys: the entries of webapp/src/components/todo_item/todo_item.jsx
-- below webapp/src/widget/menuItem.tsx.
use okrbest_plugin_todo.Common.{
  String, Bool, true, false, not, ◌&&◌, ◌||◌, none, some, List, [], ◌∷◌, ◌++◌, ◌≡◌, refl, map,
  is_nil, foldl, arith, eq_iff, str_eq, if◌then◌else◌, ◌⊎◌,
}
use okrbest_plugin_todo.Model.{Issue}
use okrbest_plugin_todo.Constants.{tab}
use okrbest_plugin_todo.Utils.{KeyEvent, is_key_pressed, can_remove, can_accept, can_bump}
use okrbest_plugin_todo.TodoItem.{
  Event, click_accept, click_bump, click_edit, click_assign, click_remove,
}
use okrbest_plugin_todo.TodoItem.Shown.{
  Entry, accept_todo, bump, edit_todo, assign_to, delete_todo, menu,
}
use okrbest_plugin_todo.Menus.{
  Wrapper, Item, Pressed, shown, handle_keypress, key_down, nothing_pressed,
}

-- what an entry does to the item, and its shortcut
unfoldable pub entry_item : Entry → Item Event
entry_item accept_todo = record { action = click_accept; shortcut = none }
entry_item bump = record { action = click_bump; shortcut = none }
entry_item edit_todo = record { action = click_edit; shortcut = some "e" }
entry_item assign_to = record { action = click_assign; shortcut = some "a" }
entry_item delete_todo = record { action = click_remove; shortcut = some "d" }

-- what a key is to do on the menu of an issue
abbrev pub meaning : String → String → Issue → List Event
meaning key list issue =
    if str_eq key "e"
    then click_edit ∷ []
    else if str_eq key "a"
    then click_assign ∷ []
    else if str_eq key "d" && can_remove list issue.list
    then click_remove ∷ []
    else []

-- the four cases of a key
which_key_lem :
    (key : String)
    → ((str_eq key "e" ≡ true) × (str_eq key "a" ≡ false) × (str_eq key "d" ≡ false))
      ⊎ ((str_eq key "e" ≡ false) × (str_eq key "a" ≡ true) × (str_eq key "d" ≡ false))
      ⊎ ((str_eq key "e" ≡ false) × (str_eq key "a" ≡ false) × (str_eq key "d" ≡ true))
      ⊎ ((str_eq key "e" ≡ false) × (str_eq key "a" ≡ false) × (str_eq key "d" ≡ false))
which_key_lem key = ground (
  arith,
  eq_iff key "e",
  eq_iff key "a",
  eq_iff key "d",
  eq_iff "e" "a",
  eq_iff "e" "d",
  eq_iff "a" "d",
)

module _ (to_upper : String → String) (e : KeyEvent) (key : String) (h : e.key ≡ some key) where
  abbrev PressedAs : List Event → Pressed Event → Type 0
  PressedAs actions p =
      (p.actions ≡ actions)
      × (p.item_clicked ≡ not (is_nil actions))
      × (p.prevented ≡ (not (is_key_pressed to_upper e tab) || not (is_nil actions)))

  -- `a` and `b` tell whether the entries to accept and to bump are there, `r` whether the one to
  -- delete is.
  entries_lem :
      (a b r : Bool)
      → PressedAs
          (if str_eq key "e"
            then click_edit ∷ []
            else if str_eq key "a"
            then click_assign ∷ []
            else if str_eq key "d" && r
            then click_remove ∷ []
            else [])
          (foldl (handle_keypress to_upper e) nothing_pressed (
            map entry_item (
              (if a then accept_todo ∷ [] else [])
              ++ ((if b then bump ∷ [] else [])
                  ++ (edit_todo ∷ assign_to ∷ (if r then delete_todo ∷ [] else []))))))
  unfolding handle_keypress entry_item
  entries_lem true true true = ground (arith, which_key_lem key)
  entries_lem true true false = ground (arith, which_key_lem key)
  entries_lem true false true = ground (arith, which_key_lem key)
  entries_lem true false false = ground (arith, which_key_lem key)
  entries_lem false true true = ground (arith, which_key_lem key)
  entries_lem false true false = ground (arith, which_key_lem key)
  entries_lem false false true = ground (arith, which_key_lem key)
  entries_lem false false false = ground (arith, which_key_lem key)

  -- While an issue's menu is shown, a key does what the entry with this shortcut does, once, and
  -- closes the menu; a key with no entry does nothing. `d` has an entry only where the issue can be
  -- removed. The key's default action is prevented unless the key is Tab with no entry. No key does
  -- anything while the menu is not shown.
  pub key_down_lem :
      (list : String) (issue : Issue) (w : Wrapper)
      → (let p = key_down to_upper e w (map entry_item (menu list issue)) in
          (shown w ≡ true → PressedAs (meaning key list issue) p)
          × (shown w ≡ false → p ≡ nothing_pressed))
  unfolding key_down menu
  key_down_lem list issue w = (
    λ s.
        rw (s, key_down)
          (entries_lem (can_accept list) (can_bump list issue.list) (can_remove list issue.list)),
    λ s. rw (s, key_down) refl,
  )
