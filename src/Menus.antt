-- ===== src/Menus.antt =====
-- webapp/src/widget/menuWrapper.tsx and webapp/src/widget/menuItem.tsx: a menu that opens and
-- closes, and its entries with their shortcuts. A page has several menus, whose listeners stand on
-- the document.
pub mod Page
pub mod Shortcuts
use okrbest_plugin_todo.Common.{
  String, ℕ, zero, suc, Bool, true, false, not, ◌&&◌, ◌||◌, Option, none, some, List, [], ◌∷◌, ◌++◌,
  map, is_nil, nat_eq, str_eq, truthy, if◌then◌else◌, foldl,
}
use okrbest_plugin_todo.Constants.{tab}
use okrbest_plugin_todo.Utils.{KeyEvent, is_key_pressed}

pub record Wrapper : Type 0 where
  pub is_open : Bool
  pub disabled : Bool

-- `useState(Boolean(props.isOpen))`
abbrev pub new : Bool → Bool → Wrapper
new is_open disabled = record { is_open = is_open; disabled = disabled }

unfoldable pub close : Wrapper → Wrapper
close w = record w { is_open = false }

-- by whether the event's target is in the wrapper
unfoldable pub close_on_blur : Bool → Wrapper → Wrapper
unfolding close
close_on_blur inside w = if inside then w else close w

unfoldable pub keyboard_close : String → Bool → Wrapper → Wrapper
unfolding close close_on_blur
keyboard_close key inside w =
    let w' = if str_eq key "Escape" then close w else w in
    if str_eq key "Tab" then close_on_blur inside w' else w'

unfoldable pub toggle : Wrapper → Wrapper
toggle w = if w.disabled then w else record w { is_open = not w.is_open }

-- whether the second child, the menu, is rendered
unfoldable pub shown : Wrapper → Bool
shown w = not w.disabled && w.is_open

-- A click: the document's listener takes it first, and it bubbles to the wrapper that it is in.
unfoldable pub click : Bool → Wrapper → Wrapper
unfolding close_on_blur toggle
click inside w = let w' = close_on_blur inside w in if inside then toggle w' else w'

-- What happens on the page. A target is the number of the wrapper that it is in, if it is in any.
pub data Event : Type 0 where
  clicked : Option ℕ → Event
  key_up : String → Option ℕ → Event
  menu_item_clicked : Event
  mounts : Bool → Event

abbrev pub is_target : Option ℕ → ℕ → Bool
is_target none i = false
is_target (some j) i = nat_eq j i

-- Every wrapper's listeners, from the wrapper with the number `i`.
pub each : (ℕ → Wrapper → Wrapper) → ℕ → List Wrapper → List Wrapper
each f i [] = []
each f i (w ∷ ws) = f i w ∷ each f (suc i) ws

unfoldable pub step : List Wrapper → Event → List Wrapper
unfolding each click keyboard_close close
step ws (clicked target) = each (λ i. click (is_target target i)) 0 ws
step ws (key_up key target) = each (λ i. keyboard_close key (is_target target i)) 0 ws
step ws menu_item_clicked = each (λ i. close) 0 ws
step ws (mounts disabled) = ws ++ new false disabled ∷ []

abbrev pub run : List Wrapper → List Event → List Wrapper
run = foldl step

-- An entry of a menu, while the menu is rendered.
pub record Item (A : Type 0) : Type 0 where
  pub action : A
  pub shortcut : Option String

-- `e.key === shortcut`, where both may be undefined
abbrev pub same_key : Option String → Option String → Bool
same_key none none = true
same_key (some a) (some b) = str_eq a b
same_key _ _ = false

-- What a key does to a menu: the actions that are called, whether `menuItemClicked` is dispatched,
-- and whether the key's default action is prevented.
pub record Pressed (A : Type 0) : Type 0 where
  pub actions : List A
  pub item_clicked : Bool
  pub prevented : Bool

abbrev pub nothing_pressed : {A : Type 0} → Pressed A
nothing_pressed = record { actions = []; item_clicked = false; prevented = false }

module _ (to_upper : String → String) {A : Type 0} where
  -- `handleKeypress` of one entry; the event has a target
  unfoldable pub handle_keypress : KeyEvent → Pressed A → Item A → Pressed A
  handle_keypress e p item =
      let p' =
        if same_key e.key item.shortcut
        then record p {
          actions = p.actions ++ item.action ∷ [];
          item_clicked = true;
          prevented = true;
        }
        else p in
      if not (is_key_pressed to_upper e tab) then record p' { prevented = true } else p'

  -- The entries' listeners in turn; those of a menu that is not shown are not there.
  unfoldable pub key_down : KeyEvent → Wrapper → List (Item A) → Pressed A
  unfolding handle_keypress shown
  key_down e w items =
      if shown w then foldl (handle_keypress e) nothing_pressed items else nothing_pressed
