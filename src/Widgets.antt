-- ===== src/Widgets.antt =====
-- webapp/src/widget and the small components of webapp/src/components/buttons and
-- webapp/src/components/icons: the classes and texts by which they show their state. An object that
-- maps class names to conditions is the list of its entries in their order.
pub mod Classes
use okrbest_plugin_todo.Common.{
  String, Bool, true, false, not, ◌&&◌, Option, none, some, List, [], ◌∷◌, truthy, truthy?, is_some,
  or_else, str_eq, concat, if◌then◌else◌,
}
use okrbest_plugin_todo.Utils.{generate_class_name}

-- A property that is not there yet comes last, and one that is there keeps its place.
pub set_property : String → Bool → List (String × Bool) → List (String × Bool)
set_property name value [] = (name, value) ∷ []
set_property name value ((n, v) ∷ entries) =
    if str_eq n name then (n, value) ∷ entries else (n, v) ∷ set_property name value entries

-- a property that may be undefined in a template literal
abbrev pub shown : Option String → String
shown p = or_else p "undefined"

-- `size--${props.size}` with its condition, and likewise for `emphasis`
abbrev prefixed : String → Option String → List (String × Bool) → List (String × Bool)
prefixed start p = set_property (concat (start ∷ shown p ∷ [])) (truthy? p)

-- `${props.className}` with its condition
abbrev own_class : Option String → List (String × Bool) → List (String × Bool)
own_class p = set_property (shown p) (truthy? p)

pub record ButtonProps : Type 0 where
  pub active : Bool
  pub filled : Bool
  pub danger : Bool
  pub submit : Bool
  pub emphasis : Option String
  pub size : Option String
  pub class_name : Option String
  pub right_icon : Bool
  pub disabled : Bool

unfoldable pub button_class : ButtonProps → String
unfolding set_property
button_class props = generate_class_name (
    own_class props.class_name (
      prefixed "size--" props.size (
        prefixed "emphasis--" props.emphasis (
          ("Button", true)
          ∷ ("active", props.active)
          ∷ ("filled", props.filled)
          ∷ ("danger", props.danger)
          ∷ []))))

unfoldable pub button_type : ButtonProps → String
button_type props = if props.submit then "submit" else "button"

-- Whether an icon stands before and after the text, for one that is given.
unfoldable pub icon_places : Bool → Bool × Bool
icon_places right_icon = (not right_icon, right_icon)

unfoldable pub chip_class : Option String → Option String → String
unfolding set_property
chip_class size class_name =
    generate_class_name (own_class class_name (prefixed "size--" size (("Chip", true) ∷ [])))

unfoldable pub icon_button_class : Option String → Option String → Option String → String
unfolding set_property
icon_button_class inverted class_name size = generate_class_name (
    prefixed "size--" size
      (own_class class_name (("IconButton", true) ∷ ("style--inverted", truthy? inverted) ∷ [])))

unfoldable pub compass_icon_class : String → Option String → String
compass_icon_class icon class_name =
    concat ("CompassIcon Icon icon-" ∷ icon ∷ " " ∷ shown class_name ∷ [])

unfoldable pub text_option_class : Option String → String
text_option_class class_name =
    if truthy? class_name
    then concat ("MenuOption TextOption menu-option" ∷ " " ∷ or_else class_name "" ∷ [])
    else "MenuOption TextOption menu-option"

unfoldable pub menu_class : Option String → String
menu_class position =
    concat
      ("TodoMenu noselect " ∷ (if truthy? position then or_else position "" else "bottom") ∷ [])

unfoldable pub menu_wrapper_class : Bool → Option String → String
menu_wrapper_class disabled class_name =
    let c = if disabled then concat ("TodoMenuWrapper" ∷ " disabled" ∷ []) else "TodoMenuWrapper" in
    if truthy? class_name then concat (c ∷ " " ∷ or_else class_name "" ∷ []) else c

-- the button of webapp/src/components/buttons/complete.jsx
unfoldable pub complete_button_class : Bool → String
complete_button_class active =
    concat ("todo-item__checkbox " ∷ (if active then "todo-item__checkbox--active" else "") ∷ [])

-- the text of webapp/src/components/buttons/remove.jsx, with its default
unfoldable pub remove_button_text : Option String → String
remove_button_text list = if str_eq (or_else list "my") "out" then "Cancel" else "Won't do"
