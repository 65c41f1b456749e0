-- ===== src/Widgets/Classes.antt =====
-- What the classes of webapp/src/widget come to: the object of conditions that they are made of.
use okrbest_plugin_todo.Common.{
  String, Bool, false, none, some, List, [], ◌∷◌, ◌≡◌, refl, lookup, str_eq, eq_iff, arith,
  if◌then◌else◌,
}
use okrbest_plugin_todo.Utils.{generate_class_name}
use okrbest_plugin_todo.Widgets.{
  set_property, button_class, chip_class, menu_class, compass_icon_class, ButtonProps,
}

-- Setting a property changes what is found under its name and nothing else.
lookup-set_property :
    (name other : String) (value : Bool) (entries : List (String × Bool))
    → lookup other (set_property name value entries)
      ≡ (if str_eq name other then some value else lookup other entries)
unfolding set_property
lookup-set_property name other value [] = refl
lookup-set_property name other value ((n, v) ∷ entries) = ground (
  arith,
  eq_iff name other,
  eq_iff n name,
  eq_iff n other,
  lookup-set_property name other value entries,
)

abbrev save : ButtonProps
save = record {
  active = false;
  filled = false;
  danger = false;
  submit = false;
  emphasis = some "primary";
  size = some "small";
  class_name = none;
  right_icon = false;
  disabled = false;
}

save_class : button_class save ≡ "Button emphasis--primary size--small"
unfolding button_class generate_class_name
save_class = refl

assign_chip_class : chip_class none none ≡ "Chip"
unfolding chip_class generate_class_name
assign_chip_class = refl

-- A class name that is a condition's name takes the condition over.
active_class :
    button_class (record save { class_name = some "active" })
    ≡ "Button active emphasis--primary size--small"
unfolding button_class generate_class_name
active_class = refl

-- An icon with no class of its own has the class `undefined`.
plain_icon_class : compass_icon_class "check" none ≡ "CompassIcon Icon icon-check undefined"
unfolding compass_icon_class
plain_icon_class = refl

item_menu_class : menu_class (some "left") ≡ "TodoMenu noselect left"
unfolding menu_class
item_menu_class = refl
