-- ===== src/UserSelector.antt =====
-- webapp/src/components/user_selector/autocomplete_selector.tsx and
-- webapp/src/components/modals/modals.jsx: the field that finds a user, and the full-screen dialog.
-- The field itself is the host's; it is given these functions.
pub mod Options
use okrbest_plugin_todo.Common.{
  String, ℕ, Bool, true, false, not, ◌&&◌, Option, none, some, List, [], ◌∷◌, truthy, truthy?,
  or_else, str_eq, concat, if◌then◌else◌,
}
use okrbest_plugin_todo.Model.{User}
use okrbest_plugin_todo.Utils.{get_description, get_profile_picture}

-- An option in the menu of options, or the one that is selected.
pub data Entry : Type 0 where
  in_menu : (image : Option String) (alt name : String) (description : Option String) → Entry
  selected : String → Entry

-- `renderOption`
unfoldable pub render_option : Option (String → String) → User → String → Entry
render_option image_url_for_user option context =
    let name = concat ("@" ∷ option.username ∷ []) in
    let description = get_description option in
    if str_eq context "menu"
    then in_menu (get_profile_picture image_url_for_user option.id) option.username name
        (if not (str_eq description "") then some description else none)
    else selected name

-- `handleSelected`, by what `onSelected` does if it is given
unfoldable pub handle_selected : {A : Type 0} → Option (Option User → A → A) → Option User → A → A
handle_selected none user a = a
handle_selected (some on_selected) user a = on_selected user a

-- the label and its class, and the help text, if there are any
unfoldable pub label_content : Option String → Option String → Option (String × String)
label_content label label_class_name = elim label [
  | none ↦ none
  | some text ↦
      if truthy text
      then some (concat ("control-label " ∷ or_else label_class_name "undefined" ∷ []), text)
      else none
]

unfoldable pub help_text_content : Option String → Option String
help_text_content help_text = if truthy? help_text then help_text else none

abbrev pub max_length : ℕ
max_length = 22

-- `getOptionLabel` and `getOptionValue`
unfoldable pub option_label : User → String
option_label option = option.username

unfoldable pub option_value : User → String
option_value option = option.id

-- `handleKeypress` of the full-screen dialog: whether it calls `onClose`
unfoldable pub closes : String → Bool → Bool
closes key show = str_eq key "Escape" && show
