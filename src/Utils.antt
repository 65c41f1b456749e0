-- ===== src/Utils.antt =====
-- webapp/src/utils.js. `to_upper` is the text's `toUpperCase()`.
pub mod Keys
pub mod Names
pub mod Permissions
pub mod Inputs
use Prim.Native.String.{[] as nil}
use okrbest_plugin_todo.Common.{
  String, ℕ, Bool, true, false, not, ◌&&◌, ◌||◌, Option, none, some, List, [], ◌∷◌, truthy, truthy?,
  is_some, nat_eq, str_eq, concat, if◌then◌else◌, map, keep,
}
use okrbest_plugin_todo.Model.{User}
use okrbest_plugin_todo.Constants.{Key, composing}

unfoldable pub can_remove : String → String → Bool
can_remove my_list foreign_list =
    str_eq my_list "my" || str_eq my_list "in" || str_eq foreign_list "in"

unfoldable pub can_complete : String → Bool
can_complete my_list = str_eq my_list "my" || str_eq my_list "in"

unfoldable pub can_accept : String → Bool
can_accept my_list = str_eq my_list "in"

unfoldable pub can_bump : String → String → Bool
can_bump my_list foreign_list = str_eq my_list "out" && str_eq foreign_list "in"

-- `join(' ')`
unfoldable pub join : List String → String
join [] = ""
join (s ∷ []) = s
join (s ∷ t ∷ ts) = concat (s ∷ " " ∷ join (t ∷ ts) ∷ [])

-- `conditions` by its entries, in their order
unfoldable pub generate_class_name : List (String × Bool) → String
unfolding join
generate_class_name conditions = join (
    keep truthy (
      map
        (λ (e : String × Bool).
          let (class_name, condition) = e in if condition then class_name else "")
        conditions))

-- The parts of a KeyboardEvent that are read; `key` may be undefined in an old browser.
pub record KeyEvent : Type 0 where
  pub key : Option String
  pub key_code : ℕ
  pub alt_key : Bool
  pub shift_key : Bool

module _ (to_upper : String → String) where
  is_pressed_by_code : Option String → Key → Bool
  is_pressed_by_code none k = false
  is_pressed_by_code (some event_key) k =
      not (str_eq event_key "Unidentified")
      && not (str_eq event_key "Dead")
      && (str_eq event_key k.0 || str_eq event_key (to_upper k.0))

  unfoldable pub is_key_pressed : KeyEvent → Key → Bool
  unfolding is_pressed_by_code
  is_key_pressed event k =
      if nat_eq event.key_code composing.1
      then false
      else if is_pressed_by_code event.key k
      then true
      else nat_eq event.key_code k.1

unfoldable pub get_full_name : User → String
get_full_name user =
    if truthy user.first_name && truthy user.last_name
    then concat (user.first_name ∷ " " ∷ user.last_name ∷ [])
    else if truthy user.first_name
    then user.first_name
    else if truthy user.last_name
    then user.last_name
    else ""

unfoldable pub get_description : User → String
unfolding get_full_name
get_description item =
    if (truthy item.first_name || truthy item.last_name) && truthy item.nickname
    then concat ("- " ∷ get_full_name item ∷ " (" ∷ item.nickname ∷ ")" ∷ [])
    else if truthy item.nickname
    then concat ("- (" ∷ item.nickname ∷ ")" ∷ [])
    else if truthy item.first_name || truthy item.last_name
    then concat ("- " ∷ get_full_name item ∷ [])
    else ""

-- `imageURLForUser` is the host's, or absent.
unfoldable pub get_profile_picture : Option (String → String) → String → Option String
get_profile_picture none user_id = none
get_profile_picture (some image_url_for_user) user_id =
    if truthy user_id then some (image_url_for_user user_id) else none

-- The parts of a click that `handleFormattedTextClick` reads.
pub record Click : Type 0 where
  pub link_attribute : Option String
  pub button : ℕ
  pub alt_key : Bool
  pub ctrl_key : Bool
  pub meta_key : Bool
  pub shift_key : Bool

-- The path that is pushed to the browser's history in place of the default action, if any.
unfoldable pub handle_formatted_text_click : Click → Option String
handle_formatted_text_click e = elim e.link_attribute [
  | none ↦ none
  | some value ↦
      if not (nat_eq e.button 1 || e.alt_key || e.ctrl_key || e.meta_key || e.shift_key)
      then some value
      else none
]
