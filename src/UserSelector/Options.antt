-- ===== src/UserSelector/Options.antt =====
-- What is shown of a user that can be selected: `renderOption` of
-- webapp/src/components/user_selector/autocomplete_selector.tsx over webapp/src/utils.js.
use okrbest_plugin_todo.Common.{
  String, Option, none, some, [], ◌∷◌, ◌≡◌, refl, concat, eq_iff, arith, if◌then◌else◌, truthy,
  str_eq, false,
}
use okrbest_plugin_todo.Model.{User}
use okrbest_plugin_todo.Utils.{get_description, get_profile_picture}
use okrbest_plugin_todo.Utils.Names.{get_description-eq-empty}
use okrbest_plugin_todo.UserSelector.{in_menu, render_option}

-- In the menu a user is shown by the name with an at sign, with a description exactly if the user
-- has a first name, a last name or a nickname, and with a picture exactly if the host can make one
-- and the user has an id.
pub render_option_lem :
    (image_url_for_user : String → String) (user : User)
    → let shown = λ (description : Option String).
      in_menu
        (if truthy user.id then some (image_url_for_user user.id) else none)
        user.username
        (concat ("@" ∷ user.username ∷ []))
        description in
      ((user.first_name ≡ "") × (user.last_name ≡ "") × (user.nickname ≡ "")
        → render_option (some image_url_for_user) user "menu" ≡ shown none)
      × (¬ ((user.first_name ≡ "") × (user.last_name ≡ "") × (user.nickname ≡ ""))
          → render_option (some image_url_for_user) user "menu"
            ≡ shown (some (get_description user)))
unfolding render_option get_profile_picture
render_option_lem image_url_for_user user = (
  λ h. rw ((eq_iff (get_description user) "").1 ((get_description-eq-empty user).0.1 h)) refl,
  λ h.
      let other : str_eq (get_description user) "" ≡ false = ground (
        arith,
        eq_iff (get_description user) "",
        λ (e : get_description user ≡ ""). h ((get_description-eq-empty user).0.0 e),
      ) in
      rw other refl,
)
