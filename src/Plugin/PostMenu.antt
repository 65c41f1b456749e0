-- ===== src/Plugin/PostMenu.antt =====
-- The entry `Add Todo` of a post's menu: webapp/src/index.js with the store and the selectors.
use okrbest_plugin_todo.Common.{
  String, true, Option, some, List, [], ◌∷◌, ◌≡◌, ◌≢◌, lookup, or_else, eq_iff, arith,
}
use okrbest_plugin_todo.Store.{reducer}
use okrbest_plugin_todo.Selectors.{get_message, get_post_id, is_add_card_visible}
use okrbest_plugin_todo.Actions.{Effect, World, perform, perform_all, open_add_card}
use okrbest_plugin_todo.Plugin.{Dispatch, own, post_action}

-- The plugin's own effects among what a callback dispatches.
abbrev pub own_effects : List Dispatch → List Effect
own_effects [] = []
own_effects (own e ∷ ds) = e ∷ own_effects ds
own_effects (_ ∷ ds) = own_effects ds

-- `Add Todo` on a post opens the add card with the post's id and its message, which is empty if the
-- post is not loaded. No request is sent: in particular the click is not reported as telemetry.
pub post_action_lem :
    (pathname : String → Option String) (w : World) (post : String)
    → post ≢ ""
    → let w' = perform_all pathname w (own_effects (post_action post)) in
      (is_add_card_visible w'.state ≡ some true)
      × (get_post_id w'.state ≡ some post)
      × (get_message w'.state ≡ or_else (lookup post w.state.posts) "")
      × (w'.requests ≡ w.requests)
unfolding post_action perform open_add_card reducer is_add_card_visible get_post_id get_message
post_action_lem pathname w post h = ground (arith, eq_iff post "")
