-- ===== src/Store/Card.antt =====
-- The slices that the add card shares: webapp/src/reducer.js.
use okrbest_plugin_todo.Common.{false, List, [], ◌∷◌, ◌≡◌, refl, arith}
use okrbest_plugin_todo.Store.{PluginState, Action, close_add_card, initial, reducer, dispatch_all}

-- A hidden card has no post.
pub record CardIsValid (s : PluginState) : Type 0 where
  pub hidden_has_no_post : s.add_card_visible ≡ false → s.post_id ≡ ""

reducer-CardIsValid : (s : PluginState) (a : Action) → CardIsValid s → CardIsValid (reducer s a)
unfolding reducer
reducer-CardIsValid s close_add_card v = record { hidden_has_no_post = λ _. refl }
reducer-CardIsValid s _ v = ground arith

dispatch_all-CardIsValid :
    (s : PluginState) (acts : List Action) → CardIsValid s → CardIsValid (dispatch_all s acts)
dispatch_all-CardIsValid s [] v = v
dispatch_all-CardIsValid s (a ∷ acts) v =
    dispatch_all-CardIsValid (reducer s a) acts (reducer-CardIsValid s a v)

-- Whatever is dispatched from the initial state, while the add card is hidden no post is attached
-- to it.
pub dispatch_all-initial-CardIsValid :
    (acts : List Action) → CardIsValid (dispatch_all initial acts)
dispatch_all-initial-CardIsValid acts =
    dispatch_all-CardIsValid initial acts (record { hidden_has_no_post = λ _. refl })
