-- ===== src/Selectors/Visibility.antt =====
-- What the selectors of webapp/src/selectors.js make of the states that the reducers can reach.
use okrbest_plugin_todo.Common.{Bool, false, some, List, ◌≡◌, arith, eq_iff}
use okrbest_plugin_todo.Store.{PluginState, Action, initial, dispatch_all}
use okrbest_plugin_todo.Store.Card.{CardIsValid, dispatch_all-initial-CardIsValid}
use okrbest_plugin_todo.Selectors.{
  GlobalState, is_root_modal_visible, is_add_card_visible, get_message, get_post_id,
}

message_hidden :
    (state : GlobalState) (s : PluginState)
    → CardIsValid s
    → state.plugin ≡ some s
    → is_add_card_visible state ≡ some false
    → get_message state ≡ ""
unfolding is_add_card_visible get_message get_post_id
message_hidden state s v p h = ground (arith, eq_iff s.post_id "", v.hidden_has_no_post)

-- After any dispatches from the initial state, a hidden add card has no message, and the dialog of
-- webapp/src/components/root is not shown, since no reducer has a slice `rootModalVisible`.
pub hidden_parts :
    (value : PluginState → Bool) (state : GlobalState) (acts : List Action)
    → state.plugin ≡ some (dispatch_all initial acts)
    → is_add_card_visible state ≡ some false
    → (is_root_modal_visible value state ≡ false) × (get_message state ≡ "")
unfolding is_root_modal_visible
hidden_parts value state acts p h = (
  ground arith,
  message_hidden state (dispatch_all initial acts) (dispatch_all-initial-CardIsValid acts) p h,
)
