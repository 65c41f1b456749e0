-- ===== src/AddIssue/Derived.antt =====
-- `getDerivedStateFromProps` of webapp/src/components/add_issue/add_issue.jsx.
use okrbest_plugin_todo.Common.{true, false, ◌≡◌, eq_iff, arith}
use okrbest_plugin_todo.AddIssue.{Props, State, truthy_value, derived}

-- What the state must be for the card that is shown or hidden.
pub record Agrees (props : Props) (state : State) : Type 0 where
  pub shown :
      props.visible ≡ true
      → (state.message ≡ props.message) × (state.post_permalink ≡ props.post_permalink)
  pub hidden : props.visible ≡ false → (state.message ≡ "") × (truthy_value state.send_to ≡ false)

-- Deriving the state from the props leaves a card alone on which the user is typing. On any other
-- card, the message and the permalink are the props' if the card is shown; if it is hidden the
-- message is empty and nobody is selected. Deriving twice is deriving once.
pub derived-Agrees :
    (props : Props) (state : State)
    → (state.is_typing ≡ true → derived props state ≡ state)
      × (state.is_typing ≡ false → Agrees props (derived props state))
      × (derived props (derived props state) ≡ derived props state)
unfolding derived
derived-Agrees props state = ground (
  arith,
  eq_iff props.message state.message,
  eq_iff props.post_permalink state.post_permalink,
  eq_iff props.message props.message,
  eq_iff props.post_permalink props.post_permalink,
  eq_iff state.message "",
  eq_iff "" "",
)
