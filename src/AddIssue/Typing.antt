-- ===== src/AddIssue/Typing.antt =====
-- Cancelling the card and opening it for a post: `isTyping` of
-- webapp/src/components/add_issue/add_issue.jsx.
use okrbest_plugin_todo.Common.{
  String, true, false, Option, some, List, [], ◌∷◌, ◌≡◌, refl, ◌∙◌, ap, truthy, concat,
  if◌then◌else◌,
}
use okrbest_plugin_todo.Store.{PluginState, reducer}
use okrbest_plugin_todo.Selectors.{get_message}
use okrbest_plugin_todo.Actions.{
  Effect, World, perform_all, remove_assignee, close_add_card, open_add_card,
}
use okrbest_plugin_todo.AddIssue.{
  Props, State, Card, Event, click_cancel, elsewhere, derived, close, handle, step,
}
use okrbest_plugin_todo.AddIssue.Derived.{derived-Agrees}
use okrbest_plugin_todo.AddIssue.Mapping.{Ready, props_of, perform_all-Ready}
use okrbest_plugin_todo.AddIssue.Submitting.{closed, step_of}

-- The plugin's state once the card is opened for a post.
abbrev pub opened : String → PluginState → PluginState
opened post s = record s { add_card_visible = true; post_id = post }

module _ (pathname : String → Option String) where
  -- An event that leaves the card's state alone, while the user is typing or not.
  step_idle :
      (c : Card) (e : Event) (s : PluginState) (team server : String) (es : List Effect)
      → Ready pathname c.world s team server
      → ((props : Props) → handle e props c.state ≡ (c.state, es))
      → c.state.is_typing ≡ true
      → step pathname c e
        ≡ some (record { world = perform_all pathname c.world es; state = c.state })
  step_idle c e s team server es r h t =
      step_of pathname c e s team server es c.state r (h _)
      ∙ ap (λ st. some (record { world = perform_all pathname c.world es; state = st }))
          ((derived-Agrees _ c.state).0 t)

  abbrev pub cancelled : Card → World
  cancelled c = perform_all pathname c.world close

  abbrev pub reopened : Card → String → World
  reopened c post = perform_all pathname (cancelled c) (open_add_card post ∷ [])

  cancelled-Ready :
      (c : Card) (s : PluginState) (team server : String)
      → Ready pathname c.world s team server
      → Ready pathname (cancelled c) (closed s) team server
  unfolding close reducer remove_assignee close_add_card
  cancelled-Ready c s team server r = perform_all-Ready pathname c.world close s team server r

  reopened-Ready :
      (c : Card) (s : PluginState) (team server post : String)
      → Ready pathname c.world s team server
      → Ready pathname (reopened c post) (opened post (closed s)) team server
  unfolding reducer open_add_card
  reopened-Ready c s team server post r =
      perform_all-Ready pathname (cancelled c) (open_add_card post ∷ []) (closed s) team server
        (cancelled-Ready c s team server r)

  handle_cancel : (props : Props) (state : State) → handle click_cancel props state ≡ (state, close)
  unfolding handle
  handle_cancel props state = refl

  handle-elsewhere :
      (es : List Effect) (props : Props) (state : State)
      → handle (elsewhere es) props state ≡ (state, es)
  unfolding handle
  handle-elsewhere es props state = refl

  -- If the user cancels the card while typing, and the card is then opened for any post, the card
  -- still holds the old message, description and permalink, on a card that is open for the new
  -- post. Nothing of the new post has reached the card's state.
  pub cancel_typing_keeps :
      (c : Card) (s : PluginState) (team server post : String)
      → Ready pathname c.world s team server
      → c.state.is_typing ≡ true
      → (step pathname c click_cancel ≡ some (record { world = cancelled c; state = c.state }))
        × (step pathname
              (record { world = cancelled c; state = c.state })
              (elsewhere (open_add_card post ∷ []))
            ≡ some (record { world = reopened c post; state = c.state }))
        × Ready pathname (reopened c post) (opened post (closed s)) team server
  cancel_typing_keeps c s team server post r t = (
    step_idle c click_cancel s team server close r (λ props. handle_cancel props c.state) t,
    step_idle (record { world = cancelled c; state = c.state })
        (elsewhere (open_add_card post ∷ [])) (closed s) team server (open_add_card post ∷ [])
        (cancelled-Ready c s team server r)
        (λ props. handle-elsewhere (open_add_card post ∷ []) props c.state) t,
    reopened-Ready c s team server post r,
  )

  -- If the user is not typing, opening the card for a post puts the post's message and permalink
  -- on it.
  pub open_fresh :
      (c : Card) (s : PluginState) (team server post : String)
      → Ready pathname c.world s team server
      → c.state.is_typing ≡ false
      → (c' : Card) × (step pathname c (elsewhere (open_add_card post ∷ [])) ≡ some c')
        × (c'.state.message ≡ get_message c'.world.state)
        × (c'.state.post_permalink
            ≡ (if truthy post then concat (team ∷ "pl/" ∷ post ∷ []) else ""))
        × Ready pathname c'.world (opened post s) team server
  unfolding reducer open_add_card
  open_fresh c s team server post r t =
      let es : List Effect = open_add_card post ∷ [] in
      let w : World = perform_all pathname c.world es in
      let props : Props = props_of pathname w.state (opened post s) team in
      let agrees = (derived-Agrees props c.state).1 t in
      (
        record { world = w; state = derived props c.state },
        step_of pathname c (elsewhere es) s team server es c.state r
            (handle-elsewhere es _ c.state),
        (agrees.shown refl).0,
        (agrees.shown refl).1,
        perform_all-Ready pathname c.world es s team server r,
      )
