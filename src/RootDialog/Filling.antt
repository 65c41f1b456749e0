-- ===== src/RootDialog/Filling.antt =====
-- What the dialog of webapp/src/components/root/root.jsx holds, and what it sends.
use okrbest_plugin_todo.Common.{
  String, true, false, none, some, List, [], ◌∷◌, ◌≡◌, ◌∙◌, refl, ap, ◌≢◌, Bool-cases, inl, inr,
  foldl, or_else, arith, if◌then◌else◌, eq_iff,
}
use okrbest_plugin_todo.Actions.{Value, undefined, null, text, Call, body}
use okrbest_plugin_todo.RootDialog.{
  Props, State, new, derived, value_of, submit, click_add, Event, write, type_message, select, step,
}

abbrev pub run : Props → State → List Event → State
run props = foldl (step props)

-- What the user typed last, if anything.
abbrev pub typed : String → Event → String
typed s (type_message value) = value
typed s _ = s

abbrev pub chosen : Value → Event → Value
chosen v (select none) = undefined
chosen v (select (some user)) = text user.username
chosen v _ = v

step_shown :
    (props : Props) (state : State) (e : Event)
    → props.visible ≡ true
    → ((step props state e).message ≡ some (typed (or_else state.message props.message) e))
      × ((step props state e).send_to ≡ chosen state.send_to e)
unfolding step derived
step_shown props state write h = ground arith
step_shown props state (select none) h = ground arith
step_shown props state (select (some u)) h = ground arith
step_shown props state _ h = ground arith

run_shown :
    (props : Props) (state : State) (s : String) (es : List Event)
    → props.visible ≡ true
    → state.message ≡ some s
    → ((run props state es).message ≡ some (foldl typed s es))
      × ((run props state es).send_to ≡ foldl chosen state.send_to es)
run_shown props state s [] v m = (m, refl)
run_shown props state s (e ∷ es) v m =
    let (p, q) = step_shown props state e v in
    let (p', q') = run_shown props (step props state e) (typed s e) es v (ground (arith, p)) in
    (p', q' ∙ ap (λ t. foldl chosen t es) q)

derived_hidden :
    (props : Props) (state : State) (s : String)
    → props.visible ≡ false
    → state.message ≡ some s
    → derived props state ≡ new
unfolding derived
derived_hidden props state s h m = ground arith

derived_first :
    (props : Props)
    → props.visible ≡ true
    → ((derived props new).message ≡ some props.message) × ((derived props new).send_to ≡ null)
unfolding derived
derived_first props h = ground arith

-- While the dialog is shown, from its first rendering on: it holds the message of its props until
-- the user types another one, and then what was typed last, and the user that was selected last.
-- Once it is hidden it holds nothing.
pub run_lem :
    (props hidden : Props) (es : List Event)
    → props.visible ≡ true
    → hidden.visible ≡ false
    → (let state = run props (derived props new) es in
        (state.message ≡ some (foldl typed props.message es))
        × (state.send_to ≡ foldl chosen null es)
        × (derived hidden state ≡ new))
run_lem props hidden es v h =
    let (m, t) = derived_first props v in
    let (p, q) = run_shown props (derived props new) props.message es v m in
    (
      p,
      q ∙ ap (λ u. foldl chosen u es) t,
      derived_hidden hidden _ (foldl typed props.message es) h p,
    )

-- `Add Todo` of this dialog, with any message that is not empty, sends the message with the
-- selected user as the permalink and, if the box is ticked, the post's id as the description: the
-- server is told neither to whom the issue is to be sent nor of which post it is.
pub click_add_lem :
    (props : Props) (state : State) (message : String)
    → state.message ≡ some message
    → message ≢ ""
    → (c : Call) × (click_add props state ≡ some c)
      × (body c
          ≡ some (
              ("send_to", undefined)
              ∷ ("message", text message)
              ∷ ("postPermalink", state.send_to)
              ∷ (
                "description",
                if state.attach_to_thread then value_of props.post_id else undefined,
              )
              ∷ ("post_id", undefined)
              ∷ []))
unfolding click_add body
click_add_lem props state message m ne = (
  submit message props state,
  ground (arith, eq_iff message ""),
  elim (Bool-cases state.attach_to_thread) [ inl b ↦ rw b refl | inr b ↦ rw b refl ],
)
