-- ===== src/AddIssue/Submitting.antt =====
-- Saving and cancelling: `submit`, `close` and `onKeyDown` of
-- webapp/src/components/add_issue/add_issue.jsx, with the store and the rendering that follows.
use okrbest_plugin_todo.Common.{
  String, false, Option, none, some, List, [], ◌∷◌, ◌++◌, ◌≡◌, refl, arith, eq_iff, if◌then◌else◌,
}
use okrbest_plugin_todo.Store.{PluginState, reducer, dispatch_all}
use okrbest_plugin_todo.Actions
use okrbest_plugin_todo.Actions.{
  Value, undefined, null, text, Call, add, Effect, World, perform_all, remove_assignee,
  close_add_card,
}
use okrbest_plugin_todo.Selectors.{get_message, get_post_id}
use okrbest_plugin_todo.Actions.Requests.{actions_of, sent, perform_all_lem}
use okrbest_plugin_todo.AddIssue.{
  Props, State, Card, Event, key_down, truthy_value, derived, submitted, handle, settle, step,
}
use okrbest_plugin_todo.AddIssue.Mapping.{
  Ready, props_of, perform_all-Ready, map_state_to_props_lem,
}

-- Who the issue goes to, and the thread that it is attached to.
abbrev pub recipient : Props → State → Value
recipient props state = elim props.assignee [
  | some a ↦ text a.username
  | none ↦ if state.attach_to_thread then state.send_to else undefined
]

abbrev pub thread : Props → State → Value
thread props state = if state.attach_to_thread then text props.post_id else undefined

submitted_lem :
    (props : Props) (state : State)
    → submitted props state
      ≡ add state.message
          (text state.post_permalink)
          (text state.description)
          (recipient props state)
          (thread props state)
unfolding submitted
submitted_lem props state = ground arith

-- The plugin's state once the card is closed.
abbrev pub closed : PluginState → PluginState
closed s = record s { add_card_visible = false; post_id = ""; current_assignee = none }

module _ (pathname : String → Option String) where
  message_of_closed :
      (w : World) (s : PluginState) (team server : String)
      → Ready pathname w (closed s) team server
      → get_message w.state ≡ ""
  unfolding get_message get_post_id
  message_of_closed w s team server r = ground (arith, r.plugin)

  settle_lem :
      (w : World) (s : PluginState) (team server : String) (es : List Effect) (st : State)
      → Ready pathname w s team server
      → settle pathname w (st, es)
        ≡ some (record {
          world = perform_all pathname w es;
          state =
              derived
                (props_of pathname
                  (perform_all pathname w es).state
                  (dispatch_all s (actions_of es))
                  team)
                st;
        })
  unfolding settle
  settle_lem w s team server es st r = rw (
      map_state_to_props_lem pathname (perform_all pathname w es) (dispatch_all s (actions_of es))
        team server (perform_all-Ready pathname w es s team server r))

  -- One event that hands `es` to the store, from a world that is ready.
  pub step_of :
      (c : Card) (e : Event) (s : PluginState) (team server : String) (es : List Effect)
      (st : State)
      → Ready pathname c.world s team server
      → handle e (props_of pathname c.world.state s team) c.state ≡ (st, es)
      → step pathname c e
        ≡ some (record {
          world = perform_all pathname c.world es;
          state =
              derived
                (props_of pathname
                  (perform_all pathname c.world es).state
                  (dispatch_all s (actions_of es))
                  team)
                st;
        })
  unfolding step
  step_of c e s team server es st r h =
      rw (map_state_to_props_lem pathname c.world s team server r, step)
        (rw h (settle_lem c.world s team server es st r))

  -- What the card and the world are once the card is saved.
  pub record IsSaved (c : Card) (s : PluginState) (team server : String) (c' : Card) : Type 0 where
    pub world_ready : Ready pathname c'.world (closed s) team server
    pub sent_once :
        c'.world.requests
        ≡ c.world.requests
          ++ sent server (
              add c.state.message
                (text c.state.post_permalink)
                (text c.state.description)
                (recipient (props_of pathname c.world.state s team) c.state)
                (thread (props_of pathname c.world.state s team) c.state))
            ∷ []
    pub message_empty : c'.state.message ≡ ""
    pub description_empty : c'.state.description ≡ ""
    pub not_typing : c'.state.is_typing ≡ false
    pub attach_kept :
        c'.state.attach_to_thread
        ≡ (if truthy_value c.state.send_to then false else c.state.attach_to_thread)

  -- the effects and the state that saving hands over
  abbrev save_effects : Props → State → List Effect
  save_effects props state =
      Actions.call (submitted props state) ∷ remove_assignee ∷ close_add_card ∷ []

  abbrev saved : State → State
  saved state = record state {
    message = "";
    description = "";
    post_permalink = "";
    is_typing = false;
  }

  abbrev saved_world : Card → PluginState → String → World
  saved_world c s team =
      perform_all pathname c.world (save_effects (props_of pathname c.world.state s team) c.state)

  handle_enter :
      (props : Props) (state : State)
      → handle (key_down "Enter" false) props state ≡ (saved state, save_effects props state)
  unfolding handle
  handle_enter props state = refl

  derived-saved :
      (props : Props) (state : State)
      → props.visible ≡ false
      → ((derived props (saved state)).message ≡ "")
        × ((derived props (saved state)).description ≡ "")
        × ((derived props (saved state)).is_typing ≡ false)
        × ((derived props (saved state)).attach_to_thread
            ≡ (if truthy_value state.send_to then false else state.attach_to_thread))
  unfolding derived
  derived-saved props state h = ground (arith, eq_iff "" "")

  saved_Ready :
      (c : Card) (s : PluginState) (team server : String)
      → Ready pathname c.world s team server
      → Ready pathname (saved_world c s team) (closed s) team server
  unfolding reducer remove_assignee close_add_card
  saved_Ready c s team server r =
      perform_all-Ready pathname c.world
        (save_effects (props_of pathname c.world.state s team) c.state) s team server r

  saved_requests :
      (c : Card) (s : PluginState) (team server : String)
      → Ready pathname c.world s team server
      → (saved_world c s team).requests
        ≡ c.world.requests
          ++ sent server (submitted (props_of pathname c.world.state s team) c.state) ∷ []
  unfolding remove_assignee close_add_card
  saved_requests c s team server r =
      (perform_all_lem pathname c.world
        (save_effects (props_of pathname c.world.state s team) c.state) server s r.server_route
        r.plugin).0

  -- Enter saves the card, from any world that is ready: exactly one request is sent, to `/add`,
  -- with the card's message, permalink and description, the assignee if there is one, else the
  -- selected user if the card is attached to a thread, and the post if it is attached. The card is
  -- closed and blank afterwards, with nobody assigned. The box that attaches to the thread stays
  -- as it is unless a user was selected.
  pub step-enter-IsSaved :
      (c : Card) (s : PluginState) (team server : String)
      → Ready pathname c.world s team server
      → (c' : Card) × (step pathname c (key_down "Enter" false) ≡ some c')
        × IsSaved c s team server c'
  unfolding reducer remove_assignee close_add_card
  step-enter-IsSaved c s team server r = (
    record {
      world = saved_world c s team;
      state =
          derived (props_of pathname (saved_world c s team).state (closed s) team) (saved c.state);
    },
    step_of c (key_down "Enter" false) s team server
        (save_effects (props_of pathname c.world.state s team) c.state) (saved c.state) r
        (handle_enter _ _),
    record {
      world_ready = saved_Ready c s team server r;
      sent_once =
          rw (← submitted_lem (props_of pathname c.world.state s team) c.state)
            (saved_requests c s team server r);
      message_empty = (derived-saved _ c.state refl).0;
      description_empty = (derived-saved _ c.state refl).1;
      not_typing = (derived-saved _ c.state refl).2;
      attach_kept = (derived-saved _ c.state refl).3;
    },
  )
