-- ===== src/Assignee/Assigning.antt =====
-- What assigning does: `submit` of webapp/src/components/assignee_modal/assignee_form.jsx with the
-- store.
use mathlib.Core.List.{append-nil}
use okrbest_plugin_todo.Common.{
  String, true, false, Option, none, some, List, [], ◌∷◌, ◌++◌, ◌≡◌, refl, map, ap, ◌∙◌, truthy?,
  truthy, arith,
}
use okrbest_plugin_todo.Model.{User}
use okrbest_plugin_todo.Store.{PluginState, reducer, dispatch_all}
use okrbest_plugin_todo.Selectors.{get_editing_todo, is_assignee_modal_visible}
use okrbest_plugin_todo.Actions.{
  Effect, call, change_assignee, World, perform_all, remove_editing_todo, get_assignee,
  close_assignee_modal,
}
use okrbest_plugin_todo.Actions.Requests.{
  actions_of, calls_of, sent, RouteIs, perform_all_lem, perform_all-plugin, perform_all-RouteIs,
}
use okrbest_plugin_todo.Assignee.{
  Event, click_assign, map_state_to_props, handle, Modal, render, settle, step,
}

module _ (pathname : String → Option String) where
  -- A dialog whose plugin state is `s` and whose form has the selection `selected`.
  pub record Open (m : Modal) (s : PluginState) (selected : Option User) (server : String)
      : Type 0 where
    pub plugin : m.world.state.plugin ≡ some s
    pub form : m.form ≡ some selected
    pub route : RouteIs pathname m.world server
    pub visible : s.assignee_modal_visible ≡ true

  props_lem :
      (w : World) (s : PluginState)
      → w.state.plugin ≡ some s
      → map_state_to_props w.state
        ≡ record { visible = s.assignee_modal_visible; editing_todo = s.editing_todo }
  unfolding map_state_to_props get_editing_todo is_assignee_modal_visible
  props_lem w s h = ground arith

  -- After effects the dialog is in the state that the reducer gives; its form stays as it was
  -- while the dialog stays visible.
  pub settle_lem :
      (w : World) (form : Option (Option User)) (es : List Effect) (s : PluginState)
      → w.state.plugin ≡ some s
      → settle pathname w form es ≡ record {
        world = perform_all pathname w es;
        form =
            render
              (record {
                visible = (dispatch_all s (actions_of es)).assignee_modal_visible;
                editing_todo = (dispatch_all s (actions_of es)).editing_todo;
              })
              form;
      }
  unfolding settle
  settle_lem w form es s h =
      ap {B = Modal}
        (λ props. record { world = perform_all pathname w es; form = render props form })
        (props_lem (perform_all pathname w es) (dispatch_all s (actions_of es))
          (perform_all-plugin pathname w es s h))

  pub step_lem :
      (m : Modal) (e : Event) (s : PluginState) (selected : Option User) (server : String)
      → Open m s selected server
      → step pathname m e
        ≡ settle pathname m.world
            (some (handle e s.editing_todo selected).0)
            (handle e s.editing_todo selected).1
  unfolding step
  step_lem m e s selected server o =
      rw (o.form, step)
        (ap
          (λ props.
            settle pathname m.world (some (handle e props.editing_todo selected).0)
              (handle e props.editing_todo selected).1)
          (props_lem m.world s o.plugin))

  -- Effects from an open dialog that close it leave no form behind.
  closing :
      (m : Modal) (e : Event) (s : PluginState) (selected : Option User) (server : String)
      (es : List Effect)
      → Open m s selected server
      → (handle e s.editing_todo selected).1 ≡ es
      → (dispatch_all s (actions_of es)).assignee_modal_visible ≡ false
      → step pathname m e ≡ record { world = perform_all pathname m.world es; form = none }
  unfolding render
  closing m e s selected server es o h closed =
      step_lem m e s selected server o ∙ rw h (settle_lem m.world _ es s o.plugin ∙ rw closed)

  -- The whole outcome of an event that closes the dialog.
  pub closing_lem :
      (m : Modal) (e : Event) (s : PluginState) (selected : Option User) (server : String)
      (es : List Effect)
      → Open m s selected server
      → (handle e s.editing_todo selected).1 ≡ es
      → (dispatch_all s (actions_of es)).assignee_modal_visible ≡ false
      → ((step pathname m e).world.requests ≡ m.world.requests ++ map (sent server) (calls_of es))
        × ((step pathname m e).world.state.plugin ≡ some (dispatch_all s (actions_of es)))
        × ((step pathname m e).form ≡ none)
        × RouteIs pathname (step pathname m e).world server
  closing_lem m e s selected server es o h closed =
      let outcome = perform_all_lem pathname m.world es server s o.route o.plugin in
      let done = closing m e s selected server es o h closed in
      (
        ap (λ r. r.world.requests) done ∙ outcome.0,
        ap (λ r. r.world.state.plugin) done ∙ outcome.1,
        ap (λ r. r.form) done,
        rw done (perform_all-RouteIs pathname m.world es server o.route),
      )

  abbrev reassigning : String → User → List Effect
  reassigning id u =
      call (change_assignee id u.username) ∷ remove_editing_todo ∷ close_assignee_modal ∷ []

  abbrev picking : User → List Effect
  picking u = get_assignee u ∷ close_assignee_modal ∷ []

  handle_editing :
      (editing : Option String) (id : String) (u : User)
      → editing ≡ some id
      → truthy id ≡ true
      → (handle click_assign editing (some u)).1 ≡ reassigning id u
  unfolding handle
  handle_editing editing id u h t = rw h (rw t)

  handle_card :
      (editing : Option String) (u : User)
      → truthy? editing ≡ false
      → (handle click_assign editing (some u)).1 ≡ picking u
  unfolding handle
  handle_card none u t = refl
  handle_card (some id) u t = rw t

  -- Assigning the selected user while an issue is being edited sends exactly one request, which
  -- hands that issue to the user by the user's name, ends the editing and closes the dialog; the
  -- user on the add card stays as it is.
  pub assign_editing :
      (m : Modal) (s : PluginState) (u : User) (id server : String)
      → Open m s (some u) server
      → s.editing_todo ≡ some id
      → truthy id ≡ true
      → let m' = step pathname m click_assign in
        (m'.world.requests ≡ m.world.requests ++ sent server (change_assignee id u.username) ∷ [])
        × (m'.world.state.plugin
            ≡ some (record s { editing_todo = none; assignee_modal_visible = false }))
        × (m'.form ≡ none)
  unfolding reducer remove_editing_todo close_assignee_modal
  assign_editing m s u id server o h t =
      let (requests, plugin, form, _) =
        closing_lem m click_assign s (some u) server (reassigning id u) o
          (handle_editing s.editing_todo id u h t) refl in
      (requests, plugin, form)

  -- Assigning while no issue is being edited sends nothing, puts the user on the add card and
  -- closes the dialog.
  pub assign_card_user :
      (m : Modal) (s : PluginState) (u : User) (server : String)
      → Open m s (some u) server
      → truthy? s.editing_todo ≡ false
      → let m' = step pathname m click_assign in
        (m'.world.requests ≡ m.world.requests)
        × (m'.world.state.plugin
            ≡ some (record s { current_assignee = some u; assignee_modal_visible = false }))
        × (m'.form ≡ none)
  unfolding reducer get_assignee close_assignee_modal
  assign_card_user m s u server o t =
      let (requests, plugin, form, _) =
        closing_lem m click_assign s (some u) server (picking u) o (handle_card s.editing_todo u t)
          refl in
      (requests ∙ append-nil m.world.requests, plugin, form)
