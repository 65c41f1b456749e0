-- ===== src/Assignee/Editing.antt =====
-- Which issue the dialog assigns: `editingTodo` of webapp/src/reducer.js between
-- webapp/src/components/assignee_modal/assignee_form.jsx, todo_item.jsx and add_issue.jsx.
use mathlib.Core.List.{append-nil}
use okrbest_plugin_todo.Common.{
  String, true, false, Option, none, some, [], ◌∷◌, ◌++◌, ◌≡◌, ◌≢◌, refl, ap, ◌∙◌, truthy?, truthy,
  eq_iff, arith,
}
use okrbest_plugin_todo.Model.{User}
use okrbest_plugin_todo.Store.{PluginState, reducer, dispatch_all}
use okrbest_plugin_todo.Actions.{
  change_assignee, World, perform_all, remove_editing_todo, get_assignee, remove_assignee,
  close_assignee_modal, open_assignee_modal, set_editing_todo,
}
use okrbest_plugin_todo.Actions.Requests.{
  actions_of, sent, perform_all_lem, perform_all-RouteIs, RouteIs,
}
use okrbest_plugin_todo.Assignee.{
  Event, click_assign, select, key_up, handle, Modal, render, step, elsewhere, edit_assignee,
  assign_card,
}
use okrbest_plugin_todo.Assignee.Assigning.{Open, settle_lem, step_lem, closing_lem, assign_editing}

-- Once the dialog is closed, no issue is being edited.
pub record EditingIsShown (s : PluginState) : Type 0 where
  pub closed : s.assignee_modal_visible ≡ false → truthy? s.editing_todo ≡ false

-- The plugin's state after an event of the open form.
abbrev pub after : PluginState → Event → Option User → PluginState
after s e selected = dispatch_all s (actions_of (handle e s.editing_todo selected).1)

module _ (s : PluginState) (v : EditingIsShown s) where
  event-EditingIsShown :
      (e : Event) (selected : Option User)
      → ((key : String) → e ≡ key_up key → key ≢ "Escape")
      → EditingIsShown (after s e selected)
  unfolding handle reducer remove_editing_todo get_assignee remove_assignee close_assignee_modal
  event-EditingIsShown (key_up key) selected ne = ground (arith, eq_iff key "Escape", ne key refl)
  event-EditingIsShown click_assign none ne = ground arith
  event-EditingIsShown click_assign (some u) ne = ground arith
  event-EditingIsShown _ selected ne = ground arith

  -- Every event of the form but the key Escape keeps it so that no issue is edited once the dialog
  -- is closed, and so do the two buttons that open the dialog.
  pub handle-EditingIsShown :
      (e : Event) (selected : Option User) (id : String)
      → ((key : String) → e ≡ key_up key → key ≢ "Escape")
      → EditingIsShown (after s e selected)
        × EditingIsShown (dispatch_all s (actions_of (edit_assignee id)))
        × EditingIsShown (dispatch_all s (actions_of assign_card))
  unfolding reducer open_assignee_modal set_editing_todo edit_assignee assign_card
  handle-EditingIsShown e selected id ne =
      (event-EditingIsShown e selected ne, ground arith, ground arith)

module _ (pathname : String → Option String) where
  -- The dialog with another state of its form.
  abbrev shown : World → Option User → Modal
  shown w selected = record { world = w; form = some selected }

  select_lem :
      (m : Modal) (s : PluginState) (selected picked : Option User) (server : String)
      → Open pathname m s selected server
      → step pathname m (select picked) ≡ shown m.world picked
  unfolding handle render
  select_lem m s selected picked server o =
      step_lem pathname m (select picked) s selected server o
      ∙ (settle_lem pathname m.world (some picked) [] s o.plugin ∙ rw o.visible)

  -- The button on the add card opens a dialog whose form has no selection.
  assign_card_lem :
      (w : World) (s : PluginState)
      → w.state.plugin ≡ some s
      → elsewhere pathname (record { world = w; form = none }) assign_card
        ≡ shown (perform_all pathname w assign_card) none
  unfolding elsewhere assign_card open_assignee_modal reducer render
  assign_card_lem w s h = settle_lem pathname w none assign_card s h

  -- The key Escape closes the dialog and leaves the issue that is being edited as it is.
  pub escape_keeps_editing :
      (m : Modal) (s : PluginState) (selected : Option User) (server : String)
      → Open pathname m s selected server
      → let m' = step pathname m (key_up "Escape") in
        (m'.world.requests ≡ m.world.requests)
        × (m'.world.state.plugin ≡ some (record s { assignee_modal_visible = false }))
        × (m'.form ≡ none)
  unfolding reducer close_assignee_modal
  escape_keeps_editing m s selected server o =
      let (requests, plugin, form, _) =
        closing_lem pathname m (key_up "Escape") s selected server (close_assignee_modal ∷ []) o
          (unfold handle in refl) refl in
      (requests ∙ append-nil m.world.requests, plugin, form)

  perform_all_card :
      (w : World) (s : PluginState) (server : String)
      → RouteIs pathname w server
      → w.state.plugin ≡ some s
      → ((perform_all pathname w assign_card).requests ≡ w.requests)
        × ((perform_all pathname w assign_card).state.plugin
            ≡ some (record s { assignee_modal_visible = true }))
  unfolding assign_card open_assignee_modal reducer
  perform_all_card w s server route plugin =
      let (requests, plugin') = perform_all_lem pathname w assign_card server s route plugin in
      (requests ∙ append-nil w.requests, plugin')

  -- the world after Escape and a click on `Assign to…` on the add card
  abbrev pub from_card : Modal → Modal
  from_card m = elsewhere pathname (step pathname m (key_up "Escape")) assign_card

  from_card_lem :
      (m : Modal) (s : PluginState) (selected : Option User) (server : String)
      → Open pathname m s selected server
      → (w : World) × (from_card m ≡ shown w none)
        × (w.requests ≡ m.world.requests)
        × Open pathname (shown w none) (record s { assignee_modal_visible = true }) none server
  unfolding reducer close_assignee_modal assign_card open_assignee_modal
  from_card_lem m s selected server o =
      let (requests, plugin, form, route) =
        closing_lem pathname m (key_up "Escape") s selected server (close_assignee_modal ∷ []) o
          (unfold handle in refl) refl in
      let w : World = (step pathname m (key_up "Escape")).world in
      let s' : PluginState = record s { assignee_modal_visible = false } in
      let (sent_none, plugin') = perform_all_card w s' server route plugin in
      (
        perform_all pathname w assign_card,
        ap (λ f. elsewhere pathname (record { world = w; form = f }) assign_card) form
            ∙ assign_card_lem w s' plugin,
        sent_none ∙ (requests ∙ append-nil m.world.requests),
        record {
          plugin = plugin';
          form = refl;
          route = perform_all-RouteIs pathname w assign_card server route;
          visible = refl;
        },
      )

  -- If the dialog is left by Escape while an issue is being edited, then a user who is chosen for
  -- the add card next is not put on the card: the request hands the issue of the earlier edit to
  -- that user.
  pub escape_then_card :
      (m : Modal) (s : PluginState) (selected : Option User) (u : User) (id server : String)
      → Open pathname m s selected server
      → s.editing_todo ≡ some id
      → truthy id ≡ true
      → let m' = step pathname (step pathname (from_card m) (select (some u))) click_assign in
        (m'.world.requests ≡ m.world.requests ++ sent server (change_assignee id u.username) ∷ [])
        × (m'.world.state.plugin
            ≡ some (record s { editing_todo = none; assignee_modal_visible = false }))
  escape_then_card m s selected u id server o h t =
      let s' : PluginState = record s { assignee_modal_visible = true } in
      let (w, reached, requests, opened) = from_card_lem m s selected server o in
      let chosen =
        ap (λ n. step pathname n (select (some u))) reached
        ∙ select_lem (shown w none) s' none (some u) server opened in
      let ready : Open pathname (shown w (some u)) s' (some u) server = record {
        plugin = opened.plugin;
        form = refl;
        route = opened.route;
        visible = refl;
      } in
      let (sent_one, plugin, _) =
        assign_editing pathname (shown w (some u)) s' u id server ready h t in
      (
        ap (λ n. (step pathname n click_assign).world.requests) chosen
            ∙ (sent_one ∙ ap (λ l. l ++ sent server (change_assignee id u.username) ∷ []) requests),
        ap (λ n. (step pathname n click_assign).world.state.plugin) chosen ∙ plugin,
      )
