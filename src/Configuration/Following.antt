-- ===== src/Configuration/Following.antt =====
-- The web app follows the server's configuration: server/configuration.go, server/plugin.go, and
-- index.js, actions.js and reducer.js of webapp/src.
use okrbest_plugin_todo.Common.{
  Bool, false, Option, none, some, List, [], ◌∷◌, ◌++◌, ◌≡◌, refl, or_else, ◌∙◌, ap, arith,
  Bool-cases, inl, inr,
}
use okrbest_plugin_todo.ListStore.{Result, error, panic, ok}
use okrbest_plugin_todo.Store.{PluginState, reducer, dispatch_all}
use okrbest_plugin_todo.Actions.{Effect, json, receive_config, set_hide_team_sidebar}
use okrbest_plugin_todo.Actions.Requests.{actions_of}
use okrbest_plugin_todo.Plugin.{Dispatch, own, host_show_rhs, host_toggle_rhs, config_update}
use okrbest_plugin_todo.Configuration.{
  Configuration, has_client_config_changed, on_configuration_change, handle_config,
}

abbrev own_effects : List Dispatch → List Effect
own_effects [] = []
own_effects (own e ∷ ds) = e ∷ own_effects ds
own_effects (host_show_rhs ∷ ds) = own_effects ds
own_effects (host_toggle_rhs ∷ ds) = own_effects ds

-- The web app's state after the events of the web socket, in their order.
unfoldable pub told : PluginState → List Bool → PluginState
unfolding config_update
told s [] = s
told s (b ∷ events) = told (dispatch_all s (actions_of (own_effects (config_update b)))) events

-- the server's configuration after some changes, and the events that it has sent
unfoldable pub change_all :
    List (Result Configuration) → Option Configuration → Option Configuration × List Bool
unfolding on_configuration_change
change_all [] config = (config, [])
change_all (loaded ∷ changes) config =
    let (err, config', events) = on_configuration_change loaded config in
    let (config'', more) = change_all changes config' in (config'', events ++ more)

-- What the web app hides is what the server has set, once it has set something.
abbrev pub Follows : Option Configuration → PluginState → Type 0
Follows config s =
    (c : Configuration) → config ≡ some c → s.is_team_sidebar_hidden ≡ c.hide_team_sidebar

told-append : (s : PluginState) (xs ys : List Bool) → told s (xs ++ ys) ≡ told (told s xs) ys
unfolding told
told-append s [] ys = refl
told-append s (x ∷ xs) ys =
    told-append (dispatch_all s (actions_of (own_effects (config_update x)))) xs ys

told_event : (s : PluginState) (b : Bool) → (told s (b ∷ [])).is_team_sidebar_hidden ≡ b
unfolding told reducer set_hide_team_sidebar
told_event s b = refl

unchanged :
    (prev current : Configuration)
    → has_client_config_changed (some prev) current ≡ false
    → prev.hide_team_sidebar ≡ current.hide_team_sidebar
unfolding has_client_config_changed
unchanged prev current h = ground (arith, h)

change-Follows :
    (loaded : Result Configuration) (config : Option Configuration) (s : PluginState)
    → Follows config s
    → (let (err, config', events) = on_configuration_change loaded config in
        Follows config' (told s events))
unfolding on_configuration_change told
change-Follows (error e) config s h = h
change-Follows panic config s h = h
change-Follows (ok current) none s h = λ c e.
    told_event s current.hide_team_sidebar
    ∙ ap (λ (o : Option Configuration). (or_else o current).hide_team_sidebar) e
change-Follows (ok current) (some prev) s h = λ c e.
    let now : current.hide_team_sidebar ≡ c.hide_team_sidebar =
      ap (λ (o : Option Configuration). (or_else o current).hide_team_sidebar) e in
    elim (Bool-cases (has_client_config_changed (some prev) current)) [
      | inl changed ↦ rw changed (told_event s current.hide_team_sidebar ∙ now)
      | inr same ↦ rw same (h prev refl ∙ unchanged prev current same ∙ now)
    ]

-- Whatever configurations the server loads, or fails to load: a web app that hides the team's
-- sidebar buttons as the server has set it, and that receives the events that the server sends
-- then, in their order, hides them afterwards as the server has set it then. So does a web app in
-- any state before the server has loaded its first configuration.
pub change_all-Follows :
    (changes : List (Result Configuration)) (config : Option Configuration) (s : PluginState)
    → Follows config s
    → (let (config', events) = change_all changes config in Follows config' (told s events))
unfolding change_all told
change_all-Follows [] config s h = h
change_all-Follows (loaded ∷ changes) config s h =
    let (err, config', events) = on_configuration_change loaded config in
    let (config'', more) = change_all changes config' in
    let rest =
      change_all-Follows changes config' (told s events) (change-Follows loaded config s h) in
    rw (told-append s events more) rest

-- A web app that asks for the configuration, and receives the answer, then hides the buttons as the
-- server has set it.
pub receive_config-Follows :
    (config : Option Configuration) (s : PluginState)
    → Follows config (elim (handle_config "GET" config).1 [
      | none ↦ s
      | some b ↦ dispatch_all s (actions_of (receive_config (json b)))
    ])
unfolding handle_config receive_config set_hide_team_sidebar reducer
receive_config-Follows none s c e = ground (arith, e)
receive_config-Follows (some d) s c e =
    ap (λ (o : Option Configuration). (or_else o d).hide_team_sidebar) e
