-- ===== src/Configuration.antt =====
-- The plugin's configuration on the server: server/configuration.go, and `handleConfig` and
-- `sendConfigUpdateEvent` of server/plugin.go. The configuration is `none` before it is first
-- loaded; loading it is the host's. What is logged and the tracker that a change makes are left
-- out.
pub mod Following
use okrbest_plugin_todo.Common.{
  String, ℕ, Bool, true, false, not, Option, none, some, List, [], ◌∷◌, str_eq, if◌then◌else◌,
}
use okrbest_plugin_todo.ListStore.{Result, error, panic, ok}

-- `configuration`
pub record Configuration : Type 0 where
  pub hide_team_sidebar : Bool

abbrev bool_eq : Bool → Bool → Bool
bool_eq true b = b
bool_eq false b = not b

unfoldable pub has_client_config_changed : Option Configuration → Configuration → Bool
has_client_config_changed none current = true
has_client_config_changed (some prev) current =
    not (bool_eq prev.hide_team_sidebar current.hide_team_sidebar)

-- `OnConfigurationChange`: its error, the configuration, and the events for all users. The
-- configuration that is set is a new one, so `setConfiguration` does not panic.
unfoldable pub on_configuration_change :
    Result Configuration → Option Configuration → Option String × Option Configuration × List Bool
unfolding has_client_config_changed
on_configuration_change (error e) prev = (some e, prev, [])
on_configuration_change panic prev = (none, prev, [])
on_configuration_change (ok current) prev = (
  none,
  some current,
  if has_client_config_changed prev current then current.hide_team_sidebar ∷ [] else [],
)

-- `getConfiguration`
unfoldable pub get_configuration : Option Configuration → Configuration
get_configuration none = record { hide_team_sidebar = false }
get_configuration (some c) = c

-- the status and the setting in the answer, which has no body before the configuration is loaded
unfoldable pub handle_config : String → Option Configuration → ℕ × Option Bool
handle_config method config =
    if not (str_eq method "GET")
    then (405, none)
    else elim config [ none ↦ (200, none) | some c ↦ (200, some c.hide_team_sidebar) ]
