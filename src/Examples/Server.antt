-- ===== src/Examples/Server.antt =====
-- Requests, answers, and the plugin's callbacks.
use okrbest_plugin_todo.Common.{
  String, ℕ, false, some, List, [], ◌∷◌, ◌≡◌, ◌≢◌, refl, eq_iff, arith,
}
use okrbest_plugin_todo.Selectors.{get_plugin_server_route, get_current_team_route, ends_with_slash}
use okrbest_plugin_todo.Actions.{World}
use okrbest_plugin_todo.Actions.Requests.{RouteIs}
use okrbest_plugin_todo.Plugin.{max_safe_integer}
use okrbest_plugin_todo.Plugin.Activity.{reminders, Spaced, reminders-Spaced}
use okrbest_plugin_todo.Examples.Sample.{pathname, world_of, adding}

abbrev world : World
world = world_of adding

route : RouteIs pathname world "/sub/plugins/com.mattermost.plugin-todo"
unfolding get_plugin_server_route
route = refl

team_route : get_current_team_route pathname world.state ≡ some "/sub/core/"
unfolding get_current_team_route
team_route = refl

p1-ne-empty : ◌≢◌ {A = String} "p1" ""
p1-ne-empty = ground (arith, eq_iff "p1" "")

abbrev clicks : List ℕ
clicks = 2000 ∷ 3700000 ∷ 7200000 ∷ 11000000 ∷ []

reminders-Spaced_example :
    (reminders max_safe_integer (1000 ∷ clicks) ≡ reminders 1000 clicks)
    × Spaced 1000 (reminders 1000 clicks)
reminders-Spaced_example = reminders-Spaced 1000 clicks (omega arith) (omega arith)

plain : ends_with_slash "/sub" ≡ false
unfolding ends_with_slash
plain = refl

url-ne-empty : ◌≢◌ {A = String} "https://example.org/sub/" ""
url-ne-empty = ground (arith, eq_iff "https://example.org/sub/" "")
