-- ===== src/Actions/Replies.antt =====
-- What an answer of the server changes: `fetchAllIssueLists` and `updateConfig` of
-- webapp/src/actions.js with webapp/src/reducer.js.
use okrbest_plugin_todo.Common.{String, Option, none, some, ◌≡◌, arith}
use okrbest_plugin_todo.Model.{AllIssues}
use okrbest_plugin_todo.Store.{PluginState, reducer}
use okrbest_plugin_todo.Actions.{
  Reply, failed, json, World, perform, perform_all, receive_all_issue_lists,
}

-- The plugin's state after an answer to `fetchAllIssueLists`.
abbrev pub after_lists :
    (String → Option String) → World → Reply (Option AllIssues) → Option PluginState
after_lists pathname w r = (perform_all pathname w (receive_all_issue_lists r)).state.plugin

-- An answer to `fetchAllIssueLists` replaces the issues by those in the answer, and changes nothing
-- else of the plugin's state. The state stays as it is if the call failed or the answer is null.
-- No request is sent.
pub receive_lists_lem :
    (pathname : String → Option String) (w : World) (s : PluginState) (r : Reply (Option AllIssues))
    → w.state.plugin ≡ some s
    → ((lists : AllIssues)
        → r ≡ json (some lists)
        → after_lists pathname w r ≡ some (record s { all_issues = lists }))
      × (r ≡ json none → after_lists pathname w r ≡ some s)
      × (r ≡ failed → after_lists pathname w r ≡ some s)
      × ((perform_all pathname w (receive_all_issue_lists r)).requests ≡ w.requests)
unfolding receive_all_issue_lists perform reducer
receive_lists_lem pathname w s failed h = ground arith
receive_lists_lem pathname w s (json none) h = ground arith
receive_lists_lem pathname w s (json (some l)) h = ground arith
