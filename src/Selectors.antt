-- ===== src/Selectors.antt =====
-- webapp/src/selectors.js, over the parts of the web app's state that the plugin reads. The
-- browser's `new URL(s).pathname` is the parameter `pathname`, `none` where `new URL` throws; a
-- selector that may throw returns `none` then.
pub mod SiteUrl
pub mod Visibility
use Prim.Native.Char.{code}
use Prim.Native.String.{[] as nil, ◌∷◌ as cons}
use mathlib.Core.Option
use okrbest_plugin_todo.Common.{
  String, ℕ, Bool, true, false, not, ◌&&◌, Option, none, some, List, [], ◌∷◌, truthy, truthy?,
  nat_eq, str_eq, lookup, concat, or_else, if◌then◌else◌,
}
use okrbest_plugin_todo.Model.{plugin_id, Issue, AllIssues, User, Toast, ShowRhs}
use okrbest_plugin_todo.Store.{PluginState}

-- `entities` of the state, and the plugin's own part of it
pub record GlobalState : Type 0 where
  pub site_url : Option String  -- `getConfig(state).SiteURL`
  pub posts : List (String × String)  -- the messages of the loaded posts, by the post's id
  pub teams : List (String × String)  -- the names of the teams, by the team's id
  pub current_team_id : String
  pub my_members : Option (List (String × Unit {0}))
  pub plugin : Option PluginState

-- `|| {}`: of a missing part every property is undefined
unfoldable pub get_plugin_state : GlobalState → Option PluginState
get_plugin_state state = state.plugin

-- The names that the combined reducer gives its slices. A property of another name is undefined.
abbrev slice_names : List (String × Unit {0})
slice_names =
    ("currentAssignee", tt)
    ∷ ("addCardVisible", tt)
    ∷ ("assigneeModalVisible", tt)
    ∷ ("todoToast", tt)
    ∷ ("editingTodo", tt)
    ∷ ("postID", tt)
    ∷ ("allIssues", tt)
    ∷ ("rhsState", tt)
    ∷ ("rhsPluginAction", tt)
    ∷ ("isRhsVisible", tt)
    ∷ ("isTeamSidebarHidden", tt)
    ∷ []

-- Whether a property of the plugin's state, or of `{}`, is defined.
unfoldable pub is_defined : Option PluginState → String → Bool
is_defined none name = false
is_defined (some s) name = elim (lookup name slice_names) [ none ↦ false | some _ ↦ true ]

-- As a condition: an undefined property is falsy, and one that is defined would be read as given.
unfoldable pub is_root_modal_visible : (PluginState → Bool) → GlobalState → Bool
unfolding is_defined get_plugin_state
is_root_modal_visible value state = elim (get_plugin_state state) [
  | none ↦ false
  | some s ↦ if is_defined (some s) "rootModalVisible" then value s else false
]

unfoldable pub is_add_card_visible : GlobalState → Option Bool
unfolding get_plugin_state
is_add_card_visible state = Option.map (λ s. s.add_card_visible) (get_plugin_state state)

unfoldable pub is_assignee_modal_visible : GlobalState → Option Bool
unfolding get_plugin_state
is_assignee_modal_visible state =
    Option.map (λ s. s.assignee_modal_visible) (get_plugin_state state)

unfoldable pub get_post_id : GlobalState → Option String
unfolding get_plugin_state
get_post_id state = Option.map (λ s. s.post_id) (get_plugin_state state)

-- null and undefined are both `none`
unfoldable pub get_assignee : GlobalState → Option User
unfolding get_plugin_state
get_assignee state = elim (get_plugin_state state) [ none ↦ none | some s ↦ s.current_assignee ]

unfoldable pub get_editing_todo : GlobalState → Option String
unfolding get_plugin_state
get_editing_todo state = elim (get_plugin_state state) [ none ↦ none | some s ↦ s.editing_todo ]

unfoldable pub get_todo_toast : GlobalState → Option Toast
unfolding get_plugin_state
get_todo_toast state = elim (get_plugin_state state) [ none ↦ none | some s ↦ s.todo_toast ]

unfoldable pub get_show_rhs_action : GlobalState → Option ShowRhs
unfolding get_plugin_state
get_show_rhs_action state = elim (get_plugin_state state) [
  | none ↦ none
  | some s ↦ s.rhs_plugin_action
]

unfoldable pub get_message : GlobalState → String
unfolding get_post_id
get_message state = elim (get_post_id state) [
  | none ↦ ""
  | some id ↦ if not (truthy id) then "" else or_else (lookup id state.posts) ""
]

unfoldable pub get_all_issues : GlobalState → Option AllIssues
unfolding get_plugin_state
get_all_issues state = Option.map (λ s. s.all_issues) (get_plugin_state state)

-- a property of undefined throws; the outer `Option` is for that
unfoldable pub get_my_issues : GlobalState → Option (Option (List Issue))
unfolding get_all_issues
get_my_issues state = Option.map (λ l. l.my) (get_all_issues state)

unfoldable pub get_in_issues : GlobalState → Option (Option (List Issue))
unfolding get_all_issues
get_in_issues state = Option.map (λ l. l.inbox) (get_all_issues state)

unfoldable pub get_out_issues : GlobalState → Option (Option (List Issue))
unfolding get_all_issues
get_out_issues state = Option.map (λ l. l.out) (get_all_issues state)

unfoldable pub is_rhs_visible : GlobalState → Option Bool
unfolding get_plugin_state
is_rhs_visible state = Option.map (λ s. s.is_rhs_visible) (get_plugin_state state)

unfoldable pub is_team_sidebar_visible : GlobalState → Bool
unfolding get_plugin_state
is_team_sidebar_visible state =
    not (elim (get_plugin_state state) [ none ↦ false | some s ↦ s.is_team_sidebar_hidden ])

-- `s[s.length - 1] === '/'`
unfoldable pub ends_with_slash : String → Bool
ends_with_slash nil = false
ends_with_slash (cons c nil) = nat_eq (code c) b'/'
ends_with_slash (cons c (cons d s)) = ends_with_slash (cons d s)

-- `s.substr(0, s.length - 1)`
unfoldable pub drop_last : String → String
drop_last nil = nil
drop_last (cons c nil) = nil
drop_last (cons c (cons d s)) = cons c (drop_last (cons d s))

module _ (pathname : String → Option String) where
  without_slash : String → String
  unfolding ends_with_slash drop_last
  without_slash base_path =
      if truthy base_path && ends_with_slash base_path then drop_last base_path else base_path

  -- a config with no SiteURL, or an empty one, gives the empty base path
  unfoldable pub get_site_url : GlobalState → Option String
  unfolding without_slash
  get_site_url state = elim state.site_url [
    | none ↦ some ""
    | some url ↦ if truthy url then Option.map without_slash (pathname url) else some ""
  ]

  -- throws if the current team is not there
  unfoldable pub get_current_team_route : GlobalState → Option String
  unfolding get_site_url
  get_current_team_route state = elim (get_site_url state) [
    | none ↦ none
    | some base_path ↦
        Option.map (λ team_name. concat (base_path ∷ "/" ∷ team_name ∷ "/" ∷ []))
          (lookup state.current_team_id state.teams)
  ]

  unfoldable pub get_plugin_server_route : GlobalState → Option String
  unfolding get_site_url
  get_plugin_server_route state =
      Option.map (λ site_url. concat (site_url ∷ "/plugins/" ∷ plugin_id ∷ [])) (get_site_url state)
