-- ===== src/Sidebar/Lists.antt =====
-- Which issues the right-hand side shows: `render` of
-- webapp/src/components/sidebar_right/sidebar_right.jsx.
use okrbest_plugin_todo.Common.{
  String, Bool, true, ◌||◌, Option, none, some, List, [], ◌∷◌, ◌++◌, ◌≡◌, refl, is_nil, eq_iff, ◌∙◌,
  if◌then◌else◌, arith, ◌⊎◌, inl, inr, Bool-cases,
}
use okrbest_plugin_todo.Model.{Issue, AllIssues}
use okrbest_plugin_todo.Store.{PluginState}
use okrbest_plugin_todo.Actions.{json, World, perform_all, receive_all_issue_lists}
use okrbest_plugin_todo.Actions.Replies.{receive_lists_lem}
use okrbest_plugin_todo.Sidebar.{
  Props, State, View, Section, Issues, items, my_list_name, out_list_name, map_state_to_props,
  render_lists, render,
}

-- The issues that have an item on the page, from top to bottom.
abbrev issues_of : Option Issues → List Issue
issues_of (some (items list issues)) = issues
issues_of _ = []

abbrev section_issues : Option Section → List Issue
section_issues none = []
section_issues (some s) = issues_of s.issues

abbrev pub shown : View → List Issue
shown v = section_issues v.inbox ++ issues_of v.todos

shown-render_lists :
    (add_visible : Bool) (props : Props) (state : State) (heading add_button : String)
    (todos inbox : List Issue)
    → shown (render_lists add_visible props state heading add_button todos inbox)
      ≡ (if state.show_inbox then inbox else [])
        ++ (if is_nil inbox || state.show_my then todos else [])
unfolding render_lists
shown-render_lists true props state heading add_button [] [] = ground arith
shown-render_lists true props state heading add_button (t ∷ ts) (j ∷ js) = ground arith
shown-render_lists _ props state heading add_button todos inbox = ground arith

-- With all three lists there, the right-hand side on the user's own list shows every incoming issue
-- if the inbox is expanded, and then every issue of the list, unless there is an inbox and the list
-- is collapsed. On the list of sent issues it shows all of these. Each list keeps its order.
pub render_lem :
    (add_visible : Bool) (props : Props) (state : State) (my inbox out : List Issue)
    → props.my_issues ≡ some my
    → props.in_issues ≡ some inbox
    → props.out_issues ≡ some out
    → (state.list ≡ my_list_name
        → (v : View) × (render add_visible props state ≡ some v)
          × (shown v
              ≡ (if state.show_inbox then inbox else [])
                ++ (if is_nil inbox || state.show_my then my else [])))
      × (state.list ≡ out_list_name
          → (v : View) × (render add_visible props state ≡ some v) × (shown v ≡ out))
unfolding render
render_lem add_visible props state my inbox out m i o = (
  λ e. (
    render_lists add_visible props state "My Todos" "Add Todo" my inbox,
    ground (arith, eq_iff state.list "my"),
    shown-render_lists add_visible props state "My Todos" "Add Todo" my inbox,
  ),
  λ e. (
    render_lists add_visible props state "Sent Todos" "Request a Todo from someone" out [],
    ground (arith, eq_iff state.list "my", eq_iff state.list "out", eq_iff "out" "my"),
    shown-render_lists add_visible props state "Sent Todos" "Request a Todo from someone" out []
        ∙ sent,
  ),
)
  where
    sent : (if state.show_inbox then [] else []) ++ out ≡ out
    sent = elim (Bool-cases state.show_inbox) [ inl b ↦ rw b | inr b ↦ rw b ]

-- The body of an error answer has no lists.
abbrev pub error_body : AllIssues
error_body = record { my = none; inbox = none; out = none }

-- If the server answers `fetchAllIssueLists` with an error whose body is parsed, the lists are gone
-- from the state, and rendering the user's own list or the list of sent issues throws.
pub error_reply_breaks :
    (pathname : String → Option String) (w : World) (s : PluginState) (add_visible : Bool)
    (state : State)
    → w.state.plugin ≡ some s
    → (state.list ≡ my_list_name) ⊎ (state.list ≡ out_list_name)
    → let w' = perform_all pathname w (receive_all_issue_lists (json (some error_body))) in
      (props : Props) × (map_state_to_props w'.state ≡ some props)
      × (render add_visible props state ≡ none)
unfolding map_state_to_props render
error_reply_breaks pathname w s add_visible state h l =
    let plugin = (receive_lists_lem pathname w s (json (some error_body)) h).0 error_body refl in
    (
      record {
        my_issues = none;
        in_issues = none;
        out_issues = none;
        todo_toast = s.todo_toast;
        rhs_state = s.rhs_state;
      },
      ground (arith, plugin),
      ground (arith, eq_iff state.list "my", eq_iff state.list "out"),
    )
