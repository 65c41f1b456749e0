-- ===== src/PostTypeTodo.antt =====
-- webapp/src/components/post_type_todo with its buttons: the message of the bot about an issue.
use okrbest_plugin_todo.Common.{
  String, Bool, true, Option, truthy, concat, none, some, List, [], ◌∷◌, any, str_eq, if◌then◌else◌,
  ◌≡◌, refl, arith, eq_iff, inl, inr, Bool-cases, ap,
}
use mathlib.Core.List.{Memᴰ}
use mathlib.Core.Option
use okrbest_plugin_todo.Model.{Issue}
use okrbest_plugin_todo.Selectors.{GlobalState, get_site_url, get_in_issues}
use okrbest_plugin_todo.Bot.{TodoProps}
use okrbest_plugin_todo.Actions.{undefined, Effect, call, telemetry, remove, accept, complete}

-- `mapStateToProps`: whether the issue of the post is still in the inbox
unfoldable pub pending_answer : List Issue → String → Bool
pending_answer in_issues issue_id = any (λ (issue : Issue). str_eq issue.id issue_id) in_issues

pub data Event : Type 0 where
  click_remove click_accept click_complete : Event

-- What a button does at once. `click_complete` marks the post as done; its effects follow after a
-- second, `completed`.
unfoldable pub handle : String → Event → Bool → Bool × List Effect
handle issue_id click_remove done =
    (done, call (telemetry "custom_post_remove" undefined) ∷ call (remove issue_id) ∷ [])
handle issue_id click_accept done =
    (done, call (telemetry "custom_post_accept" undefined) ∷ call (accept issue_id) ∷ [])
handle issue_id click_complete done = (true, [])

unfoldable pub completed : String → List Effect
completed issue_id =
    call (telemetry "custom_post_complete" undefined) ∷ call (complete issue_id) ∷ []

-- The three buttons, with the mark of the button that completes, or none of them.
unfoldable pub render : Bool → Bool → Option Bool
render pending done = if pending then some done else none

-- `mapStateToProps`: the site and whether the issue is in the inbox; `none` where it throws
unfoldable pub map_state_to_props :
    (String → Option String) → GlobalState → TodoProps → Option (String × Bool)
unfolding get_site_url get_in_issues pending_answer
map_state_to_props pathname state props = elim (get_site_url pathname state) [
  | none ↦ none
  | some site_url ↦ elim (get_in_issues state) [
    | none ↦ none
    | some list ↦ Option.map (λ l. (site_url, pending_answer l props.issue_id)) list
  ]
]

-- What is shown of a post: texts that the host formats, a link, and the class of the buttons with
-- the mark of the button that completes.
pub record View : Type 0 where
  pub pre_text : String
  pub title : String
  pub subtitle : String
  pub permalink : Option String
  pub content : Option (String × Bool)

abbrev pub content_of : Bool → String × Bool
content_of done = (
  concat (
      "todo-post d-flex flex-row-reverse align-items-center justify-content-end "
      ∷ (if done then "todo-item--done" else "")
      ∷ []),
  done,
)

-- `formatted` is the host's formatted text, for the address of the site
unfoldable pub render_post : (String → String → String) → String → Bool → Bool → TodoProps → View
unfolding render
render_post formatted site_url pending done props = record {
  pre_text = "Automated message";
  title = formatted site_url props.message;
  subtitle = formatted site_url props.todo;
  permalink = if truthy props.post_permalink then some props.post_permalink else none;
  content = Option.map content_of (render pending done);
}

mem-pending :
    (list : List Issue) (issue_id : String) {i : Issue}
    → Memᴰ i list
    → i.id ≡ issue_id
    → pending_answer list issue_id ≡ true
unfolding pending_answer
mem-pending [] issue_id m e = elim m [ ]
mem-pending (j ∷ js) issue_id {i} (Memᴰ.head p) e =
    ground (arith, eq_iff j.id issue_id, ap (λ (k : Issue). k.id) p)
mem-pending (j ∷ js) issue_id (Memᴰ.tail m) e = ground (arith, mem-pending js issue_id m e)

pending-mem :
    (list : List Issue) (issue_id : String)
    → pending_answer list issue_id ≡ true
    → (i : Issue) × Memᴰ i list × (i.id ≡ issue_id)
unfolding pending_answer
pending-mem [] issue_id h = cc
pending-mem (j ∷ js) issue_id h = elim (Bool-cases (str_eq j.id issue_id)) [
  | inl same ↦ (j, Memᴰ.head refl, (eq_iff j.id issue_id).0 same)
  | inr other ↦ let (i, m, e) = pending-mem js issue_id (ground arith) in (i, Memᴰ.tail m, e)
]

-- The post has its buttons exactly while the inbox holds an issue with the post's id.
pub render-some_iff :
    (in_issues : List Issue) (issue_id : String) (done : Bool)
    → ((i : Issue)
        → Memᴰ i in_issues
        → i.id ≡ issue_id
        → render (pending_answer in_issues issue_id) done ≡ some done)
      × (render (pending_answer in_issues issue_id) done ≡ some done
          → (i : Issue) × Memᴰ i in_issues × (i.id ≡ issue_id))
unfolding render
render-some_iff in_issues issue_id done = (
  λ i m e. rw (mem-pending in_issues issue_id m e) refl,
  λ h. pending-mem in_issues issue_id (ground arith),
)
