-- ===== src/TodoItem/Shown.antt =====
-- What an item shows: the rendering of webapp/src/components/todo_item/todo_item.jsx, without its
-- styling. The text of a number, the formatted date and time of a creation, and the host's formatted
-- message are parameters.
use okrbest_plugin_todo.Common.{
  String, ℕ, ◌+◌, Bool, false, not, ◌&&◌, ◌||◌, Option, none, some, List, [], ◌∷◌, ◌++◌, ◌≡◌, ◌≢◌,
  truthy, str_eq, eq_iff, concat, if◌then◌else◌, arith,
}
use okrbest_plugin_todo.Model.{Issue}
use okrbest_plugin_todo.Utils.{can_remove, can_complete, can_accept, can_bump}
use okrbest_plugin_todo.TodoItem.{Item}

-- `createdMessage` and `listPositionMessage`
module _ (number_text : ℕ → String) where
  unfoldable pub created_message : Issue → String
  created_message issue =
      if not (truthy issue.user)
      then "Created "
      else if str_eq issue.list ""
      then concat ("Sent to " ∷ issue.user ∷ [])
      else if str_eq issue.list "in"
      then concat ("Sent to " ∷ issue.user ∷ [])
      else if str_eq issue.list "out"
      then concat ("Received from " ∷ issue.user ∷ [])
      else "Created "

  unfoldable pub list_position_message : Issue → String
  list_position_message issue =
      if not (truthy issue.user)
      then ""
      else if str_eq issue.list ""
      then concat ("Accepted. On position " ∷ number_text (issue.position + 1) ∷ "." ∷ [])
      else if str_eq issue.list "in"
      then concat ("In Inbox on position " ∷ number_text (issue.position + 1) ∷ "." ∷ [])
      else ""

-- The entries of the menu, by their texts.
pub data Entry : Type 0 where
  accept_todo bump edit_todo assign_to delete_todo : Entry

unfoldable pub menu : String → Issue → List Entry
menu list issue =
    (if can_accept list then accept_todo ∷ [] else [])
    ++ ((if can_bump list issue.list then bump ∷ [] else [])
        ++ (edit_todo ∷ assign_to ∷ (if can_remove list issue.list then delete_todo ∷ [] else [])))

-- The two text areas, or the issue as it is read.
pub data Body : Type 0 where
  editing : String → Option String → Body
  reading :
      (message : String) (permalink : Option String) (description : Option String)
      (accept_button : Bool) (created : Option String) (position : Option String)
      → Body

pub record View : Type 0 where
  pub done_class : Bool
  pub hidden_class : Bool
  pub complete_button : Option Bool  -- whether it is active
  pub body : Body
  pub entries : Option (List Entry)
  pub edit_buttons : Bool

module _ (number_text : ℕ → String) (formatted_date formatted_time : ℕ → String) where
  unfoldable pub read_body : String → Issue → Body
  unfolding created_message list_position_message
  read_body list issue =
      reading issue.message
        (if truthy issue.post_permalink then some issue.post_permalink else none) issue.description
        ((can_remove list issue.list || can_complete list || can_accept list) && can_accept list)
        (if truthy issue.user
          then some (
              concat (
                created_message number_text issue
                ∷ " on "
                ∷ formatted_date issue.create_at
                ∷ " at "
                ∷ formatted_time issue.create_at
                ∷ []))
          else none)
        (let position = list_position_message number_text issue in
          if truthy position then some position else none)

  unfoldable pub render : String → Issue → Item → View
  unfolding read_body menu
  render list issue item = record {
    done_class = item.done;
    hidden_class = item.hidden;
    complete_button = if can_complete list then some item.done else none;
    body = if item.edit_todo then editing item.message item.description else read_body list issue;
    entries = if not item.edit_todo then some (menu list issue) else none;
    edit_buttons = item.edit_todo;
  }

-- On the three lists the menu of an item that is not edited offers: an incoming issue, to be
-- accepted, edited, assigned or deleted; an issue of one's own, to be edited, assigned or deleted;
-- a sent issue, to be edited or assigned, and also bumped and deleted exactly while the receiver
-- has it in the inbox. Only what is not sent has a button to complete it.
pub menu_lem :
    (number_text formatted_date formatted_time : ℕ → String) (issue : Issue) (item : Item)
    → item.edit_todo ≡ false
    → let view =
        λ (list : String). render number_text formatted_date formatted_time list issue item in
      ((view "in").entries ≡ some (accept_todo ∷ edit_todo ∷ assign_to ∷ delete_todo ∷ []))
      × ((view "my").entries ≡ some (edit_todo ∷ assign_to ∷ delete_todo ∷ []))
      × (issue.list ≡ "in"
          → (view "out").entries ≡ some (bump ∷ edit_todo ∷ assign_to ∷ delete_todo ∷ []))
      × (issue.list ≢ "in" → (view "out").entries ≡ some (edit_todo ∷ assign_to ∷ []))
      × ((view "in").complete_button ≡ some item.done)
      × ((view "my").complete_button ≡ some item.done)
      × ((view "out").complete_button ≡ none)
unfolding render can_remove can_complete can_accept can_bump
menu_lem number_text formatted_date formatted_time issue item h =
    ground (arith, eq_iff issue.list "in")
