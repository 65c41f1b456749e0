-- ===== src/Utils/Inputs.antt =====
-- Selections in a field and the colours of the user selector: webapp/src/utils.js. What the
-- browser's field offers is a parameter, and so are the host's functions on colours.
use okrbest_plugin_todo.Common.{String, ℕ, Bool, true, List, [], ◌∷◌, if◌then◌else◌}

-- The calls of a field, or of a range that it makes.
pub data Call : Type 0 where
  focus select : Call
  set_selection_range : ℕ → ℕ → Call
  collapse : Bool → Call
  move_end move_start : String → ℕ → Call

-- `setSelectionRange`, by which of the two methods the field has
unfoldable pub select_range : Bool → Bool → ℕ → ℕ → List Call
select_range has_set_selection_range has_create_text_range selection_start selection_end =
    if has_set_selection_range
    then focus ∷ set_selection_range selection_start selection_end ∷ []
    else if has_create_text_range
    then collapse true
      ∷ move_end "character" selection_end
      ∷ move_start "character" selection_start
      ∷ select
      ∷ []
    else []

-- `setCaretPosition`
unfoldable pub set_caret_position : Bool → Bool → ℕ → List Call
unfolding select_range
set_caret_position has_set_selection_range has_create_text_range pos =
    select_range has_set_selection_range has_create_text_range pos pos

pub record Theme : Type 0 where
  pub center_channel_color : String
  pub center_channel_bg : String
  pub error_text_color : String

-- `getColorStyles`; opacities are in hundredths
unfoldable pub color_styles :
    (String → ℕ → String) → (String → String → ℕ → String) → Theme → List (String × String)
color_styles change_opacity blend_colors theme =
    let faded = change_opacity theme.center_channel_color in
    let blended = blend_colors theme.center_channel_bg theme.center_channel_color in
    ("primary", faded 32)
    ∷ ("primary75", faded 24)
    ∷ ("primary50", faded 16)
    ∷ ("primary25", faded 8)
    ∷ ("danger", theme.error_text_color)
    ∷ ("dangerLight", change_opacity theme.error_text_color 48)
    ∷ ("neutral0", blended 0)
    ∷ ("neutral5", blended 8)
    ∷ ("neutral10", blended 16)
    ∷ ("neutral20", blended 24)
    ∷ ("neutral30", blended 32)
    ∷ ("neutral40", blended 40)
    ∷ ("neutral50", blended 56)
    ∷ ("neutral60", blended 64)
    ∷ ("neutral70", blended 72)
    ∷ ("neutral80", blended 80)
    ∷ ("neutral90", blended 88)
    ∷ []
