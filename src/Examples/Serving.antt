-- ===== src/Examples/Serving.antt =====
-- Requests of the web app on the server, the daily reminder, and the configuration, at concrete
-- data.
use Prim.Native.String.{[] as nil, ◌∷◌ as cons}
use Prim.Native.Nat.{◌/◌}
use okrbest_plugin_todo.Common.{
  zero, suc, String, ℕ, Bool, true, false, Option, none, some, List, [], ◌∷◌, ◌++◌, ◌≡◌, ◌≢◌, refl,
  str_eq, eq_iff, arith, if◌then◌else◌,
}
use okrbest_plugin_todo.ListStore.{Result, error, ok}
use okrbest_plugin_todo.Db.{Db}
use okrbest_plugin_todo.Actions.{text, undefined, null, Call, add}
use okrbest_plugin_todo.Serving.Asked.{stored_by, performed}
use okrbest_plugin_todo.Serving.Calls.{received}
use okrbest_plugin_todo.Configuration.{Configuration}
use okrbest_plugin_todo.Configuration.Following.{told, change_all, Follows, change_all-Follows}
use okrbest_plugin_todo.Handlers.Listing.{Offset, plus, ListsRequest}
use okrbest_plugin_todo.Preferences.{get_last_reminder_time}
use okrbest_plugin_todo.Handlers.Reminding.{Spaced, reminded, reminded-Spaced}
use okrbest_plugin_todo.Examples.Requests.{empty_db}
use okrbest_plugin_todo.Examples.Commands.{nobody, nothing, found, date, milk_db}
use okrbest_plugin_todo.Actions.Requests.{sent}
use okrbest_plugin_todo.AddIssue.{Card, key_down, step}
use okrbest_plugin_todo.ListManager.Requests as Manager
use okrbest_plugin_todo.Serving.Asked
use okrbest_plugin_todo.Serving.Saving.{step-enter-adding, step-enter-displaced}
use okrbest_plugin_todo.Examples.Dialogs.{server, card, ready}
use okrbest_plugin_todo.Examples.Sample.{pathname, adding}

abbrev upper : String → String
upper method = if str_eq method "post" then "POST" else if str_eq method "put" then "PUT" else "GET"

abbrev sending : Call
sending = add "milk" (text "/pl/p1") undefined (text "bob") null

ann-nil : ◌≢◌ {A = String} "ann" ""
ann-nil = ground (arith, eq_iff "ann" "")

oats : ◌≢◌ {A = String} "Buy oat milk" ""
oats = ground (arith, eq_iff "Buy oat milk" "")

other_name : Asked.own_name nobody found false nothing "ann" "bob" ≡ false
unfolding Asked.own_name
other_name = refl

own_bob : Asked.own_name nobody found false nothing "bob" "bob" ≡ true
unfolding Asked.own_name
own_bob = refl

bob-nil : ◌≢◌ {A = String} "bob" ""
bob-nil = ground (arith, eq_iff "bob" "")

step-enter-adding_example :
    (c' : Card) × (call : Call) × (step pathname card (key_down "Enter" false) ≡ some c')
    × (c'.world.requests ≡ card.world.requests ++ sent server call ∷ [])
    × (stored_by (received nobody found false nothing upper "ann" call empty_db) empty_db
        ≡ performed
            (Asked.adding nobody found false nothing "ann" "Buy oat milk" "/sub/core/pl/p1" "two"
              "p1" "bob")
            empty_db)
step-enter-adding_example =
    step-enter-adding nobody found false nothing pathname upper refl refl refl "ann" "bob" card
      adding "/sub/core/" server empty_db (ready adding) refl ann-nil oats other_name

-- bob has chosen himself
step-enter-displaced_example :
    (c' : Card) × (call : Call) × (step pathname card (key_down "Enter" false) ≡ some c')
    × (c'.world.requests ≡ card.world.requests ++ sent server call ∷ [])
    × (stored_by (received nobody found false nothing upper "bob" call empty_db) empty_db
        ≡ performed (some (Manager.add "bob" "Buy oat milk" "two" "p1" "/sub/core/pl/p1")) empty_db)
step-enter-displaced_example =
    step-enter-displaced nobody found false nothing pathname upper refl "bob" "bob" card adding
      "/sub/core/" server empty_db (ready adding) refl bob-nil oats own_bob

abbrev hiding : Bool → Configuration
hiding b = record { hide_team_sidebar = b }

abbrev changes : List (Result Configuration)
changes = ok (hiding true) ∷ error "E" ∷ ok (hiding true) ∷ ok (hiding false) ∷ []

change_all-Follows_example :
    Follows (change_all changes none).0 (told adding (change_all changes none).1)
change_all-Follows_example = change_all-Follows changes none adding (λ c e. ground (arith, e))

-- texts of numbers that are read as these numbers
unary : ℕ → String
unary zero = ""
unary (suc n) = cons "1" (unary n)

count_of : String → Option ℕ
count_of nil = some 0
count_of (cons c s) = elim (count_of s) [ none ↦ none | some n ↦ some (suc n) ]

unary-count : (n : ℕ) → count_of (unary n) ≡ some n
unfolding unary count_of
unary-count zero = refl
unary-count (suc n) = rw (unary-count n) refl

-- days of UTC, whatever the zone
abbrev day_of : Offset → ℕ → ℕ × ℕ × ℕ
day_of _ seconds = (1970, 1, seconds / 86400)

abbrev asking_at : String → ℕ → ListsRequest
asking_at user now = record {
  user_id = user;
  reminder = "true";
  timezone_offset = "0";
  now = now;
  saved_at = now;
  preference_fails = false;
  time_fails = false;
  saving_fails = false;
}

abbrev visits : List (ListsRequest × Db)
visits =
    (asking_at "ann" 90000000, milk_db)
    ∷ (asking_at "ann" 90000900, milk_db)
    ∷ (asking_at "bob" 93700000, milk_db)
    ∷ (asking_at "ann" 180000000, milk_db)
    ∷ []

never_reminded : get_last_reminder_time unary count_of false "ann" nothing ≡ ok 0
unfolding get_last_reminder_time
never_reminded = refl

reminded-Spaced_example :
    Spaced
      (λ _. plus 0)
      day_of
      0
      (reminded (λ _. plus 0) day_of nobody date unary count_of "ann" visits nothing)
reminded-Spaced_example =
    reminded-Spaced (λ _. plus 0) day_of nobody date unary count_of "ann" visits nothing 0
      unary-count (refl, (refl, (refl, (refl, tt)))) never_reminded
