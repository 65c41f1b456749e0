-- ===== src/Serving/Tracking.antt =====
-- What the web app reports: `handleTelemetry` of server/plugin.go, its request in
-- server/serializer.go, and `trackFrontend` of server/telemetry.go. The keys of a body are written
-- as the web app writes them.
use okrbest_plugin_todo.Common.{
  String, ℕ, Option, none, some, List, [], ◌∷◌, truthy, concat, lookup, str_eq, eq_iff, arith,
  if◌then◌else◌, ◌≡◌, ◌≢◌, refl, or_else, false,
}
use okrbest_plugin_todo.Actions.{Value, undefined, null, text, object, telemetry, body}
use okrbest_plugin_todo.Serving.{Body, field}

-- `TelemetryAPIRequest`; the properties are a map, which may be nil
pub record TelemetryRequest : Type 0 where
  pub event : String
  pub properties : Option (List (String × String))

-- an event of a user that the tracker is given
pub record Tracked : Type 0 where
  pub event : String
  pub user : String
  pub properties : List (String × String)

-- What a field of the type of maps is, for a value: a text is an error, `none`.
unfoldable pub map_of : Value → Option (Option (List (String × String)))
map_of undefined = some none
map_of null = some none
map_of (object o) = some (some o)
map_of (text _) = none

infixl 5 ◌>>=◌
abbrev ◌>>=◌ : {A B : Type 0} → Option A → (A → Option B) → Option B
none >>= f = none
some a >>= f = f a

unfoldable pub get_telemetry : Body → Option TelemetryRequest
unfolding field map_of
get_telemetry none = none
get_telemetry (some request) = do
  event ← field "event" request
  properties ← map_of (or_else (lookup "properties" request) undefined)
  some (record { event = event; properties = properties })

unfoldable pub track_frontend : String → TelemetryRequest → Tracked
track_frontend user request = record {
  event = concat ("frontend_" ∷ request.event ∷ []);
  user = user;
  properties = or_else request.properties [];
}

-- the status of the answer, and what is tracked
unfoldable pub handle_telemetry : String → Body → ℕ × List Tracked
unfolding get_telemetry track_frontend
handle_telemetry user request = elim (get_telemetry request) [
  | none ↦ (400, [])
  | some r ↦ if truthy r.event then (200, track_frontend user r ∷ []) else (400, [])
]

-- Properties that the web app gives or leaves out are tracked with an event that is not empty, under
-- the user who is asking, in no case with a nil map.
pub handle_telemetry-telemetry :
    (user event : String) (properties : Value) (o : Option (List (String × String)))
    → event ≢ ""
    → map_of properties ≡ some o
    → handle_telemetry user (body (telemetry event properties)) ≡ (
      200,
      record { event = concat ("frontend_" ∷ event ∷ []); user = user; properties = or_else o [] }
          ∷ [],
    )
unfolding handle_telemetry get_telemetry track_frontend body field
handle_telemetry-telemetry user event properties o ne m =
    let given : str_eq event "" ≡ false = ground (arith, eq_iff event "", ne) in rw (m, given) refl
