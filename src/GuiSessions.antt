-- ===== src/GuiSessions.antt =====
-- relay/src/gui-sessions.ts: the sessions that the web page opens. The random ids and the clock
-- are arguments. A loop over a copy of the map reads each record as it was when the loop began,
-- which is how it still is when its turn comes: a turn changes no record but its own.
pub mod Calls
pub mod Keys
pub mod Proper
pub mod Lifecycle
pub mod Sweep
mod Tests
use termlink.Prelude.{
  ℕ, ◌+◌, String, Bool, true, false, ◌&&◌, ◌||◌, List, [], ◌∷◌, Option, none, some, leb, truthy,
  length, if◌then◌else◌, ◌==◌,
}
use termlink.Prelude.Dict.{Dict, get, put, remove}
use termlink.DeviceStore.{TargetType}

pub data GuiSessionState : Type 0 where
  creating connecting connected disconnected closed : GuiSessionState

pub record GuiSession : Type 0 where
  pub id : String
  pub username : String
  pub device_id : String
  pub target : TargetType
  pub state : GuiSessionState
  pub created_at : ℕ
  pub connected_at : Option ℕ
  pub last_active : ℕ
  pub connection_id : Option String
  pub closed_reason : Option String

pub record GuiSessionRegistry : Type 0 where
  pub sessions : Dict GuiSession
  pub connection_to_session : Dict String

abbrev pub new_registry : GuiSessionRegistry
new_registry = record { sessions = []; connection_to_session = [] }

-- `TRANSITIONS[from].includes(to)`
abbrev pub may : GuiSessionState → GuiSessionState → Bool
may creating connecting = true
may creating closed = true
may connecting connected = true
may connecting disconnected = true
may connecting closed = true
may connected disconnected = true
may connected closed = true
may disconnected connecting = true
may disconnected closed = true
may _ _ = false

abbrev pub put_session : String → GuiSession → GuiSessionRegistry → GuiSessionRegistry
put_session id g r = record r { sessions = put r.sessions id g }

abbrev pub new_session : String → (username device_id : String) → TargetType → ℕ → GuiSession
new_session id username device_id target now = record {
  id = id;
  username = username;
  device_id = device_id;
  target = target;
  state = creating;
  created_at = now;
  connected_at = none;
  last_active = now;
  connection_id = none;
  closed_reason = none;
}

unfoldable pub create :
    String
    → (username device_id : String) → TargetType
    → ℕ
    → GuiSessionRegistry
    → GuiSessionRegistry
create id username device_id target now =
    put_session id (new_session id username device_id target now)

-- `get`
abbrev pub lookup : GuiSessionRegistry → String → Option GuiSession
lookup r id = get r.sessions id

unfoldable pub get_by_connection_id : GuiSessionRegistry → String → Option GuiSession
get_by_connection_id r connection_id = elim (get r.connection_to_session connection_id) [
  | none ↦ none
  | some id ↦ if truthy id then get r.sessions id else none
]

-- A stable sort by the time of creation, the newest first.
unfoldable pub insert_newest : GuiSession → List GuiSession → List GuiSession
insert_newest g [] = g ∷ []
insert_newest g (h ∷ sessions) =
    let rest = insert_newest g sessions in
    if leb h.created_at g.created_at then g ∷ h ∷ sessions else h ∷ rest

unfoldable pub list_of : String → Dict GuiSession → List GuiSession
list_of username [] = []
list_of username ((id, g) ∷ sessions) =
    let rest = list_of username sessions in
    if g.username == username then insert_newest g rest else rest

unfoldable pub list_for : String → GuiSessionRegistry → List GuiSession
unfolding list_of
list_for username r = list_of username r.sessions

abbrev pub reason_or : Option String → Option String → Option String
reason_or none old = old
reason_or (some reason) old = some reason

abbrev pub moved : GuiSessionState → Option String → ℕ → GuiSession → GuiSession
moved to reason now g = record g {
  state = to;
  last_active = now;
  closed_reason = reason_or reason g.closed_reason;
}

unfoldable pub transition :
    String → GuiSessionState → Option String → ℕ → GuiSessionRegistry → Bool × GuiSessionRegistry
transition id to reason now r = elim (get r.sessions id) [
  | none ↦ (false, r)
  | some g ↦ if may g.state to then (true, put_session id (moved to reason now g) r) else (false, r)
]

abbrev pub forget : String → Bool × GuiSessionRegistry → GuiSessionRegistry
forget connection_id (false, r) = r
forget connection_id (true, r) = record r {
  connection_to_session = remove r.connection_to_session connection_id;
}

-- `transitionByConnection`
unfoldable pub transition_by_connection :
    String → GuiSessionState → Option String → ℕ → GuiSessionRegistry → GuiSessionRegistry
transition_by_connection connection_id to reason now r =
    elim (get r.connection_to_session connection_id) [
      | none ↦ r
      | some id ↦ if truthy id then forget connection_id (transition id to reason now r) else r
    ]

abbrev pub attached : String → ℕ → GuiSession → GuiSession
attached connection_id now g = record g {
  state = connecting;
  connection_id = some connection_id;
  last_active = now;
}

unfoldable pub attach : String → String → ℕ → GuiSessionRegistry → Bool × GuiSessionRegistry
attach id connection_id now r = elim (get r.sessions id) [
  | none ↦ (false, r)
  | some g ↦
      if may g.state connecting
      then (
        true,
        record {
          sessions = put r.sessions id (attached connection_id now g);
          connection_to_session = put r.connection_to_session connection_id id;
        },
      )
      else (false, r)
]

abbrev pub marked : String → ℕ → GuiSession → GuiSession
marked connection_id now g = record g {
  state = connected;
  connection_id = some connection_id;
  connected_at = some now;
  last_active = now;
}

unfoldable pub mark_connected : String → String → ℕ → GuiSessionRegistry → Bool × GuiSessionRegistry
mark_connected id connection_id now r = elim (get r.sessions id) [
  | none ↦ (false, r)
  | some g ↦
      if may g.state connected
      then (true, put_session id (marked connection_id now g) r)
      else (false, r)
]

unfoldable pub mark_disconnected :
    String → Option String → ℕ → GuiSessionRegistry → GuiSessionRegistry
unfolding transition_by_connection
mark_disconnected connection_id = transition_by_connection connection_id disconnected

unfoldable pub close : String → String → ℕ → GuiSessionRegistry → Bool × GuiSessionRegistry
close id reason now r = elim (get r.sessions id) [
  | none ↦ (false, r)
  | some g ↦ (true, (transition id closed (some reason) now r).1)
]

abbrev pub size : GuiSessionRegistry → ℕ
size r = length r.sessions

abbrev pub connection_count : GuiSessionRegistry → ℕ
connection_count r = length r.connection_to_session
