-- ===== src/Sessions.antt =====
-- server/src/sessions.ts: the registry of authenticated sessions. `generateSessionId` and the
-- clock are arguments: the fresh id and the current time.
pub mod Invariant
pub mod Laws
mod Tests
use termlink.Prelude.{
  ℕ, ◌+◌, String, Bool, List, [], ◌∷◌, map, Option, none, some, leb, ◌===◌, truthy, if◌then◌else◌,
  length,
}
use termlink.Prelude.Dict.{Dict, get, put, remove}

pub record Session : Type 0 where
  pub id : String
  pub connection_id : String
  pub created_at : ℕ

pub record SessionRegistry : Type 0 where
  pub sessions : Dict Session
  pub connection_to_session : Dict String

abbrev pub empty : SessionRegistry
empty = record { sessions = []; connection_to_session = [] }

-- The registry and the session that is returned; `none` where `this.sessions.get(existing)!` is
-- `undefined` after all.
add : String → String → ℕ → SessionRegistry → SessionRegistry × Option Session
add id connection_id now r =
    let session : Session = record { id = id; connection_id = connection_id; created_at = now } in
    (
      record {
        sessions = put r.sessions id session;
        connection_to_session = put r.connection_to_session connection_id id;
      },
      some session,
    )

unfoldable pub create : String → String → ℕ → SessionRegistry → SessionRegistry × Option Session
unfolding add
create id connection_id now r = elim (get r.connection_to_session connection_id) [
  | none ↦ add id connection_id now r
  | some existing ↦
      if truthy existing then (r, get r.sessions existing) else add id connection_id now r
]

unfoldable pub remove_by_session_id : String → SessionRegistry → SessionRegistry
remove_by_session_id session_id r = elim (get r.sessions session_id) [
  | none ↦ r
  | some session ↦ record {
    sessions = remove r.sessions session_id;
    connection_to_session = remove r.connection_to_session session.connection_id;
  }
]

unfoldable pub remove_by_connection_id : String → SessionRegistry → SessionRegistry
remove_by_connection_id connection_id r = elim (get r.connection_to_session connection_id) [
  | none ↦ r
  | some session_id ↦
      if truthy session_id
      then record {
        sessions = remove r.sessions session_id;
        connection_to_session = remove r.connection_to_session connection_id;
      }
      else r
]

unfoldable pub get_session : String → SessionRegistry → Option Session
get_session session_id r = get r.sessions session_id

unfoldable pub get_by_connection_id : String → SessionRegistry → Option Session
get_by_connection_id connection_id r = elim (get r.connection_to_session connection_id) [
  | none ↦ none
  | some session_id ↦ if truthy session_id then get r.sessions session_id else none
]

-- `now - session.createdAt >= maxAgeMs`, where the clock may have gone back.
abbrev pub is_due : ℕ → ℕ → Session → Bool
is_due max_age now s = leb (s.created_at + max_age) now

-- One round of the loop of `expireDue`.
expire_one : ℕ → ℕ → String → Session → SessionRegistry → SessionRegistry
expire_one max_age now id session r =
    if is_due max_age now session
    then record {
      sessions = remove r.sessions id;
      connection_to_session = remove r.connection_to_session session.connection_id;
    }
    else r

expire_all : ℕ → ℕ → Dict Session → SessionRegistry → SessionRegistry
expire_all max_age now [] r = r
expire_all max_age now ((id, session) ∷ todo) r =
    expire_all max_age now todo (expire_one max_age now id session r)

abbrev pub due : ℕ → ℕ → Dict Session → List Session
due max_age now [] = []
due max_age now ((id, session) ∷ todo) =
    let rest = due max_age now todo in if is_due max_age now session then session ∷ rest else rest

-- The registry, and the sessions that the caller has to terminate, in order.
unfoldable pub expire_due : ℕ → ℕ → SessionRegistry → SessionRegistry × List Session
unfolding expire_one expire_all
expire_due max_age now r =
    if max_age === 0
    then (r, [])
    else (expire_all max_age now r.sessions r, due max_age now r.sessions)

unfoldable pub size : SessionRegistry → ℕ
size r = length r.sessions

unfoldable pub all : SessionRegistry → List Session
all r = map (λ e. e.1) r.sessions

unfoldable pub clear : SessionRegistry → SessionRegistry
clear r = empty
