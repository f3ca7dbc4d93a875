-- ===== src/HttpSessions.antt =====
-- relay/src/http-sessions.ts: the browser sessions of the relay's web API. The random token and the
-- clock are arguments. `Array.prototype.sort` is stable, so an insertion sort gives its result.
pub mod Order
pub mod Eviction
pub mod Store
mod Tests
use termlink.Prelude.{
  ℕ, ◌/◌, String, Bool, true, false, List, [], ◌∷◌, map, Option, none, some, ltb, leb,
  if◌then◌else◌, length, take,
}
use termlink.Prelude.Dict.{Dict, get, put, remove}

pub data LoginMethod : Type 0 where
  by_token by_password : LoginMethod

pub record HttpSession : Type 0 where
  pub token : String
  pub username : String
  pub method : LoginMethod
  pub created_at : ℕ
  pub last_seen : ℕ

abbrev pub HttpSessionStore : Type 0
HttpSessionStore = Dict HttpSession

abbrev pub max_sessions : ℕ
max_sessions = 10000

-- `Math.floor(MAX_SESSIONS / 10)`
abbrev pub to_remove : ℕ
to_remove = max_sessions / 10

-- `sort((a, b) => a.lastSeen - b.lastSeen)`
unfoldable pub insert_by_age : HttpSession → List HttpSession → List HttpSession
insert_by_age x [] = x ∷ []
insert_by_age x (y ∷ ys) =
    let later = insert_by_age x ys in if leb x.last_seen y.last_seen then x ∷ y ∷ ys else y ∷ later

unfoldable pub by_last_seen : List HttpSession → List HttpSession
by_last_seen [] = []
by_last_seen (x ∷ xs) = insert_by_age x (by_last_seen xs)

abbrev pub values : HttpSessionStore → List HttpSession
values d = map (λ e. e.1) d

-- The loop that deletes the first of them.
unfoldable pub delete_all : List HttpSession → HttpSessionStore → HttpSessionStore
delete_all [] d = d
delete_all (x ∷ xs) d = delete_all xs (remove d x.token)

-- The sessions that go: `max` and `n` are the limit of the store and the number to remove.
abbrev pub oldest : ℕ → HttpSessionStore → List HttpSession
oldest n d = take n (by_last_seen (values d))

unfoldable pub evict : (max n : ℕ) → HttpSessionStore → HttpSessionStore
evict max n d = if ltb (length d) max then d else delete_all (oldest n d) d

unfoldable pub evict_if_oversized : HttpSessionStore → HttpSessionStore
evict_if_oversized d = evict max_sessions to_remove d

abbrev pub new_session : String → String → LoginMethod → ℕ → HttpSession
new_session token username method now = record {
  token = token;
  username = username;
  method = method;
  created_at = now;
  last_seen = now;
}

unfoldable pub create :
    String → String → LoginMethod → ℕ → HttpSessionStore → HttpSession × HttpSessionStore
create token username method now d =
    let session = new_session token username method now in
    (session, put (evict_if_oversized d) token session)

abbrev pub seen : ℕ → HttpSession → HttpSession
seen now s = record s { last_seen = now }

-- The session that is returned is the one of the store.
unfoldable pub verify : String → ℕ → HttpSessionStore → Option HttpSession × HttpSessionStore
verify token now d = elim (get d token) [
  | none ↦ (none, d)
  | some s ↦ (some (seen now s), put d token (seen now s))
]

abbrev pub is_some : Option HttpSession → Bool
is_some none = false
is_some (some s) = true

unfoldable pub delete : String → HttpSessionStore → Bool × HttpSessionStore
delete token d = (is_some (get d token), remove d token)

-- `size`
abbrev pub size : HttpSessionStore → ℕ
size d = length d

pub data Call : Type 0 where
  creates : (token username : String) (method : LoginMethod) (now : ℕ) → Call
  verifies : (token : String) (now : ℕ) → Call
  deletes : (token : String) → Call

unfoldable pub step : Call → HttpSessionStore → HttpSessionStore
step (creates token username method now) d = (create token username method now d).1
step (verifies token now) d = (verify token now d).1
step (deletes token) d = (delete token d).1

unfoldable pub run : List Call → HttpSessionStore → HttpSessionStore
run [] d = d
run (call ∷ calls) d = run calls (step call d)
