-- ===== src/DeviceStore.antt =====
-- relay/src/device-store.ts: the devices that may connect, their enrollment and whether they are
-- online. The clock is an argument. `register` waits for the hash of the secret in its midst, so
-- it is two calls here, and `hashing` lists the registrations that wait. `openEnrollment`, which
-- the constructor adds to an entry and nothing reads, is left out.
pub mod Keeps
pub mod Enrollment
pub mod Online
mod Tests
use termlink.Prelude.{
  ℕ, zero, suc, String, Bool, true, false, List, [], ◌∷◌, ◌++◌, Option, none, some, get_elem?,
  if◌then◌else◌, ◌==◌,
}
use termlink.Prelude.Dict.{Dict, get, put}
use termlink.Credentials.{Text, Bytes, Scrypt, hash_secret, verify_stored}

pub data TargetType : Type 0 where
  shell android : TargetType

pub record DeviceConfig : Type 0 where
  pub id : String
  pub name : String
  pub target : TargetType
  pub enrollment_token : Option String

pub record DeviceState : Type 0 where
  pub secret_hash : Option Text
  pub registered_at : Option ℕ
  pub online : Bool
  pub connection_id : Option String
  pub last_seen : ℕ
  pub open_enrollment_warned : Bool

pub record DeviceStore : Type 0 where
  pub configs : List DeviceConfig
  pub state : Dict DeviceState
  pub hashing : List (String × String)

pub record DeviceInfo : Type 0 where
  pub id : String
  pub name : String
  pub target : TargetType
  pub online : Bool
  pub last_seen : ℕ
  pub enrolled : Bool

abbrev pub fresh : ℕ → DeviceState
fresh now = record {
  secret_hash = none;
  registered_at = none;
  online = false;
  connection_id = none;
  last_seen = now;
  open_enrollment_warned = false;
}

unfoldable pub fill : List DeviceConfig → ℕ → Dict DeviceState → Dict DeviceState
fill [] now state = state
fill (c ∷ configs) now state = fill configs now (put state c.id (fresh now))

unfoldable pub new_store : List DeviceConfig → ℕ → DeviceStore
new_store configs now = record { configs = configs; state = fill configs now []; hashing = [] }

abbrev pub find_config : List DeviceConfig → String → Option DeviceConfig
find_config [] id = none
find_config (c ∷ configs) id = if c.id == id then some c else find_config configs id

abbrev pub config : DeviceStore → String → Option DeviceConfig
config s id = find_config s.configs id

abbrev pub is_some : {A : Type 0} → Option A → Bool
is_some none = false
is_some (some a) = true

unfoldable pub has : DeviceStore → String → Bool
has s id = is_some (get s.state id)

unfoldable pub is_registered : DeviceStore → String → Bool
is_registered s id = elim (get s.state id) [ none ↦ false | some d ↦ is_some d.secret_hash ]

unfoldable pub online : DeviceStore → String → Bool
online s id = elim (get s.state id) [ none ↦ false | some d ↦ d.online ]

unfoldable pub last_seen : DeviceStore → String → ℕ
last_seen s id = elim (get s.state id) [ none ↦ 0 | some d ↦ d.last_seen ]

unfoldable pub enrollment_token : DeviceStore → String → Option String
enrollment_token s id = elim (config s id) [ none ↦ none | some c ↦ c.enrollment_token ]

-- `none` where a device has no state, on which the code throws.
unfoldable pub list_from : Dict DeviceState → List DeviceConfig → Option (List DeviceInfo)
list_from state [] = some []
list_from state (c ∷ configs) = elim (get state c.id) [
  | none ↦ none
  | some d ↦ elim (list_from state configs) [
    | none ↦ none
    | some rest ↦ some (
        record {
          id = c.id;
          name = c.name;
          target = c.target;
          online = d.online;
          last_seen = d.last_seen;
          enrolled = is_some d.secret_hash;
        }
        ∷ rest)
  ]
]

unfoldable pub list : DeviceStore → Option (List DeviceInfo)
unfolding list_from
list s = list_from s.state s.configs

-- A change of the state of a device, if it is known.
unfoldable pub update : String → (DeviceState → DeviceState) → DeviceStore → DeviceStore
update id f s = elim (get s.state id) [
  | none ↦ s
  | some d ↦ record s { state = put s.state id (f d) }
]

unfoldable pub mark_open_enrollment_warned : String → DeviceStore → Bool × DeviceStore
mark_open_enrollment_warned id s = elim (get s.state id) [
  | none ↦ (false, s)
  | some d ↦
      if d.open_enrollment_warned
      then (false, s)
      else (true, record s { state = put s.state id (record d { open_enrollment_warned = true }) })
]

abbrev pub same_text : Option String → String → Bool
same_text none t = false
same_text (some s) t = s == t

abbrev pub has_token : Option String → Option String → Bool
has_token none provided = true
has_token (some expected) provided = same_text provided expected

-- `register` up to its `await`: the refusal, or `none` and the registration waits.
unfoldable pub register :
    String → (secret : String) → (token : Option String) → DeviceStore → Option String × DeviceStore
register id secret token s = elim (get s.state id) [
  | none ↦ (some "Unknown device id", s)
  | some d ↦
      if is_some d.secret_hash
      then (some "Device already registered", s)
      else if has_token (enrollment_token s id) token
      then (none, record s { hashing = s.hashing ++ (id, secret) ∷ [] })
      else (some "Invalid enrollment token", s)
]

abbrev pub remove_at : {A : Type 0} → List A → ℕ → List A
remove_at [] i = []
remove_at (x ∷ xs) zero = xs
remove_at (x ∷ xs) (suc i) = x ∷ remove_at xs i

abbrev pub enrolled : Text → ℕ → DeviceState → DeviceState
enrolled hash now d = record d { secret_hash = some hash; registered_at = some now }

-- Behind the `await`: the registration at a place among those that wait, with its salt.
unfoldable pub finish_register : Scrypt → ℕ → Bytes → ℕ → DeviceStore → DeviceStore
unfolding update
finish_register scrypt place salt now s = elim (get_elem? s.hashing place) [
  | none ↦ s
  | some (id, secret) ↦
      update id (enrolled (hash_secret scrypt secret salt) now)
        (record s { hashing = remove_at s.hashing place })
]

unfoldable pub verify : Scrypt → String → String → DeviceStore → Bool
verify scrypt id secret s = elim (get s.state id) [
  | none ↦ false
  | some d ↦ verify_stored scrypt secret d.secret_hash
]

abbrev pub connected : String → ℕ → DeviceState → DeviceState
connected connection_id now d = record d {
  online = true;
  connection_id = some connection_id;
  last_seen = now;
}

unfoldable pub set_online : String → String → ℕ → DeviceStore → DeviceStore
unfolding update
set_online id connection_id now s = update id (connected connection_id now) s

abbrev pub disconnected : ℕ → DeviceState → DeviceState
disconnected now d = record d { online = false; connection_id = none; last_seen = now }

-- The first device of that connection.
unfoldable pub release : String → ℕ → Dict DeviceState → Dict DeviceState
release connection_id now [] = []
release connection_id now ((id, d) ∷ rest) =
    let others = release connection_id now rest in
    if same_text d.connection_id connection_id
    then (id, disconnected now d) ∷ rest
    else (id, d) ∷ others

unfoldable pub set_offline : String → ℕ → DeviceStore → DeviceStore
unfolding release
set_offline connection_id now s = record s { state = release connection_id now s.state }

abbrev pub touched : ℕ → DeviceState → DeviceState
touched now d = if d.online then record d { last_seen = now } else d

unfoldable pub touch : String → ℕ → DeviceStore → DeviceStore
unfolding update
touch id now s = update id (touched now) s

-- A call on the store, or the end of a wait.
pub data Call : Type 0 where
  registers : (id secret : String) (token : Option String) → Call
  registration_ends : (place : ℕ) (salt : Bytes) (now : ℕ) → Call
  goes_online : (id connection_id : String) (now : ℕ) → Call
  goes_offline : (connection_id : String) (now : ℕ) → Call
  touches : (id : String) (now : ℕ) → Call
  warns : (id : String) → Call

module _ (scrypt : Scrypt) where
  unfoldable pub step : Call → DeviceStore → DeviceStore
  step (registers id secret token) s = (register id secret token s).1
  step (registration_ends place salt now) s = finish_register scrypt place salt now s
  step (goes_online id connection_id now) s = set_online id connection_id now s
  step (goes_offline connection_id now) s = set_offline connection_id now s
  step (touches id now) s = touch id now s
  step (warns id) s = (mark_open_enrollment_warned id s).1

  unfoldable pub run : List Call → DeviceStore → DeviceStore
  run [] s = s
  run (call ∷ calls) s = run calls (step call s)
