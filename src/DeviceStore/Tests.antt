-- ===== src/DeviceStore/Tests.antt =====
-- A device that is enrolled twice at once, and one whose link is replaced.
use termlink.Prelude.{ℕ, ◌≡◌, refl, true, String, List, ◌∷◌, [], none, some}
use termlink.Prelude.Dict.{get, put}
use termlink.Credentials.{Text, Bytes, hash_secret}
use termlink.DeviceStore.{
  DeviceConfig, DeviceStore, shell, new_store, fill, register, finish_register, enrollment_token,
  online, is_some, Call, registers, registration_ends, goes_online, touches, goes_offline, run,
  fresh, enrolled,
}
use termlink.DeviceStore.Keeps.{hash_of}
use termlink.DeviceStore.Enrollment.{hash_of-run, register_race}
use termlink.DeviceStore.Online.{LinkEvent, link_up, link_down, follow, live_link, online-follow}

abbrev derive : String → Bytes → ℕ → Bytes
derive secret salt keylen = 7 ∷ []

abbrev salt : Bytes
salt = 1 ∷ 2 ∷ []

abbrev configs : List DeviceConfig
configs =
    record { id = "pi"; name = "Pi"; target = shell; enrollment_token = some "tok" }
    ∷ record { id = "phone"; name = "Phone"; target = shell; enrollment_token = none }
    ∷ []

abbrev empty_store : DeviceStore
empty_store = record {
  configs = configs;
  state = ("pi", fresh 5) ∷ ("phone", fresh 5) ∷ [];
  hashing = [];
}

new_store_is : new_store configs 5 ≡ empty_store
unfolding new_store fill put
new_store_is = refl

abbrev asked : DeviceStore
asked = record empty_store { hashing = ("pi", "s") ∷ [] }

accepted : register "pi" "s" (some "tok") empty_store ≡ (none, asked)
unfolding register get enrollment_token
accepted = refl

register_race_example :
    ((register "pi" "other" (some "tok") asked).0 ≡ none)
    × (hash_of (finish_register derive 0 salt 6 (register "pi" "other" (some "tok") asked).1) "pi"
        ≡ some (hash_secret derive "s" salt))
    × (hash_of
          (finish_register derive 0 salt 7
            (finish_register derive 0 salt 6 (register "pi" "other" (some "tok") asked).1))
          "pi"
        ≡ some (hash_secret derive "other" salt))
register_race_example =
    register_race derive "pi" "s" "other" (some "tok") empty_store asked salt salt 6 7 refl accepted

abbrev known_hash : Text
known_hash = hash_secret derive "s" salt

abbrev enrolled_store : DeviceStore
enrolled_store = record empty_store {
  state = ("pi", enrolled known_hash 6 (fresh 5)) ∷ ("phone", fresh 5) ∷ [];
}

abbrev calls : List Call
calls =
    registers "pi" "thief" (some "tok")
    ∷ registration_ends 0 salt 8
    ∷ goes_online "pi" "k1" 9
    ∷ touches "pi" 10
    ∷ goes_offline "k1" 11
    ∷ []

is_enrolled : hash_of enrolled_store "pi" ≡ some known_hash
unfolding get
is_enrolled = refl

hash_of-run_example : hash_of (run derive calls enrolled_store) "pi" ≡ some known_hash
hash_of-run_example = hash_of-run derive calls enrolled_store "pi" known_hash is_enrolled tt

-- The device's second link comes up before its first is seen to end.
abbrev links : List LinkEvent
links = link_up "pi" "k1" 10 ∷ link_up "pi" "k2" 20 ∷ link_down "k1" 30 ∷ []

online-follow_example :
    online (follow links (new_store configs 5)) "pi" ≡ is_some (live_link "pi" links none)
online-follow_example =
    online-follow (λ connection. "pi") configs 5 links "pi" refl (refl, (refl, (tt, tt)))

stays_online : online (follow links (new_store configs 5)) "pi" ≡ true
stays_online = online-follow_example
