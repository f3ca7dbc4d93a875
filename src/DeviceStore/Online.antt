-- ===== src/DeviceStore/Online.antt =====
-- Whether a device is online: the last link that it came up with is still there.
use termlink.Prelude.{
  ℕ, ◌≡◌, ◌≢◌, ◌↔◌, refl, sym, subst, String, true, false, List, [], ◌∷◌, Option, none, some, inl,
  inr, arith, All, if◌then◌else◌, ◌==◌, eq_iff, Bool-cases, Option-cases,
}
use termlink.Prelude.Dict.{Dict, get, put, get-put}
use termlink.DeviceStore.{
  DeviceConfig, DeviceState, DeviceStore, find_config, fresh, fill, new_store, is_some, online,
  update, same_text, connected, set_online, release, set_offline,
}
use termlink.DeviceStore.Keeps.{get-update}

-- Links come up and go down; each has the id of its connection.
pub data LinkEvent : Type 0 where
  link_up : (device connection : String) (now : ℕ) → LinkEvent
  link_down : (connection : String) (now : ℕ) → LinkEvent

unfoldable pub follow : List LinkEvent → DeviceStore → DeviceStore
follow [] s = s
follow (link_up device connection now ∷ events) s =
    follow events (set_online device connection now s)
follow (link_down connection now ∷ events) s = follow events (set_offline connection now s)

-- What a device's link is, from its events alone: the last one that came up, unless that one has
-- gone down.
abbrev pub next_link : String → LinkEvent → Option String → Option String
next_link id (link_up device connection now) link = if device == id then some connection else link
next_link id (link_down connection now) link = if same_text link connection then none else link

abbrev pub live_link : String → List LinkEvent → Option String → Option String
live_link id [] link = link
live_link id (e ∷ events) link = live_link id events (next_link id e link)

-- A connection belongs to one device.
abbrev pub Owned : (String → String) → LinkEvent → Type 0
Owned owner (link_up device connection now) = owner connection ≡ device
Owned owner (link_down connection now) = Unit

abbrev Holds : (String → String) → String × DeviceState → Type 0
Holds owner (id, d) = (c : String) → d.connection_id ≡ some c → owner c ≡ id

-- The link of a device, if the device is known, and that it is online exactly with a link.
abbrev Shows : Option DeviceState → Option String → Type 0
Shows none link = ⊥
Shows (some d) link = (d.connection_id ≡ link) × (d.online ≡ is_some link)

same_text_iff : (o : Option String) (t : String) → (same_text o t ≡ true) ↔ (o ≡ some t)
same_text_iff none t = ground arith
same_text_iff (some s) t = ground (arith, eq_iff s t)

get-Holds :
    (owner : String → String) (state : Dict DeviceState) (id c : String) (d : DeviceState)
    → All (Holds owner) state
    → get state id ≡ some d
    → d.connection_id ≡ some c
    → owner c ≡ id
unfolding get
get-Holds owner [] id c d h e k = ground arith
get-Holds owner ((j, d') ∷ rest) id c d h e k =
    ground (arith, eq_iff j id, h.0 c, get-Holds owner rest id c d h.1)

other_link :
    (owner : String → String) (state : Dict DeviceState) (id c : String) (link : Option String)
    → All (Holds owner) state
    → owner c ≢ id
    → Shows (get state id) link
    → same_text link c ≡ false
other_link owner state id c link h k s = elim (Option-cases (get state id)) [
  | inl unknown ↦ ground arith
  | inr (d, known) ↦ ground (arith, get-Holds owner state id c d h known, same_text_iff link c)
]

release-Shows :
    (owner : String → String) (c id : String) (now : ℕ) (state : Dict DeviceState)
    (link : Option String)
    → All (Holds owner) state
    → Shows (get state id) link
    → Shows (get (release c now state) id) (if same_text link c then none else link)
unfolding release get
release-Shows owner c id now [] link h s = ground arith
release-Shows owner c id now ((j, d) ∷ rest) link h s = ground (
  arith,
  release-Shows owner c id now rest link h.1,
  eq_iff j id,
  h.0 c,
  same_text_iff d.connection_id c,
  same_text_iff link c,
  other_link owner rest id c link h.1,
)

release-Holds :
    (owner : String → String) (c : String) (now : ℕ) (state : Dict DeviceState)
    → All (Holds owner) state
    → All (Holds owner) (release c now state)
unfolding release
release-Holds owner c now [] h = tt
release-Holds owner c now ((j, d) ∷ rest) h = elim (Bool-cases (same_text d.connection_id c)) [
  | inl found ↦ rw (found, release) ((λ c' e. ground arith), h.1)
  | inr other ↦ rw (other, release) (h.0, release-Holds owner c now rest h.1)
]

put-Holds :
    (owner : String → String) (state : Dict DeviceState) (id : String) (d : DeviceState)
    → All (Holds owner) state
    → Holds owner (id, d)
    → All (Holds owner) (put state id d)
unfolding put
put-Holds owner [] id d h k = (k, tt)
put-Holds owner ((j, w) ∷ rest) id d h k = elim (Bool-cases (j == id)) [
  | inl same ↦ rw (same, put) (subst (λ i. Holds owner (i, d)) (sym ((eq_iff j id).0 same)) k, h.1)
  | inr other ↦ rw (other, put) (h.0, put-Holds owner rest id d h.1 k)
]

set_online-Holds :
    (owner : String → String) (id c : String) (now : ℕ) (s : DeviceStore)
    → owner c ≡ id
    → All (Holds owner) s.state
    → All (Holds owner) (set_online id c now s).state
unfolding set_online
set_online-Holds owner id c now s o h = elim (Option-cases (get s.state id)) [
  | inl unknown ↦ rw (unknown, update) h
  | inr (d, known) ↦
      rw (known, update) (put-Holds owner s.state id (connected c now d) h (λ c' e. ground arith))
]

set_online-Shows :
    (device c id : String) (now : ℕ) (s : DeviceStore) (link : Option String)
    → Shows (get s.state id) link
    → Shows (get (set_online device c now s).state id) (if device == id then some c else link)
unfolding set_online
set_online-Shows device c id now s link h =
    ground (arith, get-update device id (connected c now) s, eq_iff device id)

follow-Shows :
    (owner : String → String) (events : List LinkEvent) (s : DeviceStore) (id : String)
    (link : Option String)
    → All (Owned owner) events
    → All (Holds owner) s.state
    → Shows (get s.state id) link
    → Shows (get (follow events s).state id) (live_link id events link)
unfolding follow set_offline
follow-Shows owner [] s id link o h k = k
follow-Shows owner (link_up device c now ∷ events) s id link o h k =
    follow-Shows owner events (set_online device c now s) id _ o.1
      (set_online-Holds owner device c now s o.0 h) (set_online-Shows device c id now s link k)
follow-Shows owner (link_down c now ∷ events) s id link o h k =
    follow-Shows owner events (set_offline c now s) id _ o.1 (release-Holds owner c now s.state h)
      (release-Shows owner c id now s.state link h k)

fill-Holds :
    (owner : String → String) (configs : List DeviceConfig) (now : ℕ) (state : Dict DeviceState)
    → All (Holds owner) state
    → All (Holds owner) (fill configs now state)
unfolding fill
fill-Holds owner [] now state h = h
fill-Holds owner (c ∷ configs) now state h =
    fill-Holds owner configs now (put state c.id (fresh now))
      (put-Holds owner state c.id (fresh now) h (λ c' e. ground arith))

get-fill :
    (configs : List DeviceConfig) (now : ℕ) (state : Dict DeviceState) (id : String)
    → get (fill configs now state) id
      ≡ (if is_some (find_config configs id) then some (fresh now) else get state id)
unfolding fill
get-fill [] now state id = refl
get-fill (c ∷ configs) now state id = ground (
  arith,
  get-fill configs now (put state c.id (fresh now)) id,
  get-put state c.id id (fresh now),
  eq_iff c.id id,
)

-- A configured device is online exactly while the link that it last came up with is there, if each
-- connection belongs to one device: a link that comes up supersedes the one before, and the end of
-- a superseded link, or of another device's, changes nothing.
pub online-follow :
    (owner : String → String) (configs : List DeviceConfig) (start : ℕ) (events : List LinkEvent)
    (id : String)
    → is_some (find_config configs id) ≡ true
    → All (Owned owner) events
    → online (follow events (new_store configs start)) id ≡ is_some (live_link id events none)
unfolding online new_store
online-follow owner configs start events id known o =
    let s = new_store configs start in
    let begun : Shows (get s.state id) none = ground (arith, get-fill configs start [] id) in
    let shown =
      follow-Shows owner events s id none o (fill-Holds owner configs start [] tt) begun in
    ground (arith, shown)
