-- ===== src/DeviceManager.antt =====
-- relay/src/device-manager.ts: the relay's agent links and the browser sessions that they carry.
-- Links are numbered as they connect. The store and the limiter are those of the manager; a link
-- has them while one of its calls runs. A link reports to the manager as the last thing that such a
-- call does, so its reports are answered behind the call. A browser half is told by `halves`.
pub mod Links
pub mod Known
pub mod Life
mod Tests
use termlink.Prelude.{
  ℕ, zero, suc, String, Bool, true, false, not, ◌&&◌, ◌||◌, List, [], ◌∷◌, ◌++◌, Option, none, some,
  truthy, ◌===◌, get_elem?, includes, if◌then◌else◌, length,
}
use termlink.Prelude.Dict.{Dict, get, put, remove}
use termlink.Credentials.{Scrypt}
use termlink.RateLimit.{AuthRateLimiter}
use termlink.DeviceStore
use termlink.DeviceStore.{DeviceStore, DeviceInfo, TargetType, shell}
use termlink.AgentLink.{
  LinkOut, reports_ready, reports_link_closed, LinkConfig, AgentLink, new_link, terminate_link,
}
use termlink.AgentLink.Messages.{LinkEvent, remove_channel, open_channel}
use termlink.AgentLink.Messages
use termlink.AgentLink.Calm.{ready_in, closed_in}

pub data HalfOut : Type 0 where
  ends_half : (reason : String) → HalfOut
  attaches : (link : ℕ) (session_id : String) → HalfOut

pub record DeviceManager : Type 0 where
  pub links : List AgentLink
  pub links_all : List ℕ
  pub links_by_device : Dict ℕ
  pub store : DeviceStore
  pub limiter : Option AuthRateLimiter
  pub halves : List HalfOut

unfoldable pub new_manager : DeviceStore → Option AuthRateLimiter → DeviceManager
new_manager store limiter = record {
  links = [];
  links_all = [];
  links_by_device = [];
  store = store;
  limiter = limiter;
  halves = [];
}

unfoldable pub handle_connection : String → DeviceManager → DeviceManager
handle_connection connection_id m = record m {
  links = m.links ++ new_link connection_id m.store m.limiter ∷ [];
  links_all = m.links_all ++ length m.links ∷ [];
}

module _ {ℓ} {A : Type ℓ} where
  unfoldable pub set_at : ℕ → A → List A → List A
  set_at i a [] = []
  set_at zero a (x ∷ xs) = a ∷ xs
  set_at (suc i) a (x ∷ xs) = x ∷ set_at i a xs

-- The link as its call finds it, its reports put aside.
abbrev pub lend : DeviceManager → AgentLink → AgentLink
lend m l = record l { store = m.store; limiter = m.limiter; out = [] }

-- The link `n` behind a call that found it as `l` and left it as `l'`.
abbrev pub take_back : ℕ → AgentLink → AgentLink → DeviceManager → DeviceManager
take_back n l l' m = record m {
  links = set_at n (record l' { out = l'.out ++ l.out }) m.links;
  store = l'.store;
  limiter = l'.limiter;
}

abbrev pub without_link : ℕ → List ℕ → List ℕ
without_link n [] = []
without_link n (k ∷ links) = let rest = without_link n links in if k === n then rest else k ∷ rest

abbrev pub is_link : ℕ → Option ℕ → Bool
is_link n none = false
is_link n (some k) = k === n

-- `onLinkClosed`
unfoldable pub on_link_closed : ℕ → Option String → DeviceManager → DeviceManager
on_link_closed n none m = record m { links_all = without_link n m.links_all }
on_link_closed n (some id) m = record m {
  links_all = without_link n m.links_all;
  links_by_device =
      if truthy id && is_link n (get m.links_by_device id)
      then remove m.links_by_device id
      else m.links_by_device;
}

-- `terminate` on a link of the manager.
unfoldable pub end_link : ℕ → String → ℕ → DeviceManager → DeviceManager
end_link n reason now m = elim (get_elem? m.links n) [
  | none ↦ m
  | some l ↦
      let l' = terminate_link (some reason) now (lend m l) in
      let m' = take_back n l l' m in
      if closed_in l'.out then on_link_closed n l'.device_id m' else m'
]

-- `onLinkReady`
unfoldable pub on_link_ready : ℕ → String → ℕ → DeviceManager → DeviceManager
on_link_ready n id now m =
    let reason : String = "Superseded by a newer device connection" in
    let m' : DeviceManager = elim (get m.links_by_device id) [
      | none ↦ m
      | some previous ↦ if previous === n then m else end_link previous reason now m
    ] in
    record m' { links_by_device = put m'.links_by_device id n }

-- What the manager does about the last report of a call.
unfoldable pub hear : ℕ → ℕ → AgentLink → DeviceManager → DeviceManager
hear n now l' m = elim (ready_in l'.out) [
  | some id ↦ on_link_ready n id now m
  | none ↦ if closed_in l'.out then on_link_closed n l'.device_id m else m
]

-- An event of the link `n`.
unfoldable pub on_link : LinkConfig → Scrypt → ℕ → ℕ → LinkEvent → DeviceManager → DeviceManager
on_link cfg scrypt n now e m = elim (get_elem? m.links n) [
  | none ↦ m
  | some l ↦ let l' = Messages.step cfg scrypt e (lend m l) in hear n now l' (take_back n l l' m)
]

abbrev pub tell_half : HalfOut → DeviceManager → DeviceManager
tell_half o m = record m { halves = o ∷ m.halves }

-- `attachBrowserHalf`; `attach` of the new session opens its channel on the link, which is an event
-- of that link.
unfoldable pub attach_browser_half : Option String → Option String → DeviceManager → DeviceManager
attach_browser_half none session_id m = tell_half (ends_half "Unknown device") m
attach_browser_half (some id) none m =
    if not (truthy id) || not (DeviceStore.has m.store id)
    then tell_half (ends_half "Unknown device") m
    else tell_half (ends_half "Agent device sessions require a session id") m
attach_browser_half (some id) (some session) m =
    if not (truthy id) || not (DeviceStore.has m.store id)
    then tell_half (ends_half "Unknown device") m
    else if not (truthy session)
    then tell_half (ends_half "Agent device sessions require a session id") m
    else elim (get m.links_by_device id) [
      | none ↦ tell_half (ends_half "Device offline") m
      | some n ↦ tell_half (attaches n session) m
    ]

abbrev pub hosts : String → Option AgentLink → Bool
hosts session none = false
hosts session (some l) = includes l.channels session

-- The loop of `closeGuiSession`, up to the first link that has the channel.
unfoldable pub close_on : Bool → String → String → ℕ → List ℕ → DeviceManager → DeviceManager
close_on fits session reason now [] m = m
close_on fits session reason now (n ∷ links) m =
    let rest = close_on fits session reason now links m in
    elim (get_elem? m.links n) [
      | none ↦ rest
      | some l ↦
          let l' = remove_channel fits session (some reason) now (lend m l) in
          if includes l.channels session then take_back n l l' m else rest
    ]

unfoldable pub close_gui_session : Bool → String → String → ℕ → DeviceManager → DeviceManager
close_gui_session fits session reason now m = close_on fits session reason now m.links_all m

-- What the relay's API asks for.
abbrev list_devices : DeviceManager → Option (List DeviceInfo)
list_devices m = DeviceStore.list m.store

abbrev has : Option String → DeviceManager → Bool
has none m = false
has (some id) m = DeviceStore.has m.store id

abbrev online : String → DeviceManager → Bool
online id m = DeviceStore.online m.store id

abbrev name : String → DeviceManager → String
name id m = elim (DeviceStore.config m.store id) [ none ↦ id | some c ↦ c.name ]

abbrev type : String → DeviceManager → TargetType
type id m = elim (DeviceStore.config m.store id) [ none ↦ shell | some c ↦ c.target ]

unfoldable pub end_all : ℕ → List ℕ → DeviceManager → DeviceManager
end_all now [] m = m
end_all now (n ∷ links) m = end_all now links (end_link n "Relay shutting down" now m)

unfoldable pub close : ℕ → DeviceManager → DeviceManager
close now m = record (end_all now m.links_all (record m { links_by_device = [] })) {
  links_all = [];
}

-- What happens until the relay shuts down.
pub data Event : Type 0 where
  link_connects : (connection_id : String) → Event
  link_moves : (n now : ℕ) (e : LinkEvent) → Event
  half_attaches : (device_id session_id : Option String) → Event
  session_closes : (fits : Bool) (session_id reason : String) (now : ℕ) → Event

module _ (cfg : LinkConfig) (scrypt : Scrypt) where
  unfoldable pub step : Event → DeviceManager → DeviceManager
  step (link_connects connection_id) m = handle_connection connection_id m
  step (link_moves n now e) m = on_link cfg scrypt n now e m
  step (half_attaches device_id session_id) m = attach_browser_half device_id session_id m
  step (session_closes fits session_id reason now) m =
      close_gui_session fits session_id reason now m

  unfoldable pub run : List Event → DeviceManager → DeviceManager
  run [] m = m
  run (e ∷ events) m = run events (step e m)
