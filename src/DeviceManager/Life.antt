-- ===== src/DeviceManager/Life.antt =====
-- The manager over its whole life, until the relay shuts down: a device has one link.
use termlink.Prelude.{
  ℕ, zero, suc, ◌≡◌, ◌≢◌, refl, sym, ap, ◌∙◌, String, Bool, not, ◌||◌, List, [], ◌∷◌, ◌++◌, Option,
  none, some, arith, ◌⊎◌, inl, inr, Option-cases, Bool-cases, get_elem?, includes, truthy,
}
use termlink.Prelude.Dict.{get}
use termlink.Credentials.{Scrypt}
use termlink.RateLimit.{AuthRateLimiter}
use termlink.DeviceStore
use termlink.DeviceStore.{DeviceStore}
use termlink.AgentLink.{ready, LinkConfig, AgentLink, new_link, authenticating}
use termlink.AgentLink.Messages.{LinkEvent}
use termlink.AgentLink.Messages
use termlink.AgentLink.Calm.{ready_in, closed_in, step-Shows, remove_channel-Calm}
use termlink.DeviceManager.{
  DeviceManager, new_manager, handle_connection, lend, hear, on_link, attach_browser_half, close_on,
  close_gui_session, Event, link_connects, link_moves, half_attaches, session_closes, step, run,
}
use termlink.DeviceManager.Links.{some_injective, take_back-Ends, on_link_closed-Ends}
use termlink.DeviceManager.Known.{IsKnown, Ends-IsKnown, take_back-IsKnown, on_link_ready-IsKnown}

module _ (cfg : LinkConfig) (scrypt : Scrypt) where
  on_link-IsKnown :
      (n now : ℕ) (e : LinkEvent) (m : DeviceManager)
      → IsKnown m
      → IsKnown (on_link cfg scrypt n now e m)
  unfolding on_link hear
  on_link-IsKnown n now e m i = elim (Option-cases (get_elem? m.links n)) [
    | inl gone ↦ rw (gone, on_link) i
    | inr (l, found) ↦
        let l' = Messages.step cfg scrypt e (lend m l) in
        let shows = step-Shows cfg scrypt e (lend m l) refl refl in
        elim (Option-cases (ready_in l'.out)) [
          | inr (id, told) ↦
              rw (found, on_link, told, hear)
                (on_link_ready-IsKnown n id now l l' m found (shows.named id told) i)
          | inl quiet ↦ elim (Bool-cases (closed_in l'.out)) [
            | inr open_ ↦
                rw (found, on_link, quiet, open_, hear)
                  (take_back-IsKnown n l l' m found (shows.stays quiet) (shows.same_device quiet) i)
            | inl ended ↦
                let shut : l'.state ≢ ready = ground (arith, shows.over ended) in
                rw (found, on_link, quiet, ended, hear)
                  (Ends-IsKnown n m _ i
                    (on_link_closed-Ends n l'.device_id m _ (take_back-Ends n l l' m found shut)))
          ]
        ]
  ]

  get_elem?-append_one :
      (links : List AgentLink) (y x : AgentLink) (k : ℕ)
      → get_elem? (links ++ y ∷ []) k ≡ some x
      → (get_elem? links k ≡ some x) ⊎ (y ≡ x)
  get_elem?-append_one [] y x zero h = inr (some_injective h)
  get_elem?-append_one [] y x (suc k) h = absurd cc
  get_elem?-append_one (z ∷ links) y x zero h = inl h
  get_elem?-append_one (z ∷ links) y x (suc k) h = get_elem?-append_one links y x k h

  handle_connection-IsKnown :
      (connection_id : String) (m : DeviceManager)
      → IsKnown m
      → IsKnown (handle_connection connection_id m)
  unfolding handle_connection new_link
  handle_connection-IsKnown connection_id m i = record {
    known = λ k x id h r d. elim (get_elem?-append_one m.links _ x k h) [
      | inl old ↦ i.known k x id old r d
      | inr new ↦ let mixed : authenticating ≡ ready = ap (λ y. y.state) new ∙ r in absurd cc
    ];
  }

  close_on-IsKnown :
      (fits : Bool) (session reason : String) (now : ℕ) (links : List ℕ) (m : DeviceManager)
      → IsKnown m
      → IsKnown (close_on fits session reason now links m)
  unfolding close_on
  close_on-IsKnown fits session reason now [] m i = i
  close_on-IsKnown fits session reason now (n ∷ links) m i =
      let rest = close_on-IsKnown fits session reason now links m i in
      elim (Option-cases (get_elem? m.links n)) [
        | inl gone ↦ rw (gone, close_on) rest
        | inr (l, found) ↦
            let calm = remove_channel-Calm cfg scrypt fits session (some reason) now (lend m l) in
            elim (Bool-cases (includes l.channels session)) [
              | inl here ↦
                  rw (found, close_on, here)
                    (take_back-IsKnown n l _ m found calm.unready calm.device_kept i)
              | inr elsewhere ↦ rw (found, close_on, elsewhere) rest
            ]
      ]

  same-IsKnown :
      (m m' : DeviceManager)
      → m'.links ≡ m.links
      → m'.links_by_device ≡ m.links_by_device
      → IsKnown m
      → IsKnown m'
  same-IsKnown m m' links devices i = record {
    known = λ k x id h r d.
        ap (λ by_device. get by_device id) devices
        ∙ i.known k x id (ap (λ all. get_elem? all k) (sym links) ∙ h) r d;
  }

  attach_browser_half-same :
      (device_id session_id : Option String) (m : DeviceManager)
      → let m' = attach_browser_half device_id session_id m in
        (m'.links ≡ m.links) × (m'.links_by_device ≡ m.links_by_device)
  unfolding attach_browser_half
  attach_browser_half-same none session_id m = (refl, refl)
  attach_browser_half-same (some id) none m =
      elim (Bool-cases (not (truthy id) || not (DeviceStore.has m.store id))) [
        | inl unknown ↦ rw unknown (refl, refl)
        | inr known ↦ rw known (refl, refl)
      ]
  attach_browser_half-same (some id) (some session) m =
      elim (Bool-cases (not (truthy id) || not (DeviceStore.has m.store id))) [
        | inl unknown ↦ rw unknown (refl, refl)
        | inr known ↦ elim (Bool-cases (not (truthy session))) [
          | inl empty ↦ rw (known, empty) (refl, refl)
          | inr given ↦ elim (Option-cases (get m.links_by_device id)) [
            | inl offline ↦ rw (known, given, offline) (refl, refl)
            | inr (n, online) ↦ rw (known, given, online) (refl, refl)
          ]
        ]
      ]

  step-IsKnown : (e : Event) (m : DeviceManager) → IsKnown m → IsKnown (step cfg scrypt e m)
  unfolding step close_gui_session
  step-IsKnown (link_connects connection_id) m i = handle_connection-IsKnown connection_id m i
  step-IsKnown (link_moves n now e) m i = on_link-IsKnown n now e m i
  step-IsKnown (half_attaches device_id session_id) m i =
      let same = attach_browser_half-same device_id session_id m in same-IsKnown m _ same.0 same.1 i
  step-IsKnown (session_closes fits session_id reason now) m i =
      close_on-IsKnown fits session_id reason now m.links_all m i

  run-IsKnown :
      (events : List Event) (m : DeviceManager) → IsKnown m → IsKnown (run cfg scrypt events m)
  unfolding run
  run-IsKnown [] m i = i
  run-IsKnown (e ∷ events) m i = run-IsKnown events (step cfg scrypt e m) (step-IsKnown e m i)

  new-IsKnown :
      (store : DeviceStore) (limiter : Option AuthRateLimiter) → IsKnown (new_manager store limiter)
  unfolding new_manager
  new-IsKnown store limiter = record { known = λ n l id h r d. absurd cc }

  -- Until the relay shuts down, a device has at most one ready link, however often and in whatever
  -- order agents connect, authenticate and drop: two ready links of a device are the same, and it is
  -- the one to which the manager routes the browser sessions of that device.
  pub one_link-run :
      (store : DeviceStore) (limiter : Option AuthRateLimiter) (events : List Event) (n k : ℕ)
      (l x : AgentLink) (id : String)
      → get_elem? (run cfg scrypt events (new_manager store limiter)).links n ≡ some l
      → get_elem? (run cfg scrypt events (new_manager store limiter)).links k ≡ some x
      → l.state ≡ ready
      → x.state ≡ ready
      → l.device_id ≡ some id
      → x.device_id ≡ some id
      → (n ≡ k)
        × (get (run cfg scrypt events (new_manager store limiter)).links_by_device id ≡ some n)
  one_link-run store limiter events n k l x id hn hk rn rk dn dk =
      let i = run-IsKnown events _ (new-IsKnown store limiter) in
      let first = i.known n l id hn rn dn in
      (some_injective (sym first ∙ i.known k x id hk rk dk), first)
