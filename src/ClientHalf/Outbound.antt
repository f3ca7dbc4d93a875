-- ===== src/ClientHalf/Outbound.antt =====
-- The way of the backend's messages to the socket, and the pressure that pauses the backend.
use termlink.Prelude.{
  ℕ, zero, suc, ◌+◌, ◌≤◌, ◌≡◌, Bool, true, false, not, ◌||◌, List, [], ◌∷◌, ◌++◌, some, ltb, arith,
  inl, inr, Bool-cases, Option-cases, if◌then◌else◌,
}
use termlink.Message.{AuthRequest, ServerMessage}
use termlink.ClientHalf.{
  Options, ClientHalf, is_open, OutboundItem, as_outbound, outbound_bytes, send_item, drain_from,
  drain_outbound, forward, maybe_release_pressure, size_at, sizes_without, on_sent,
}
use termlink.ClientHalf.Moves.{Moves, KeepsInbound}

abbrev pub total : List ℕ → ℕ
total [] = 0
total (size ∷ sizes) = size + total sizes

total-append : (a b : List ℕ) → total (a ++ b) ≡ total a + total b
total-append [] b = omega arith
total-append (size ∷ a) b = omega (arith, total-append a b)

pub total-without :
    (sizes : List ℕ) (place size : ℕ)
    → size_at sizes place ≡ some size
    → total (sizes_without sizes place) + size ≡ total sizes
total-without [] place size h = cc
total-without (s ∷ sizes) zero size h = ground arith
total-without (s ∷ sizes) (suc place) size h = ground (arith, total-without sizes place size h)

-- Between two calls nothing waits: what is under way is all with the socket, within the limit.
pub record Flows (opts : Options) (h : ClientHalf) : Type 0 where
  pub emptied : h.outbound_queue ≡ []
  pub summed : h.in_flight_bytes ≡ total h.in_flight
  pub bounded : h.in_flight_bytes ≤ opts.send_high_water_mark

-- A message of the backend, where nothing waits.
abbrev pub forwarded : Options → Bool → ServerMessage → ClientHalf → Bool × ClientHalf
forwarded opts failed m h =
    let item = as_outbound opts m in
    if h.closed || not (is_open h.ready_state)
    then (false, h)
    else if ltb opts.send_high_water_mark (h.in_flight_bytes + item.size)
    then (false, record h { pressure_signaled = true })
    else (true, send_item failed item h)

send_item-emptied :
    (failed : Bool) (item : OutboundItem) (h : ClientHalf)
    → (send_item failed item h).outbound_queue ≡ h.outbound_queue
unfolding send_item
send_item-emptied failed item h = ground arith

drain_one :
    (opts : Options) (fails : ℕ → Bool) (item : OutboundItem) (h : ClientHalf)
    (queue : List OutboundItem)
    → h.outbound_queue ≡ []
    → queue ≡ item ∷ []
    → ltb opts.send_high_water_mark (h.in_flight_bytes + item.size) ≡ false
    → is_open h.ready_state ≡ true
    → drain_outbound opts fails (record h { outbound_queue = queue }) ≡ send_item (fails 0) item h
unfolding drain_outbound drain_from send_item
drain_one opts fails item h queue e one fits open_ = rw one ground arith

pub forward-eq-forwarded :
    (opts : Options) (fails : ℕ → Bool) (m : ServerMessage) (h : ClientHalf)
    → h.outbound_queue ≡ []
    → forward opts fails m h ≡ forwarded opts (fails 0) m h
unfolding forward
forward-eq-forwarded opts fails m h e =
    let item = as_outbound opts m in
    let one : h.outbound_queue ++ item ∷ [] ≡ item ∷ [] = rw e in
    let none_waits : outbound_bytes h.outbound_queue ≡ 0 = rw e in
    elim (Bool-cases (h.closed || not (is_open h.ready_state))) [
      | inl refused ↦ rw refused
      | inr heard ↦
          elim (Bool-cases (ltb opts.send_high_water_mark (h.in_flight_bytes + item.size))) [
            | inl full ↦ ground (arith, heard, full, none_waits)
            | inr fits ↦
                let sent =
                  drain_one opts fails item h (h.outbound_queue ++ item ∷ []) e one fits
                    (ground arith) in
                ground (arith, heard, fits, none_waits, sent)
          ]
    ]

forwarded-Flows :
    (opts : Options) (failed : Bool) (m : ServerMessage) (h : ClientHalf)
    → Flows opts h
    → Flows opts (forwarded opts failed m h).1
unfolding send_item
forwarded-Flows opts failed m h f =
    ground (arith, f, total-append h.in_flight ((as_outbound opts m).size ∷ []))

forwarded-Moves :
    (opts : Options) (right : AuthRequest → Bool) (t failed : Bool) (m : ServerMessage)
    (h : ClientHalf)
    → Moves opts right t h (forwarded opts failed m h).1
unfolding send_item
forwarded-Moves opts right t failed m h = ground arith

forwarded-KeepsInbound :
    (opts : Options) (failed : Bool) (m : ServerMessage) (h : ClientHalf)
    → KeepsInbound h (forwarded opts failed m h).1
unfolding send_item
forwarded-KeepsInbound opts failed m h = ground arith

pub on_sent-Flows :
    (opts : Options) (place : ℕ) (h : ClientHalf) → Flows opts h → Flows opts (on_sent opts place h)
unfolding on_sent maybe_release_pressure
on_sent-Flows opts place h f = elim (Option-cases (size_at h.in_flight place)) [
  | inl absent ↦ rw (absent, on_sent) f
  | inr (size, under_way) ↦
      let rest = total-without h.in_flight place size under_way in
      rw (under_way, on_sent) ground (arith, f, rest)
]

pub on_sent-Moves :
    (opts : Options) (right : AuthRequest → Bool) (t : Bool) (place : ℕ) (h : ClientHalf)
    → Moves opts right t h (on_sent opts place h)
unfolding on_sent maybe_release_pressure
on_sent-Moves opts right t place h = ground arith

pub on_sent-KeepsInbound :
    (opts : Options) (place : ℕ) (h : ClientHalf) → KeepsInbound h (on_sent opts place h)
unfolding on_sent maybe_release_pressure
on_sent-KeepsInbound opts place h = ground arith

module _ (opts : Options) (fails : ℕ → Bool) (m : ServerMessage) (h : ClientHalf)
    (emptied : h.outbound_queue ≡ []) where
  pub forward-Flows : Flows opts h → Flows opts (forward opts fails m h).1
  forward-Flows f =
      rw (forward-eq-forwarded opts fails m h emptied) (forwarded-Flows opts (fails 0) m h f)

  pub forward-Moves :
      (right : AuthRequest → Bool) (t : Bool) → Moves opts right t h (forward opts fails m h).1
  forward-Moves right t =
      rw (forward-eq-forwarded opts fails m h emptied) (forwarded-Moves opts right t (fails 0) m h)

  pub forward-KeepsInbound : KeepsInbound h (forward opts fails m h).1
  forward-KeepsInbound =
      rw (forward-eq-forwarded opts fails m h emptied) (forwarded-KeepsInbound opts (fails 0) m h)
