-- ===== src/Protocol/Safety.antt =====
-- What the server's state machine lets through, and how its state moves.
use termlink.Prelude.{
  ℕ, ◌≤◌, ◌≡◌, refl, ◌↔◌, ◌⊎◌, ◌≢◌, Bool, true, false, List, [], ◌∷◌, arith, All, All-append,
}
use termlink.Prelude.Result.{err}
use termlink.Message.{
  ClientMessage, auth_request, goodbye_in, ProtocolState, connecting, authenticating, ready,
  closing,
}
use termlink.Protocol.{
  Callback, on_data, on_binary, on_terminal_input, on_terminal_resize, wrong_state, Op, accepts,
  handle, apply, step, run,
}

-- The states in which each message is allowed, as the protocol's documentation has them.
abbrev pub Allowed : ClientMessage → ProtocolState → Type 0
Allowed (auth_request r) s = s ≡ authenticating
Allowed (goodbye_in reason) s = (s ≡ ready) ⊎ (s ≡ authenticating)
Allowed _ s = s ≡ ready

-- A message is refused exactly in the states in which it is not allowed, with the state named in
-- the error.
pub handle_refuses_iff :
    (m : ClientMessage) (s : ProtocolState) → (handle m s ≡ err (wrong_state s)) ↔ (¬ Allowed m s)
unfolding handle
handle_refuses_iff (goodbye_in reason) s = grind arith
handle_refuses_iff (auth_request r) s = grind arith
handle_refuses_iff _ s = grind arith

-- A callback that hands on what a client may do only once it is authenticated.
abbrev pub is_privileged : Callback → Bool
is_privileged (on_data payload) = true
is_privileged (on_binary payload) = true
is_privileged (on_terminal_input payload) = true
is_privileged (on_terminal_resize cols rows) = true
is_privileged _ = false

abbrev pub is_acceptance : Op → Bool
is_acceptance (accepts id) = true
is_acceptance _ = false

abbrev pub rank : ProtocolState → ℕ
rank connecting = 0
rank authenticating = 1
rank ready = 2
rank closing = 3

rank-le-step : (op : Op) (s : ProtocolState) → rank s ≤ rank (step op s).state
unfolding apply
rank-le-step op s = ground arith

-- No call takes the machine back: connecting, authenticating, ready, closing is an order that its
-- state only climbs.
pub rank-le-run : (s : ProtocolState) (ops : List Op) → rank s ≤ rank (run s ops).state
unfolding run
rank-le-run s [] = omega arith
rank-le-run s (op ∷ ops) = omega (arith, rank-le-step op s, rank-le-run (step op s).state ops)

step-accepted :
    (op : Op) (s : ProtocolState)
    → is_acceptance op ≡ false
    → s ≢ ready
    → ((step op s).state ≢ ready) × All (λ c. is_privileged c ≡ false) (step op s).calls
unfolding apply
step-accepted op s h k = ground arith

run-not_ready :
    (s : ProtocolState) (ops : List Op)
    → All (λ op. is_acceptance op ≡ false) ops
    → s ≢ ready
    → All (λ c. is_privileged c ≡ false) (run s ops).calls
unfolding run
run-not_ready s [] h k = tt
run-not_ready s (op ∷ ops) h k =
    let (next, quiet) = step-accepted op s h.0 k in
    All-append (λ c. is_privileged c ≡ false) (step op s).calls _ quiet
      (run-not_ready (step op s).state ops h.1 next)

-- Until the connection accepts the client's credentials, no sequence of calls hands on data,
-- binary data, terminal input or a resize, whatever messages arrive and in whatever order.
run_unauthenticated :
    (ops : List Op)
    → All (λ op. is_acceptance op ≡ false) ops
    → All (λ c. is_privileged c ≡ false) (run connecting ops).calls
run_unauthenticated ops h = run-not_ready connecting ops h (λ e. cc)

pub step-closing : (op : Op) → step op closing ≡ record { state = closing; calls = [] }
unfolding apply
step-closing op = ground arith

-- Once closing, the machine stays so, and makes no callback at all: nothing is sent, and nothing
-- that the client sends is handed on.
pub run-closing : (ops : List Op) → run closing ops ≡ record { state = closing; calls = [] }
unfolding run
run-closing [] = refl
run-closing (op ∷ ops) = ground (arith, step-closing op, run-closing ops)
