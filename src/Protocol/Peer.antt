-- ===== src/Protocol/Peer.antt =====
-- The two state machines together: the client's `ClientProtocol` on what the server's `Protocol`
-- sends.
use termlink.Prelude.{◌≡◌, refl, ap, ◌↔◌, List, [], ◌∷◌, ◌++◌, arith}
use termlink.Prelude.Result.{Result, ok, err, ◌>>=◌}
use termlink.Message.{ServerMessage, ProtocolState, connecting, authenticating, ready, closing}
use termlink.Protocol.{Callback, send, Op, apply, step, run}
use termlink.Protocol.Safety.{step-closing}
use termlink.ClientProtocol
use termlink.ClientProtocol.{
  ClientProtocolState, ClientMoved, ClientCallback, WrongClientState, handle_all,
}

-- The messages among the callbacks, in order.
abbrev pub sent : List Callback → List ServerMessage
sent [] = []
sent (send m ∷ calls) = m ∷ sent calls
sent (_ ∷ calls) = sent calls

-- The client's state that answers to the server's; a server that is closing sends no more.
abbrev pub Follows : ProtocolState → ClientProtocolState → Type 0
Follows connecting c = c ≡ ClientProtocol.waiting_hello
Follows authenticating c = c ≡ ClientProtocol.authenticating
Follows ready c = c ≡ ClientProtocol.ready
Follows closing c = Unit

-- The client read all messages without an error, and its state has the property.
abbrev pub Accepted : (ClientProtocolState → Type 0) → Result WrongClientState ClientMoved → Type 0
Accepted P (ok m) = P m.state
Accepted P (err e) = ⊥

step-Accepted :
    (op : Op) (s : ProtocolState) (c : ClientProtocolState)
    → Follows s c
    → Accepted (Follows (step op s).state) (handle_all c (sent (step op s).calls))
unfolding apply handle_all ClientProtocol.handle
step-Accepted op connecting c h = rw h (ground arith)
step-Accepted op authenticating c h = rw h (ground arith)
step-Accepted op ready c h = rw h (ground arith)
step-Accepted op closing c h = rw (step-closing op) tt

sent-append : (xs ys : List Callback) → sent (xs ++ ys) ≡ sent xs ++ sent ys
sent-append [] ys = refl
sent-append (send m ∷ xs) ys = ap (◌∷◌ m) (sent-append xs ys)
sent-append (_ ∷ xs) ys = sent-append xs ys

-- What `handle_all` does with the messages behind the first.
abbrev then_all : List ServerMessage → ClientMoved → Result WrongClientState ClientMoved
then_all ms first = handle_all first.state ms >>= λ rest.
    ok (record { state = rest.state; calls = first.calls ++ rest.calls })

Accepted-then :
    (P : ClientProtocolState → Type 0) (calls : List ClientCallback)
    (r : Result WrongClientState ClientMoved)
    → Accepted P r
      ↔ Accepted P (r >>= λ rest. ok (record { state = rest.state; calls = calls ++ rest.calls }))
Accepted-then P calls (ok m) = (λ h. h, λ h. h)
Accepted-then P calls (err e) = (λ h. h, λ h. h)

handle_all-append :
    (P Q : ClientProtocolState → Type 0) (c : ClientProtocolState) (xs ys : List ServerMessage)
    → Accepted P (handle_all c xs)
    → ((c' : ClientProtocolState) → P c' → Accepted Q (handle_all c' ys))
    → Accepted Q (handle_all c (xs ++ ys))
unfolding handle_all
handle_all-append P Q c [] ys h k = k c h
handle_all-append P Q c (x ∷ xs) ys h k =
    first (ClientProtocol.handle x c) (λ c' h'. handle_all-append P Q c' xs ys h' k) h
  where
    first :
        (r : Result WrongClientState ClientMoved)
        → ((c' : ClientProtocolState)
            → Accepted P (handle_all c' xs)
            → Accepted Q (handle_all c' (xs ++ ys)))
        → Accepted P (r >>= then_all xs)
        → Accepted Q (r >>= then_all (xs ++ ys))
    first (ok m) more h =
        (Accepted-then Q m.calls _).0 (more m.state ((Accepted-then P m.calls _).1 h))
    first (err e) more h = h

-- Whatever calls are made on the server's machine, from any state, and whatever of them it
-- refuses: a client that follows it accepts every message that the machine sends, in order,
-- without an error, and follows it afterwards.
pub run-Accepted :
    (s : ProtocolState) (c : ClientProtocolState) (ops : List Op)
    → Follows s c
    → Accepted (Follows (run s ops).state) (handle_all c (sent (run s ops).calls))
unfolding run
run-Accepted s c [] h = unfold handle_all in h
run-Accepted s c (op ∷ ops) h =
    rw (sent-append (step op s).calls (run (step op s).state ops).calls) (
      handle_all-append (Follows (step op s).state) (Follows (run (step op s).state ops).state) c
        (sent (step op s).calls) (sent (run (step op s).state ops).calls) (step-Accepted op s c h)
        (λ c'. run-Accepted (step op s).state c' ops))
