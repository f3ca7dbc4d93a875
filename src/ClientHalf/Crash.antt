-- ===== src/ClientHalf/Crash.antt =====
-- The end of a verification, for which the half has not waited: the relay's counterpart of
-- Connection/Crash.
use termlink.Prelude.{ℕ, ◌≡◌, String, Bool, true, false, ◌||◌, List, [], ◌∷◌, arith, if◌then◌else◌}
use termlink.Message.{authenticating}
use termlink.Protocol
use termlink.Protocol.{WrongState, wrong_state, same}
use termlink.ClientHalf.{ClientHalf, HalfOut, unhandled_rejection, send}
use termlink.ClientHalf.Receive.{send_all, on_protocol, send_auth_fail}
use termlink.ClientHalf.Events.{create_session, text_of_id, admit, accept, refuse, finish}

abbrev pub rejections : List HalfOut → List HalfOut
rejections [] = []
rejections (unhandled_rejection e ∷ out) = unhandled_rejection e ∷ rejections out
rejections (_ ∷ out) = rejections out

rejections-admit :
    (id : String) (h : ClientHalf)
    → rejections (admit id h).out ≡ (
        if same authenticating h.protocol
        then rejections h.out
        else unhandled_rejection (wrong_state h.protocol) ∷ rejections h.out)
unfolding admit on_protocol send_all send Protocol.auth_ok
rejections-admit id h = ground arith

rejections-refuse :
    (h : ClientHalf)
    → rejections (refuse h).out ≡ (
        if same authenticating h.protocol
        then rejections h.out
        else unhandled_rejection (wrong_state h.protocol) ∷ rejections h.out)
unfolding refuse send_auth_fail on_protocol send_all send Protocol.auth_fail
rejections-refuse h = ground arith

-- What a verification leaves behind, whether it found the credentials right or wrong: nothing new
-- on a closed half, or where the client still waits for the answer; and in every other state an
-- unhandled rejection, upon which Node ends the whole relay by default.
pub rejections-finish_half :
    (fresh : String) (now : ℕ) (valid : Bool) (h : ClientHalf)
    → rejections (finish fresh now (valid, h)).out ≡ (
        if h.closed || same authenticating h.protocol
        then rejections h.out
        else unhandled_rejection (wrong_state h.protocol) ∷ rejections h.out)
unfolding finish accept create_session
rejections-finish_half fresh now true h =
    let h' = record (create_session fresh now (record h { authenticated = true })) {
      auth_timer = false;
    } in
    ground (arith, rejections-admit (text_of_id h'.session_id) h')
rejections-finish_half fresh now false h = ground (arith, rejections-refuse h)
