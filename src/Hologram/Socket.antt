-- ===== src/Hologram/Socket.antt =====
-- The socket of app/src/hologram.c: what it holds is given back on every path.
use hologram_nrf9151_gps_tra.Common.{
  ℕ, ◌+◌, ◌≡◌, ◌≢◌, ◌↔◌, true, false, not, ◌||◌, List, [], ◌∷◌, ok, is_err, is_neg, is_pos, arith,
  if◌then◌else◌, Bytes, take, pos_part,
}
use hologram_nrf9151_gps_tra.Hologram.{
  Call, get_address, open_socket, connect_socket, close_socket, free_address, send_text,
  SocketAnswers, accepted, exchange, socket_send_envelope,
}

-- How often calls, in any order, opened a socket, closed one, gave an address list back, and what
-- they gave `send`.
abbrev pub opens : List Call → ℕ
opens [] = 0
opens (open_socket ∷ calls) = opens calls + 1
opens (_ ∷ calls) = opens calls

abbrev pub closes : List Call → ℕ
closes [] = 0
closes (close_socket ∷ calls) = closes calls + 1
closes (_ ∷ calls) = closes calls

abbrev pub frees : List Call → ℕ
frees [] = 0
frees (free_address ∷ calls) = frees calls + 1
frees (_ ∷ calls) = frees calls

abbrev pub sends : List Call → List Bytes
sends [] = []
sends (send_text text taken ∷ calls) = text ∷ sends calls
sends (_ ∷ calls) = sends calls

-- What the socket layer took of each text.
abbrev pub goes_out : List Call → List Bytes
goes_out [] = []
goes_out (send_text text taken ∷ calls) = take (pos_part taken) text ∷ goes_out calls
goes_out (_ ∷ calls) = goes_out calls

pub exchange_lem :
    (a : SocketAnswers) (envelope : Bytes) (calls : List Call)
    → let (err, after) = exchange a envelope calls in
      (opens after ≡ opens calls)
      × (closes after ≡ closes calls)
      × (frees after ≡ frees calls)
      × (sends after ≡ envelope ∷ sends calls)
      × (goes_out after ≡ take (pos_part a.sent) envelope ∷ goes_out calls)
      × (a.send_errno ≢ 0
          → ((err ≡ ok)
              ↔ ((is_neg a.sent ≡ false) × (is_pos a.rx ≡ true) × (accepted a.reply ≡ true))))
unfolding exchange
exchange_lem a envelope calls = ground arith

-- Whatever the socket layer answers: the address list is given back exactly once if it was obtained
-- and not otherwise, and a socket is closed exactly as often as one was opened, which is once if there
-- was an address and a descriptor.
pub socket_balanced :
    (a : SocketAnswers) (envelope : Bytes)
    → let calls = (socket_send_envelope a envelope).1 in
      (frees calls ≡ (if is_err a.address_err || not a.address_found then 0 else 1))
      × (closes calls ≡ opens calls)
      × (opens calls
          ≡ (if is_err a.address_err || not a.address_found || is_neg a.fd then 0 else 1))
unfolding socket_send_envelope
socket_balanced a envelope =
    ground (arith, exchange_lem a envelope (connect_socket ∷ open_socket ∷ get_address ∷ []))
