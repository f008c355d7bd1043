-- ===== src/Hologram/Send.antt =====
-- When app/src/hologram.c reports success, and what it sends.
use hologram_nrf9151_gps_tra.Common.{
  ℕ, ◌≡◌, ◌≢◌, ◌⊎◌, ◌↔◌, ◌<◌, true, false, [], ◌∷◌, some, pos, ok, is_neg, is_pos, arith,
  Option-cases, inl, inr, Bytes, length, length-append, take, take-all, pos_part, ◌≤◌,
}
use hologram_nrf9151_gps_tra.Config.{Config}
use hologram_nrf9151_gps_tra.Hologram.{
  get_address, open_socket, connect_socket, Identity, is_default_key, JsonAnswers, SocketAnswers,
  accepted, socket_send_envelope, build_envelope, hologram_send,
}
use hologram_nrf9151_gps_tra.Hologram.Socket.{sends, goes_out, exchange_lem}

-- A call that fails sets `errno`.
abbrev pub SetsErrno : SocketAnswers → Type 0
SetsErrno a = (a.socket_errno ≢ 0) × (a.connect_errno ≢ 0) × (a.send_errno ≢ 0)

abbrev pub AllGood : SocketAnswers → Type 0
AllGood a =
    (a.address_err ≡ ok)
    × (a.address_found ≡ true)
    × (is_neg a.fd ≡ false)
    × (a.connect_err ≡ ok)
    × (is_neg a.sent ≡ false)
    × (is_pos a.rx ≡ true)
    × (accepted a.reply ≡ true)

socket_success :
    (a : SocketAnswers) (envelope : Bytes)
    → SetsErrno a
    → let (err, calls) = socket_send_envelope a envelope in
      ((err ≡ ok) ↔ AllGood a)
      × ((sends calls ≡ []) ⊎ (sends calls ≡ envelope ∷ []))
      × (err ≡ ok
          → (sends calls ≡ envelope ∷ []) × (goes_out calls ≡ take (pos_part a.sent) envelope ∷ []))
unfolding socket_send_envelope
socket_success a envelope e =
    ground (arith, exchange_lem a envelope (connect_socket ∷ open_socket ∷ get_address ∷ []))

-- `cJSON_PrintPreallocated` leaves room for the NUL in the buffer that it is given.
abbrev pub PrintsWithin : JsonAnswers → Type 0
PrintsWithin j =
    (k d t : Bytes) (size : ℕ) (text : Bytes) → j.print k d t size ≡ some text → length text < size

build_envelope_lem :
    (i : Identity) (j : JsonAnswers) (inner : Bytes)
    → PrintsWithin j
    → let (len, envelope) = build_envelope i j inner 512 in
      (is_neg len ≡ false → (length envelope < 512) × (len ≡ pos (length envelope)))
unfolding build_envelope
build_envelope_lem i j inner p = elim (Option-cases (j.print i.device_key inner i.topic 509)) [
  | inl e ↦ rw (e, build_envelope) (ground arith)
  | inr (text, e) ↦
      rw (e, build_envelope)
        (ground (arith, p i.device_key inner i.topic 509 text e, length-append text (10 ∷ 10 ∷ [])))
]

-- Provided that a failed socket call sets `errno`, and that cJSON prints only what fits its buffer:
-- `hologram_send` returns 0 exactly if the envelope could be built and either the build is one for
-- offline debugging or the key is set and every step of the exchange succeeds, an accepted reply
-- included. The socket layer is called only with an envelope below the buffer's size and a key, outside
-- offline debugging. A 0 without offline debugging means that `send` was called once, with the whole
-- envelope, and what went out is as much of it as `send` said it took: all of it where that reaches its
-- length.
pub hologram_send_outcome :
    (c : Config) (i : Identity) (j : JsonAnswers) (a : SocketAnswers) (inner : Bytes)
    → SetsErrno a
    → PrintsWithin j
    → let (len, envelope) = build_envelope i j inner 512 in
      let (err, calls) = hologram_send c i j a inner in
      ((err ≡ ok) ↔ (
        (is_neg len ≡ false)
        × ((c.offline_debug ≡ true) ⊎ ((is_default_key i.device_key ≡ false) × AllGood a))))
      × ((calls ≢ [])
          → (length envelope < 512)
            × (is_default_key i.device_key ≡ false)
            × (c.offline_debug ≡ false))
      × (err ≡ ok
          → c.offline_debug ≡ false
          → (sends calls ≡ envelope ∷ [])
            × (goes_out calls ≡ take (pos_part a.sent) envelope ∷ [])
            × (length envelope ≤ pos_part a.sent → goes_out calls ≡ envelope ∷ []))
unfolding hologram_send
hologram_send_outcome c i j a inner e p = ground (
  arith,
  build_envelope_lem i j inner p,
  socket_success a (build_envelope i j inner 512).1 e,
  take-all (pos_part a.sent) (build_envelope i j inner 512).1,
)
