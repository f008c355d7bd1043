-- ===== src/Hologram.antt =====
-- app/src/hologram.c and hologram.h, and app/src/cloud_hologram.c over it: the Hologram Cloud Socket.
pub mod Socket
pub mod Send
use hologram_nrf9151_gps_tra.Common.{
  ℕ, zero, suc, ◌+◌, ◌-◌, Bool, true, false, not, ◌&&◌, ◌||◌, List, [], ◌∷◌, ◌++◌, Option, none,
  some, ℤ, pos, negsuc, ok, eio, eacces, enomem, is_err, is_neg, is_pos, ◌==◌, if◌then◌else◌, Bytes,
  codes, length, take,
}
use hologram_nrf9151_gps_tra.Config.{Config}

abbrev pub envelope_max : ℕ
envelope_max = 512

abbrev pub reply_max : ℕ
reply_max = 32

-- Calls of the socket layer. `open_socket` is a `socket` that gave a descriptor, and `taken` what `send`
-- answered: how many bytes of the text the layer took, or an error.
pub data Call : Type 0 where
  get_address open_socket connect_socket receive close_socket free_address : Call
  send_text : (text : Bytes) (taken : ℤ) → Call

-- The configured device key and topic.
pub record Identity : Type 0 where
  pub device_key : Bytes
  pub topic : Bytes

-- What cJSON answers: whether the objects could be made and the two strings added, and the text that
-- `cJSON_PrintPreallocated` prints of an object with the values of "k", "d" and "t" into a buffer of
-- the given size, if it fits.
pub record JsonAnswers : Type 0 where
  pub root_made : Bool
  pub topics_made : Bool
  pub key_added : Bool
  pub data_added : Bool
  pub print : (k d t : Bytes) (size : ℕ) → Option Bytes

-- The result and what the buffer of `len` bytes holds; two newlines (10) end the text.
unfoldable pub build_envelope : Identity → JsonAnswers → (inner_json : Bytes) (len : ℕ) → ℤ × Bytes
build_envelope i j inner_json len =
    if not j.root_made
    then (enomem, [])
    else if not j.topics_made || not j.key_added || not j.data_added
    then (enomem, [])
    else elim (j.print i.device_key inner_json i.topic (len - 3)) [
      | none ↦ (enomem, [])
      | some text ↦ let buf = text ++ (10 ∷ 10 ∷ []) in (pos (length buf), buf)
    ]

-- `-errno`.
abbrev pub minus : ℕ → ℤ
minus zero = pos 0
minus (suc n) = negsuc n

-- What the socket layer answers; `errno` after each call that may fail.
pub record SocketAnswers : Type 0 where
  pub address_err : ℤ
  pub address_found : Bool
  pub fd : ℤ
  pub socket_errno : ℕ
  pub connect_err : ℤ
  pub connect_errno : ℕ
  pub sent : ℤ
  pub send_errno : ℕ
  pub rx : ℤ
  pub reply : Bytes

abbrev pub starts_with : Bytes → Bytes → Bool
starts_with [] text = true
starts_with (p ∷ ps) [] = false
starts_with (p ∷ ps) (t ∷ ts) = p == t && starts_with ps ts

-- `strstr(text, part) != NULL`.
abbrev pub contains : Bytes → Bytes → Bool
contains part [] = starts_with part []
contains part (t ∷ ts) = starts_with part (t ∷ ts) || contains part ts

-- A C string ends at its first NUL.
abbrev pub until_nul : Bytes → Bytes
until_nul [] = []
until_nul (b ∷ bs) = if b == 0 then [] else b ∷ until_nul bs

unfoldable pub accepted : Bytes → Bool
accepted reply = contains (codes "[0,0]") (until_nul (take (reply_max - 1) reply))

-- From `send` on, before the clean-up: the error, and the calls behind those made, newest first. That
-- `send` took fewer bytes than it was given is not looked at.
unfoldable pub exchange : SocketAnswers → Bytes → List Call → ℤ × List Call
exchange a envelope calls =
    let sent = send_text envelope a.sent ∷ calls in
    if is_neg a.sent
    then (minus a.send_errno, sent)
    else if is_pos a.rx && accepted a.reply
    then (ok, receive ∷ sent)
    else (eio, receive ∷ sent)

-- The code at the label `cleanup`, with a descriptor.
abbrev pub cleanup : ℤ × List Call → ℤ × List Call
cleanup (err, calls) = (err, free_address ∷ close_socket ∷ calls)

unfoldable pub socket_send_envelope : SocketAnswers → Bytes → ℤ × List Call
socket_send_envelope a envelope =
    let tried = connect_socket ∷ open_socket ∷ get_address ∷ [] in
    if is_err a.address_err || not a.address_found
    then (eio, get_address ∷ [])
    else if is_neg a.fd
    then (minus a.socket_errno, free_address ∷ get_address ∷ [])
    else if is_err a.connect_err
    then cleanup (minus a.connect_errno, tried)
    else cleanup (exchange a envelope tried)

-- `strcmp(a, b) == 0`.
abbrev pub bytes_eq : Bytes → Bytes → Bool
bytes_eq [] [] = true
bytes_eq (a ∷ as') (b ∷ bs) = a == b && bytes_eq as' bs
bytes_eq _ _ = false

abbrev pub is_default_key : Bytes → Bool
is_default_key key = bytes_eq key (codes "CHANGEME")

module _ (c : Config) (i : Identity) where
  unfoldable pub hologram_send : JsonAnswers → SocketAnswers → (inner_json : Bytes) → ℤ × List Call
  hologram_send j a inner_json =
      let (len, envelope) = build_envelope i j inner_json envelope_max in
      if is_neg len
      then (len, [])
      else if c.offline_debug
      then (ok, [])
      else if is_default_key i.device_key
      then (eacces, [])
      else socket_send_envelope a envelope

  -- app/src/cloud_hologram.c.
  unfoldable pub cloud_send_telemetry :
      JsonAnswers → SocketAnswers → (inner_json : Bytes) → ℤ × List Call
  cloud_send_telemetry j a inner_json = hologram_send j a inner_json

-- No session, no location and no assistance.
unfoldable pub cloud_init : ℤ
cloud_init = ok

unfoldable pub cloud_resume : ℤ
cloud_resume = ok

unfoldable pub cloud_is_ready : Bool
cloud_is_ready = true

unfoldable pub cloud_send_location : ℤ
cloud_send_location = ok

unfoldable pub cloud_supports_agnss : Bool
cloud_supports_agnss = false
