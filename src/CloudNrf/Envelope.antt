-- ===== src/CloudNrf/Envelope.antt =====
-- The device message of app/src/cloud_nrf.c.
use hologram_nrf9151_gps_tra.Common.{
  ℕ, ◌+◌, ◌≤◌, ◌≡◌, ◌↔◌, refl, ap, false, ◌∷◌, ◌++◌, Option, none, some, ℤ, ok, is_pos, arith, leb,
  Bytes, codes, length, length-append, take-all, show_nat, length-show_nat-max,
}
use hologram_nrf9151_gps_tra.Config.{Config}
use mathlib.Core.List.{append_assoc}
use hologram_nrf9151_gps_tra.CloudNrf.{
  message_send, Cloud, Keys, json_key, json_text, envelope_text, cloud_send_telemetry, normalize,
}

abbrev pub keys_length : Keys → ℕ
keys_length k =
    length k.app_id_key
    + length k.msg_type_key
    + length k.msg_type_data
    + length k.timestamp_key
    + length k.data_key

abbrev stamp_length : Option ℕ → ℕ
stamp_length none = 0
stamp_length (some ts) = length (show_nat ts)

length-json_key : (key : Bytes) → length (json_key key) ≡ length key + 3
unfolding json_key
length-json_key key = omega (arith, length-append {0})

length-json_text : (value : Bytes) → length (json_text value) ≡ length value + 2
unfolding json_text
length-json_text value = omega (arith, length-append {0})

length-envelope :
    (k : Keys) (ts : Option ℕ) (inner : Bytes)
    → length (envelope_text k ts inner)
      ≤ 21 + keys_length k + length k.app_id + stamp_length ts + length inner
unfolding envelope_text
length-envelope k none inner = omega (arith, length-append {0}, length-json_key, length-json_text)
length-envelope k (some ts) inner =
    omega (arith, length-append {0}, length-json_key, length-json_text)

length-stamp-le : (ts : Option ℕ) → stamp_length ts ≤ 20
length-stamp-le none = omega arith
length-stamp-le (some ts) = length-show_nat-max ts

-- What stands before the payload.
pub head_text : Keys → Option ℕ → Bytes
head_text k (some ts_ms) =
    codes "{"
    ++ (json_key k.app_id_key
        ++ (json_text k.app_id
            ++ (codes ","
                ++ (json_key k.msg_type_key
                    ++ (json_text k.msg_type_data
                        ++ (codes ","
                            ++ (json_key k.timestamp_key
                                ++ (show_nat ts_ms ++ (codes "," ++ json_key k.data_key)))))))))
head_text k none =
    codes "{"
    ++ (json_key k.app_id_key
        ++ (json_text k.app_id
            ++ (codes ","
                ++ (json_key k.msg_type_key
                    ++ (json_text k.msg_type_data ++ (codes "," ++ json_key k.data_key))))))

envelope_wraps :
    (k : Keys) (ts : Option ℕ) (inner : Bytes)
    → envelope_text k ts inner ≡ head_text k ts ++ (inner ++ codes "}")
unfolding envelope_text head_text
envelope_wraps k none inner = simp append_assoc
envelope_wraps k (some ts) inner = simp append_assoc

normalize_lem : (err : ℤ) → ((normalize err ≡ ok) ↔ (err ≡ ok)) × (is_pos (normalize err) ≡ false)
unfolding normalize
normalize_lem err = ground arith

fitting_sent :
    (c : Config) (k : Keys) (ts : Option ℕ) (send_err : ℤ) (inner : Bytes) (s : Cloud)
    → length (envelope_text k ts inner) ≤ 383
    → c.offline_debug ≡ false
    → cloud_send_telemetry c k ts send_err inner s
      ≡ (normalize send_err, record s { calls = message_send (envelope_text k ts inner) ∷ s.calls })
unfolding cloud_send_telemetry
fitting_sent c k ts send_err inner s h o = rw (fits, o, take-all 383 (envelope_text k ts inner) h)
  where
    fits : leb 384 (length (envelope_text k ts inner)) ≡ false
    fits = ground arith

-- Where the five keys of the library have at most 26 characters together (they have), the application
-- at most 61 and the payload at most 255, with a time or without, and outside offline debugging: the envelope fits its 384 bytes, and
-- exactly one message goes out, which holds the whole payload unaltered before its closing brace. The
-- result is 0 exactly if the library's is, and never positive.
pub telemetry_sent :
    (c : Config) (k : Keys) (ts : Option ℕ) (send_err : ℤ) (inner : Bytes) (s : Cloud)
    → keys_length k ≤ 26
    → length k.app_id ≤ 61
    → length inner ≤ 255
    → c.offline_debug ≡ false
    → let (err, t) = cloud_send_telemetry c k ts send_err inner s in
      (t.calls ≡ message_send (head_text k ts ++ (inner ++ codes "}")) ∷ s.calls)
      × (t.link_state ≡ s.link_state)
      × ((err ≡ ok) ↔ (send_err ≡ ok))
      × (is_pos err ≡ false)
telemetry_sent c k ts send_err inner s h1 h2 h3 h4 =
    rw (fitting_sent c k ts send_err inner s short h4) (
      ap (λ text. message_send text ∷ s.calls) (envelope_wraps k ts inner),
      refl,
      (normalize_lem send_err).0,
      (normalize_lem send_err).1,
    )
  where
    short : length (envelope_text k ts inner) ≤ 383
    short = omega (arith, length-envelope k ts inner, length-stamp-le ts)
