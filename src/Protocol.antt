-- ===== src/Protocol.antt =====
-- internal/protocol: the control messages, and the framing of codec.go.
-- A frame is [4-byte length, big endian][version][type][payload]; the length covers the last three.
-- JSON and the writer are the standard library's: `marshal`, `unmarshal` and `write` are arguments.
-- A reader is the bytes that are still to come; a read past their end consumes what is left.
pub mod Framing
pub mod Messages
use htn_tunnel.Prelude.{
  ℕ, zero, suc, ◌+◌, ◌-◌, ◌*◌, ◌/◌, ◌%◌, ◌^◌, Bool, true, false, Option, none, some, List, [], ◌∷◌,
  ◌++◌, length, ltb, nat_beq, not, if◌then◌else◌,
}

abbrev pub Bytes : Type 0
Bytes = List ℕ

abbrev pub protocol_version : ℕ
protocol_version = 0x01

-- 1 << 20
abbrev pub max_message_size : ℕ
max_message_size = 2 ^ 20

abbrev pub msg_auth : ℕ
msg_auth = 0x01

abbrev pub msg_auth_response : ℕ
msg_auth_response = 0x02

abbrev pub msg_tunnel_req : ℕ
msg_tunnel_req = 0x03

abbrev pub msg_tunnel_resp : ℕ
msg_tunnel_resp = 0x04

abbrev pub msg_heartbeat : ℕ
msg_heartbeat = 0x05

abbrev pub msg_heartbeat_ack : ℕ
msg_heartbeat_ack = 0x06

abbrev pub msg_register : ℕ
msg_register = 0x0a

abbrev pub msg_register_resp : ℕ
msg_register_resp = 0x0b

abbrev pub msg_account_info : ℕ
msg_account_info = 0x0e

abbrev pub msg_account_info_resp : ℕ
msg_account_info_resp = 0x0f

abbrev pub msg_request_log : ℕ
msg_request_log = 0x10

pub data CodecError : Type 0 where
  marshal_payload write_header write_payload : CodecError
  read_length frame_too_short message_too_large : CodecError
  read_version_type unsupported_version read_payload : CodecError
  -- carries the message type that is returned beside the error
  unmarshal_payload : ℕ → CodecError

pub data Result {ℓ} (A : Type ℓ) : Type ℓ where
  ok : A → Result A
  err : CodecError → Result A

-- binary.BigEndian.PutUint32
unfoldable pub put_uint32 : ℕ → Bytes
put_uint32 n = n / 2 ^ 24 % 256 ∷ n / 2 ^ 16 % 256 ∷ n / 2 ^ 8 % 256 ∷ n % 256 ∷ []

-- binary.BigEndian.Uint32
unfoldable pub uint32 : Bytes → ℕ
uint32 (a ∷ b ∷ c ∷ d ∷ _) = a * 2 ^ 24 + b * 2 ^ 16 + c * 2 ^ 8 + d
uint32 _ = 0

-- The six bytes in front of the payload.
unfoldable pub header : ℕ → Bytes → Bytes
unfolding put_uint32
header msg_type payload =
    put_uint32 ((2 + length payload) % 2 ^ 32) ++ protocol_version ∷ msg_type ∷ []

module _ {P W : Type 0} (marshal : P → Option Bytes) (write : W → Bytes → W × Bool) where
  write_frame : ℕ → Bytes → W → Result (Unit {0}) × W
  unfolding header
  write_frame msg_type payload w =
      let (w₁, header_ok) = write w (header msg_type payload) in
      let (w₂, payload_ok) = write w₁ payload in
      if not header_ok
      then (err write_header, w₁)
      else if not (ltb 0 (length payload))
      then (ok tt, w₁)
      else if not payload_ok
      then (err write_payload, w₂)
      else (ok tt, w₂)

  -- Encoder.Encode: no payload is the nil payload of a heartbeat.
  unfoldable pub encode : ℕ → Option P → W → Result (Unit {0}) × W
  unfolding write_frame
  encode msg_type none w = write_frame msg_type [] w
  encode msg_type (some v) w = elim (marshal v) [
    | none ↦ (err marshal_payload, w)
    | some payload ↦ write_frame msg_type payload w
  ]

abbrev pub byte_at : Bytes → ℕ → ℕ
byte_at [] i = 0
byte_at (b ∷ bs) zero = b
byte_at (b ∷ bs) (suc i) = byte_at bs i

-- io.ReadFull: the first n bytes and the rest, if there are so many.
unfoldable pub split_exact : ℕ → Bytes → Option (Bytes × Bytes)
split_exact zero bs = some ([], bs)
split_exact (suc n) [] = none
split_exact (suc n) (b ∷ bs) = elim (split_exact n bs) [
  | none ↦ none
  | some (xs, rest) ↦ some (b ∷ xs, rest)
]

-- Decoder.Decode: the result, and what is left to read.
unfoldable pub decode : Bytes → Result (ℕ × Bytes) × Bytes
decode r = elim (split_exact 4 r) [
  | none ↦ (err read_length, [])
  | some (len_buf, r₁) ↦
      let frame_len = uint32 len_buf in
      let payload_len = frame_len - 2 in
      if ltb frame_len 2
      then (err frame_too_short, r₁)
      else if ltb max_message_size payload_len
      then (err message_too_large, r₁)
      else elim (split_exact 2 r₁) [
        | none ↦ (err read_version_type, [])
        | some (meta, r₂) ↦
            if not (nat_beq (byte_at meta 0) protocol_version)
            then (err unsupported_version, r₂)
            else if ltb 0 payload_len
            then elim (split_exact payload_len r₂) [
              | none ↦ (err read_payload, [])
              | some (payload, r₃) ↦ (ok (byte_at meta 1, payload), r₃)
            ]
            else (ok (byte_at meta 1, []), r₂)
      ]
]

-- DecodeInto: an empty payload, or no target, leaves the target as it was.
unfoldable pub decode_into :
    {P : Type 0} → (Bytes → Option P) → Option P → Bytes → Result (ℕ × Option P) × Bytes
decode_into unmarshal v r =
    let (result, r') = decode r in
    elim result [
      | err e ↦ (err e, r')
      | ok (msg_type, raw) ↦ if not (ltb 0 (length raw)) then (ok (msg_type, v), r') else elim v [
        | none ↦ (ok (msg_type, none), r')
        | some _ ↦ elim (unmarshal raw) [
          | none ↦ (err (unmarshal_payload msg_type), r')
          | some v' ↦ (ok (msg_type, some v'), r')
        ]
      ]
    ]
