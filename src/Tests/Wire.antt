-- ===== src/Tests/Wire.antt =====
-- Runs of the framing of internal/protocol and of the subdomain rules of internal/server.
use htn_tunnel.Prelude.{
  ℕ, ◌≡◌, refl, none, some, List, [], ◌∷◌, ◌++◌, str, arith, ◌+◌, ◌≤◌, ◌↔◌, Option, replicate,
  length-replicate, length,
}
use htn_tunnel.Protocol.{
  Bytes, msg_auth, msg_heartbeat, max_message_size, decode, split_exact, uint32, ok,
}
use htn_tunnel.Protocol.Framing.{AllBytes, frame, decode-frame, frame-decode}
use htn_tunnel.Protocol.Messages.{frames, receive, receive-frames}
use htn_tunnel.Subdomain.{validate_subdomain}
use htn_tunnel.Subdomain.Labels.{IsLabel, validate_subdomain_iff}

abbrev greeting : Bytes
greeting = str "{}"

decode-frame_example :
    decode (frame msg_auth greeting ++ 7 ∷ []) ≡ (ok (msg_auth, greeting), 7 ∷ [])
decode-frame_example = decode-frame msg_auth greeting (7 ∷ []) (omega arith)

abbrev wire : Bytes
wire = 0 ∷ 0 ∷ 0 ∷ 3 ∷ 1 ∷ 5 ∷ 9 ∷ 8 ∷ []

wire_decoded : decode wire ≡ (ok (msg_heartbeat, 9 ∷ []), 8 ∷ [])
unfolding decode split_exact uint32
wire_decoded = refl

wire-AllBytes : AllBytes wire
wire-AllBytes = (
  omega arith,
  (
    omega arith,
    (omega arith, (omega arith, (omega arith, (omega arith, (omega arith, (omega arith, tt)))))),
  ),
)

abbrev nine : Bytes
nine = 9 ∷ []

frame-decode_example :
    (wire ≡ frame msg_heartbeat nine ++ 8 ∷ []) × (length nine ≤ max_message_size)
frame-decode_example = frame-decode wire msg_heartbeat nine (8 ∷ []) wire-AllBytes wire_decoded

oversized : ℕ
oversized = max_message_size + 1

oversized_lem : oversized ≡ max_message_size + 1
unfolding oversized
oversized_lem = refl

-- A payload one byte over the limit.
zeros : Bytes
zeros = replicate oversized 0

length-zeros : length zeros ≡ oversized
unfolding zeros
length-zeros = length-replicate oversized 0

-- A codec that carries texts as they are.
abbrev plain : Bytes → Option Bytes
plain bs = some bs

abbrev sent : List (ℕ × Bytes)
sent = (msg_auth, greeting) ∷ (msg_heartbeat, []) ∷ []

receive-frames_example : receive 3 (frames sent) ≡ sent
receive-frames_example = receive-frames 3 sent (omega arith, (omega arith, tt)) (omega arith)

validate_subdomain_iff_example : (validate_subdomain (str "my-app") ≡ none) ↔ IsLabel (str "my-app")
validate_subdomain_iff_example = validate_subdomain_iff (str "my-app")
