-- ===== src/Protocol/Messages.antt =====
-- Whole messages of internal/protocol: JSON payloads, and the loop that reads one after another.
use htn_tunnel.Prelude.{
  ℕ, zero, suc, ◌≤◌, ◌<◌, ◌≡◌, refl, Bool, true, Option, some, List, [], ◌∷◌, ◌++◌, length,
  append_assoc, append-nil, arith,
}
use htn_tunnel.Protocol.{
  Bytes, ok, err, max_message_size, encode, decode, decode_into, header, split_exact,
}
use htn_tunnel.Protocol.Framing.{frame, decode-frame}

-- bytes.Buffer: a writer that keeps everything and never fails.
abbrev pub buffer : Bytes → Bytes → Bytes × Bool
buffer w bs = (w ++ bs, true)

module _ {P : Type 0} (marshal : P → Option Bytes) (unmarshal : Bytes → Option P) where
  -- A successful encoding appends one frame to the writer.
  encode-buffer :
      (msg_type : ℕ) (v : P) (payload w : Bytes)
      → marshal v ≡ some payload
      → encode marshal buffer msg_type (some v) w ≡ (ok tt, w ++ frame msg_type payload)
  unfolding encode frame
  encode-buffer msg_type v [] w h = rw (h, encode) (ground (arith, append-nil (header msg_type [])))
  encode-buffer msg_type v (b ∷ p) w h =
      rw (h, encode) (ground (arith, append_assoc w (header msg_type (b ∷ p)) (b ∷ p)))

  -- What one side encodes the other decodes to the same type and value, and not a byte further,
  -- for a value that JSON carries over in a payload that is not empty and keeps to the limit.
  pub decode_into-encode :
      (msg_type : ℕ) (v target : P) (payload rest : Bytes)
      → marshal v ≡ some payload
      → unmarshal payload ≡ some v
      → 0 < length payload
      → length payload ≤ max_message_size
      → decode_into unmarshal (some target) ((encode marshal buffer msg_type (some v) []).1 ++ rest)
        ≡ (ok (msg_type, some v), rest)
  unfolding decode_into
  decode_into-encode msg_type v target payload rest sent received some_bytes small =
      rw (encode-buffer msg_type v payload [] sent)
        (ground (arith, decode-frame msg_type payload rest small))

-- The messages of a stream, up to the first error: the loop of `for { dec.Decode() }`.
unfoldable pub receive : ℕ → Bytes → List (ℕ × Bytes)
receive zero bs = []
receive (suc fuel) bs =
    let (result, rest) = decode bs in elim result [ ok m ↦ m ∷ receive fuel rest | err _ ↦ [] ]

abbrev pub frames : List (ℕ × Bytes) → Bytes
frames [] = []
frames ((t, p) ∷ ms) = frame t p ++ frames ms

abbrev pub AllSmall : List (ℕ × Bytes) → Type 0
AllSmall [] = Unit {0}
AllSmall ((_, p) ∷ ms) = (length p ≤ max_message_size) × AllSmall ms

-- Messages that are sent back to back arrive complete, in order and undivided, with more fuel than
-- messages; and then the reader finds the end of the stream.
pub receive-frames :
    (fuel : ℕ) (ms : List (ℕ × Bytes))
    → AllSmall ms
    → length ms < fuel
    → receive fuel (frames ms) ≡ ms
unfolding receive
receive-frames zero ms small h = absurd (omega arith)
receive-frames (suc fuel) [] small h = unfold decode split_exact in refl
receive-frames (suc fuel) ((t, p) ∷ ms) small h =
    ground
      (arith, decode-frame t p (frames ms) small.0, receive-frames fuel ms small.1 (omega arith))
