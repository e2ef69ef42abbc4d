-- ===== src/Protocol/Framing.antt =====
-- Frames and the decoder of internal/protocol/codec.go.
use htn_tunnel.Prelude.{
  ℕ, zero, suc, ◌+◌, ◌-◌, ◌%◌, ◌^◌, ◌≤◌, ◌<◌, ◌≡◌, refl, ap, some, [], ◌∷◌, ◌++◌, length,
  append_assoc, append-nil, sym, ◌∙◌, ◌⊎◌, arith, Option-cases, inl, inr,
}
use htn_tunnel.Protocol.{
  Bytes, Result, ok, err, message_too_large, max_message_size, put_uint32, uint32, header,
  split_exact, decode, protocol_version, CodecError,
}

-- Each element is a byte.
abbrev pub AllBytes : Bytes → Type 0
AllBytes [] = Unit {0}
AllBytes (b ∷ bs) = (b < 256) × AllBytes bs

-- What an encoder puts on the wire for one message.
unfoldable pub frame : ℕ → Bytes → Bytes
frame msg_type payload = header msg_type payload ++ payload

split_exact-append : (p rest : Bytes) → split_exact (length p) (p ++ rest) ≡ some (p, rest)
unfolding split_exact
split_exact-append [] rest = refl
split_exact-append (b ∷ p) rest = rw (split_exact-append p rest, split_exact)

split_exact_sound :
    (n : ℕ) (bs p rest : Bytes)
    → split_exact n bs ≡ some (p, rest)
    → (bs ≡ p ++ rest) × (length p ≡ n)
unfolding split_exact
split_exact_sound zero bs p rest h = ground arith
split_exact_sound (suc n) [] p rest h = ground arith
split_exact_sound (suc n) (b ∷ bs) p rest h = elim (Option-cases (split_exact n bs)) [
  | inl e ↦ ground arith
  | inr ((xs, r), e) ↦ let ih = split_exact_sound n bs xs r e in ground arith
]

uint32-put_uint32 : (n : ℕ) → n < 2 ^ 32 → uint32 (put_uint32 n) ≡ n
unfolding uint32 put_uint32
uint32-put_uint32 n h = omega arith

-- A message whose payload keeps to the limit is decoded as it was
-- encoded, and the bytes behind its frame are left for the next message.
pub decode-frame :
    (msg_type : ℕ) (payload rest : Bytes)
    → length payload ≤ max_message_size
    → decode (frame msg_type payload ++ rest) ≡ (ok (msg_type, payload), rest)
unfolding decode frame header split_exact
decode-frame msg_type payload rest h =
    let len : (2 + length payload) % 2 ^ 32 - 2 ≡ length payload = omega arith in
    let word = uint32-put_uint32 ((2 + length payload) % 2 ^ 32) (omega arith) in
    ground (arith, word, len, split_exact-append payload rest)

put_uint32-uint32 :
    (a b c d : ℕ)
    → a < 256
    → b < 256
    → c < 256
    → d < 256
    → put_uint32 (uint32 (a ∷ b ∷ c ∷ d ∷ [])) ≡ a ∷ b ∷ c ∷ d ∷ []
unfolding uint32 put_uint32
put_uint32-uint32 a b c d ha hb hc hd = ground arith

split_exact-zero : (r : Bytes) → split_exact 0 r ≡ some ([], r)
unfolding split_exact
split_exact-zero r = refl

-- The decoder on an input that holds a length, a version and a type.
decode_meta :
    (a b c d v t : ℕ) (r : Bytes) {msg_type : ℕ} {payload rest : Bytes}
    → decode (a ∷ b ∷ c ∷ d ∷ v ∷ t ∷ r) ≡ (ok (msg_type, payload), rest)
    → let n = uint32 (a ∷ b ∷ c ∷ d ∷ []) in
      (v ≡ 1)
      × (t ≡ msg_type)
      × (2 ≤ n)
      × (n - 2 ≤ max_message_size)
      × (split_exact (n - 2) r ≡ some (payload, rest))
unfolding decode split_exact
decode_meta a b c d v t r h = ground (arith, split_exact-zero r)

frame-put_uint32 :
    (n msg_type : ℕ) (payload : Bytes)
    → (2 + length payload) % 2 ^ 32 ≡ n
    → frame msg_type payload ≡ put_uint32 n ++ protocol_version ∷ msg_type ∷ payload
unfolding frame header put_uint32
frame-put_uint32 n msg_type payload h = rw h

-- The decoder accepts nothing but the frames of the encoder: what it consumed is the frame of the
-- message that it returns, and the payload keeps to the limit.
pub frame-decode :
    (bs : Bytes) (msg_type : ℕ) (payload rest : Bytes)
    → AllBytes bs
    → decode bs ≡ (ok (msg_type, payload), rest)
    → (bs ≡ frame msg_type payload ++ rest) × (length payload ≤ max_message_size)
unfolding frame decode split_exact
frame-decode (a ∷ b ∷ c ∷ d ∷ v ∷ t ∷ r) msg_type payload rest bytes h =
    let n = uint32 (a ∷ b ∷ c ∷ d ∷ []) in
    let (version, same_type, two, small, split) = decode_meta a b c d v t r h in
    let (r_eq, len) = split_exact_sound (n - 2) r payload rest split in
    let word = put_uint32-uint32 a b c d bytes.0 bytes.1.0 bytes.1.1.0 bytes.1.1.1.0 in
    let count : (2 + length payload) % 2 ^ 32 ≡ n = omega arith in
    (rw (version, same_type, r_eq, frame-put_uint32 n msg_type payload count, word), omega arith)
frame-decode _ msg_type payload rest bytes h = ground arith

-- The encoder does not check the limit, and the decoder at the other end refuses the frame as soon
-- as it has its length: every message whose payload is over the limit and whose length fits 32 bits.
pub decode-frame_too_large :
    (msg_type : ℕ) (payload rest : Bytes)
    → max_message_size < length payload
    → length payload + 2 < 2 ^ 32
    → (decode (frame msg_type payload ++ rest)).0 ≡ err message_too_large
unfolding decode frame header split_exact
decode-frame_too_large msg_type payload rest h fits =
    let len : (2 + length payload) % 2 ^ 32 - 2 ≡ length payload = omega arith in
    let word = uint32-put_uint32 ((2 + length payload) % 2 ^ 32) (omega arith) in
    ground (arith, word, len)

Result-cases :
    {A : Type 0} (x : Result A × Bytes)
    → ((a : A) × (x ≡ (ok a, x.1))) ⊎ ((e : CodecError) × (x.0 ≡ err e))
Result-cases (ok a, r) = inl (a, refl)
Result-cases (err e, r) = inr (e, refl)

-- A frame that is cut off anywhere, with at least one byte missing, is an error: never a message.
pub decode-truncated :
    (bs : Bytes) (x : ℕ) (missing : Bytes) (msg_type : ℕ) (payload : Bytes)
    → AllBytes bs
    → length payload ≤ max_message_size
    → frame msg_type payload ≡ bs ++ x ∷ missing
    → (e : CodecError) × ((decode bs).0 ≡ err e)
decode-truncated bs x missing msg_type payload bytes small cut = elim (Result-cases (decode bs)) [
  | inr failed ↦ failed
  | inl ((t, p), e) ↦
      let rest = (decode bs).1 in
      let (bs_eq, len) = frame-decode bs t p rest bytes e in
      let whole : frame msg_type payload ++ [] ≡ frame t p ++ (rest ++ x ∷ missing) =
        append-nil _ ∙ cut ∙ ap (λ b. b ++ x ∷ missing) bs_eq ∙ append_assoc (frame t p) rest _ in
      let left : (ok (msg_type, payload), []) ≡ (ok (t, p), rest ++ x ∷ missing) =
        sym (decode-frame msg_type payload [] small) ∙ ap decode whole ∙ decode-frame t p _ len in
      absurd (append-ne-nil rest x missing (ap (λ r. r.1) left))
]
  where
    append-ne-nil : (r : Bytes) (y : ℕ) (m : Bytes) → [] ≡ r ++ y ∷ m → ⊥
    append-ne-nil [] y m h = cc
    append-ne-nil (a ∷ r) y m h = cc
