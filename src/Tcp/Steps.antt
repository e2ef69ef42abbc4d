-- ===== src/Tcp/Steps.antt =====
-- What holds at each step of a TCP connection of internal/server/tcp_proxy.go.
use htn_tunnel.Prelude.{
  ℕ, ◌≡◌, refl, ◌∙◌, Bool, true, false, not, ◌||◌, ◌&&◌, List, [], ◌∷◌, ◌++◌, length, take, drop,
  take-append-drop, append_assoc, if◌then◌else◌, Text, text_eq, ◌==◌, any, arith, Bool-cases, inl,
  inr,
}
use htn_tunnel.Tcp.{
  TcpConn, TcpEvent, up_copy, down_copy, up_eof, up_error, down_eof, down_error, up_end, down_end,
  tcp_step, tcp_steps,
}

abbrev pub is_down_error : TcpEvent → Bool
is_down_error (up_copy n) = false
is_down_error (down_copy n) = false
is_down_error up_eof = false
is_down_error up_error = false
is_down_error down_eof = false
is_down_error down_error = true

-- What holds at every step: nothing is lost, doubled or reordered between what was sent on and what is
-- still to come; a counter is set once its goroutine is through, which closed the end that it wrote to.
pub record Relaying (remote client : Text) (c : TcpConn) : Type 0 where
  pub up : c.to_client ++ c.from_remote ≡ remote
  pub down : c.to_remote ++ c.from_client ≡ client
  pub counted_in : c.bytes_in ≡ (if c.up_done then length c.to_client else 0)
  pub counted_out : c.bytes_out ≡ (if c.down_done then length c.to_remote else 0)
  pub stream : c.stream_open ≡ not c.up_done
  pub conn : c.conn_open ≡ not c.down_done

moved :
    (n : ℕ) (sent left whole : Text)
    → sent ++ left ≡ whole
    → (sent ++ take n left) ++ drop n left ≡ whole
moved n sent left whole h =
    append_assoc sent (take n left) (drop n left) ∙ rw (take-append-drop n left) h

up_end-Relaying :
    (remote client : Text) (c : TcpConn)
    → Relaying remote client c
    → c.up_done ≡ false
    → Relaying remote client (up_end c)
unfolding up_end
up_end-Relaying remote client c h running =
    let nothing : c.bytes_in ≡ 0 = h.counted_in ∙ rw running refl in
    record {
      up = h.up;
      down = h.down;
      counted_in = omega (arith, nothing);
      counted_out = h.counted_out;
      stream = refl;
      conn = h.conn;
    }

down_end-Relaying :
    (remote client : Text) (c : TcpConn)
    → Relaying remote client c
    → c.down_done ≡ false
    → Relaying remote client (down_end c)
unfolding down_end
down_end-Relaying remote client c h running =
    let nothing : c.bytes_out ≡ 0 = h.counted_out ∙ rw running refl in
    record {
      up = h.up;
      down = h.down;
      counted_in = h.counted_in;
      counted_out = omega (arith, nothing);
      stream = h.stream;
      conn = refl;
    }

tcp_step-Relaying :
    (remote client : Text) (ev : TcpEvent) (c : TcpConn)
    → Relaying remote client c
    → Relaying remote client (tcp_step ev c)
unfolding tcp_step
tcp_step-Relaying remote client (up_copy n) c h = elim (Bool-cases (c.up_done || not c.conn_open)) [
  | inl still ↦ simp (tcp_step, still) h
  | inr moves ↦
      simp (tcp_step, moves)
        (record {
          up = moved n c.to_client c.from_remote remote h.up;
          down = h.down;
          counted_in = ground (arith, h.counted_in, moves);
          counted_out = h.counted_out;
          stream = h.stream;
          conn = h.conn;
        })
]
tcp_step-Relaying remote client (down_copy n) c h = elim (Bool-cases c.down_done) [
  | inl still ↦ simp (tcp_step, still) h
  | inr moves ↦
      simp (tcp_step, moves)
        (record {
          up = h.up;
          down = moved n c.to_remote c.from_client client h.down;
          counted_in = h.counted_in;
          counted_out = ground (arith, h.counted_out, moves);
          stream = h.stream;
          conn = ground (arith, h.conn, moves);
        })
]
tcp_step-Relaying remote client up_eof c h =
    elim (Bool-cases (c.up_done || (c.conn_open && not (c.from_remote == [])))) [
      | inl still ↦ simp (tcp_step, still) h
      | inr ends ↦ simp (tcp_step, ends) (up_end-Relaying remote client c h (ground (arith, ends)))
    ]
tcp_step-Relaying remote client down_eof c h =
    elim (Bool-cases (c.down_done || not (c.from_client == []))) [
      | inl still ↦ simp (tcp_step, still) h
      | inr ends ↦
          simp (tcp_step, ends) (down_end-Relaying remote client c h (ground (arith, ends)))
    ]
tcp_step-Relaying remote client up_error c h = elim (Bool-cases c.up_done) [
  | inl still ↦ simp (tcp_step, still) h
  | inr ends ↦ simp (tcp_step, ends) (up_end-Relaying remote client c h ends)
]
tcp_step-Relaying remote client down_error c h = elim (Bool-cases c.down_done) [
  | inl still ↦ simp (tcp_step, still) h
  | inr ends ↦ simp (tcp_step, ends) (down_end-Relaying remote client c h ends)
]

pub tcp_steps-Relaying :
    (remote client : Text) (evs : List TcpEvent) (c : TcpConn)
    → Relaying remote client c
    → Relaying remote client (tcp_steps evs c)
unfolding tcp_steps
tcp_steps-Relaying remote client [] c h = h
tcp_steps-Relaying remote client (ev ∷ evs) c h =
    tcp_steps-Relaying remote client evs (tcp_step ev c) (tcp_step-Relaying remote client ev c h)

-- A goroutine that is through without an error has sent all that the client sent.
abbrev pub Emptied : TcpConn → Type 0
Emptied c = not c.down_done || (c.from_client == []) ≡ true

tcp_step-Emptied :
    (ev : TcpEvent) (c : TcpConn) → is_down_error ev ≡ false → Emptied c → Emptied (tcp_step ev c)
unfolding tcp_step up_end down_end
tcp_step-Emptied (up_copy n) c fine h = ground arith
tcp_step-Emptied (down_copy n) c fine h = ground arith
tcp_step-Emptied up_eof c fine h = ground arith
tcp_step-Emptied up_error c fine h = ground arith
tcp_step-Emptied down_eof c fine h = ground arith
tcp_step-Emptied down_error c fine h = absurd (ground (arith, fine))

pub tcp_steps-Emptied :
    (evs : List TcpEvent) (c : TcpConn)
    → any is_down_error evs ≡ false
    → Emptied c
    → Emptied (tcp_steps evs c)
unfolding tcp_steps any
tcp_steps-Emptied [] c fine h = h
tcp_steps-Emptied (ev ∷ evs) c fine h =
    tcp_steps-Emptied evs (tcp_step ev c) (ground (arith, fine))
      (tcp_step-Emptied ev c (ground (arith, fine)) h)
