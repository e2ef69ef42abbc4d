-- ===== src/Tcp/Relayed.antt =====
-- What becomes of the bytes of a TCP connection, under any order of the steps of its goroutines.
use htn_tunnel.Prelude.{
  ◌≡◌, refl, sym, ap, ◌∙◌, Bool, true, false, not, ◌||◌, ◌&&◌, Option, none, some, List, [], ◌∷◌,
  ◌++◌, length, append-nil, Text, text_eq, text_beq_iff, ◌==◌, any, arith, Bool-cases, inl, inr,
}
use htn_tunnel.Tcp.{
  TcpConn, TcpEvent, up_error, down_error, up_end, down_end, tcp_step, tcp_steps, opened, returned,
  handle_tcp_conn,
}
use htn_tunnel.Tcp.Steps.{Relaying, is_down_error, tcp_steps-Relaying, tcp_steps-Emptied}

-- A connection that is over: both ends are closed, what was sent on is a front part of what was to be
-- sent, in both directions, and it is counted. What the client sent arrived whole if no copying to the
-- remote end failed.
pub record Finished (remote client : Text) (opens : Bool) (evs : List TcpEvent) (c : TcpConn)
    : Type 0 where
  conn : c.conn_open ≡ false
  stream : c.stream_open ≡ false
  up : c.to_client ++ c.from_remote ≡ remote
  down : c.to_remote ++ c.from_client ≡ client
  counted_in : c.bytes_in ≡ length c.to_client
  counted_out : c.bytes_out ≡ length c.to_remote
  whole : not opens || any is_down_error evs || (c.to_remote == client) ≡ true

-- The end of a connection, or its state when both goroutines failed next.
pub data TcpOutcome (remote client : Text) (opens : Bool) (evs : List TcpEvent)
    : Option TcpConn → Type 0 where
  over :
      (c : TcpConn)
      → Finished remote client opens evs c
      → TcpOutcome remote client opens evs (some c)
  going_on :
      (c : TcpConn)
      → handle_tcp_conn opens remote client (evs ++ up_error ∷ down_error ∷ []) ≡ some c
      → TcpOutcome remote client opens evs none

tcp_steps-append :
    (evs evs' : List TcpEvent) (c : TcpConn)
    → tcp_steps (evs ++ evs') c ≡ tcp_steps evs' (tcp_steps evs c)
unfolding tcp_steps
tcp_steps-append [] evs' c = refl
tcp_steps-append (ev ∷ evs) evs' c = tcp_steps-append evs evs' (tcp_step ev c)

-- Once both goroutines failed, the call returns.
returned-errors :
    (c : TcpConn) → (c' : TcpConn) × (returned (tcp_steps (up_error ∷ down_error ∷ []) c) ≡ some c')
unfolding returned tcp_steps tcp_step up_end down_end
returned-errors c = elim (Bool-cases c.up_done) [
  | inl up ↦ elim (Bool-cases c.down_done) [
    | inl down ↦ simp (up, down, tcp_step, returned) (_, refl)
    | inr down ↦ simp (up, down, tcp_step, returned) (_, refl)
  ]
  | inr up ↦ elim (Bool-cases c.down_done) [
    | inl down ↦ simp (up, down, tcp_step, returned) (_, refl)
    | inr down ↦ simp (up, down, tcp_step, returned) (_, refl)
  ]
]

returned-Finished :
    (remote client : Text) (evs : List TcpEvent) (c : TcpConn)
    → Relaying remote client c
    → not c.down_done || (c.from_client == []) || any is_down_error evs ≡ true
    → c.up_done && c.down_done ≡ true
    → Finished remote client true evs (record c { conn_open = false; stream_open = false })
returned-Finished remote client evs c h emptied done = record {
  conn = refl;
  stream = refl;
  up = h.up;
  down = h.down;
  counted_in = ground (arith, h.counted_in, done);
  counted_out = ground (arith, h.counted_out, done);
  whole = elim (Bool-cases (any is_down_error evs)) [
    | inl broken ↦ ground (arith, broken)
    | inr fine ↦
        let empty : c.from_client ≡ [] =
          (text_beq_iff c.from_client []).0 (ground (arith, emptied, fine, done)) in
        let all : c.to_remote ≡ client =
          sym (append-nil c.to_remote) ∙ ap (λ x. c.to_remote ++ x) (sym empty) ∙ h.down in
        ground (arith, (text_beq_iff c.to_remote client).1 all)
  ];
}

opened-Relaying : (remote client : Text) → Relaying remote client (opened remote client)
unfolding opened
opened-Relaying remote client = record {
  up = refl;
  down = refl;
  counted_in = refl;
  counted_out = refl;
  stream = refl;
  conn = refl;
}

opened-emptied :
    (remote client : Text) (evs : List TcpEvent)
    → let c = tcp_steps evs (opened remote client) in
      not c.down_done || (c.from_client == []) || any is_down_error evs ≡ true
unfolding opened
opened-emptied remote client evs = elim (Bool-cases (any is_down_error evs)) [
  | inl broken ↦ ground (arith, broken)
  | inr fine ↦ ground (arith, tcp_steps-Emptied evs (opened remote client) fine refl)
]

-- handleTCPConn, whatever the order of the steps of its goroutines: when it is over, both ends are
-- closed and each direction delivered a front part of its bytes, in order, which the session counts;
-- the client's bytes all arrived if no copying to the remote end failed. If it is not over, it is
-- once the two copyings end.
pub handle_tcp_conn-TcpOutcome :
    (opens : Bool) (remote client : Text) (evs : List TcpEvent)
    → TcpOutcome remote client opens evs (handle_tcp_conn opens remote client evs)
unfolding handle_tcp_conn opened returned
handle_tcp_conn-TcpOutcome false remote client evs = over _ (record {
  conn = refl;
  stream = refl;
  up = refl;
  down = refl;
  counted_in = refl;
  counted_out = refl;
  whole = refl;
})
handle_tcp_conn-TcpOutcome true remote client evs =
    let start = opened remote client in
    let c = tcp_steps evs start in
    let h = tcp_steps-Relaying remote client evs start (opened-Relaying remote client) in
    elim (Bool-cases (c.up_done && c.down_done)) [
      | inl done ↦
          simp (handle_tcp_conn, returned, done)
            (over _
              (returned-Finished remote client evs c h (opened-emptied remote client evs) done))
      | inr running ↦
          let (c', ends) = returned-errors c in
          simp (handle_tcp_conn, returned, running)
            (going_on c'
              (ap returned (tcp_steps-append evs (up_error ∷ down_error ∷ []) start) ∙ ends))
    ]
