-- ===== src/Proxy/Delivery.antt =====
-- What a request that the reverse proxy answers leaves in the request log and sends to the client:
-- the last part of serveRequest, and sendRequestLog, of internal/server/http_proxy.go.
use htn_tunnel.Prelude.{
  ℕ, suc, ◌≡◌, ◌≢◌, ◌≤◌, refl, ◌∙◌, Bool, true, false, Option, some, List, [], ◌∷◌, ◌++◌, length,
  take, ltb, length-append, length-take, Text, text_eq, text_beq, leb, zero, last_bytes, ◌<◌, ◌==◌,
  beq_refl, str, arith, Bool-cases, inl, inr, pos, if◌then◌else◌, select, nat_beq,
}
use htn_tunnel.Config.{ServerConfig}
use htn_tunnel.Tunnels.{TunnelSession}
use htn_tunnel.RequestLog.{LogEntry, RequestLog, snapshot, stored, reverse, add}
use htn_tunnel.RequestLog.Buffer.{Sound, newest-add}
use htn_tunnel.Server.{mask_token}
use htn_tunnel.Proxy.Headers.{Request, OutRequest}
use htn_tunnel.Proxy.Writer.{
  LoggingResponseWriter, WriterOp, new_writer, run_writer, bytes_written, size-run_writer,
}
use htn_tunnel.Proxy.{
  Timing, RequestLogMsg, direct, local_target, entry_of, send_request_log, proxy_request,
}

-- The message for the client of a request that the reverse proxy answered with these calls of the
-- writer: it goes to the session's encoder, its path is the request's if that has at most a
-- hundred bytes, and has a hundred bytes otherwise, its status is never zero, and its size is the
-- number of bytes that were written.
pub record Reported (enc : ℕ) (r : Request) (ops : List WriterOp)
    (sent : Option (ℕ × RequestLogMsg)) : Type 0 where
  pub msg : RequestLogMsg
  pub sent_on : sent ≡ some (enc, msg)
  pub short : length msg.path ≤ 100
  pub whole : length r.path ≤ 100 → msg.path ≡ r.path
  pub has_status : msg.status ≢ pos 0
  pub counted : msg.size ≡ bytes_written ops

short_path : (p : Text) → length (if ltb 100 (length p) then take 97 p ++ str "..." else p) ≤ 100
short_path p = elim (Bool-cases (ltb 100 (length p))) [
  | inl long ↦ rw long (omega (arith, length-append (take 97 p) (str "..."), length-take 97 p))
  | inr fits ↦ rw fits (ground arith)
]

status_of_report : (n : ℕ) → pos (if nat_beq n 0 then 502 else n) ≢ pos 0
status_of_report n h = elim (Bool-cases (nat_beq n 0)) [
  | inl unset ↦ ground arith
  | inr other ↦ ground arith
]

append_nonempty : (s : Text) (c : ℕ) (t : Text) → ((s ++ c ∷ t) == []) ≡ false
unfolding text_beq
append_nonempty [] c t = refl
append_nonempty (d ∷ s) c t = refl

mask_nonempty : (t : Text) → (mask_token t == []) ≡ false
unfolding mask_token text_beq
mask_nonempty t = elim (Bool-cases (leb (length t) 8)) [
  | inl short ↦ rw short refl
  | inr long ↦ rw long (append_nonempty (take 4 t) b'.' (str ".." ++ last_bytes 4 t))
]

select_newest :
    (p : LogEntry → Bool) (n : ℕ) (e : LogEntry) (es : List LogEntry)
    → 0 < n
    → p e ≡ true
    → (rest : List LogEntry) × (select p (take n (e ∷ es)) ≡ e ∷ rest)
unfolding select
select_newest p zero e es h own = absurd (omega arith)
select_newest p (suc n) e es h own = (select p (take n es), rw own refl)

newest_of_owner :
    (capacity : ℕ) (e : LogEntry) (rl : RequestLog)
    → Sound capacity rl
    → (e.token == []) ≡ false
    → (rest : List LogEntry) × (snapshot e.token (add capacity e rl) ≡ e ∷ rest)
unfolding snapshot
newest_of_owner capacity e rl sound named =
    let (rest, eq) =
      select_newest (λ x. x.token == e.token) capacity e (reverse (stored rl))
        (omega (arith, sound.inside)) (beq_refl e.token) in
    (rest, rw (named, newest-add capacity e rl sound) eq)

report_of_request :
    (ts : TunnelSession) (r : Request) (w : LoggingResponseWriter) (ms enc : ℕ)
    (ops : List WriterOp)
    → ts.control_enc ≡ some enc
    → w.size ≡ bytes_written ops
    → Reported enc r ops (send_request_log ts r.method r.path w.status ms w.size)
unfolding send_request_log
report_of_request ts r w ms enc ops has_encoder counted = record {
  msg = record {
    method = r.method;
    path = if ltb 100 (length r.path) then take 97 r.path ++ str "..." else r.path;
    status = pos (if nat_beq w.status 0 then 502 else w.status);
    duration = pos ms;
    size = w.size;
  };
  sent_on = simp (has_encoder, send_request_log) refl;
  short = short_path r.path;
  whole = λ fits. ground arith;
  has_status = status_of_report w.status;
  counted = counted;
}

module _ (cfg : ServerConfig) (split : Text → Option Text)
    (reverse_proxy : TunnelSession → OutRequest → List WriterOp) (capacity : ℕ) (time : Timing)
    (r : Request) (ts : TunnelSession) where
  -- The calls of the writer with which the session answers.
  abbrev pub answer : List WriterOp
  answer = reverse_proxy ts (direct split (local_target ts) r)

  -- After a request that the reverse proxy answered, the client of a session with an encoder gets
  -- one report of it: a path of at most a hundred bytes, a status that is not zero, and the number of
  -- bytes written.
  pub proxy_request-Reported :
      (enc : ℕ) (request_log : Option RequestLog)
      → ts.control_enc ≡ some enc
      → Reported enc r answer
          (proxy_request cfg split reverse_proxy capacity time r ts request_log).message
  unfolding proxy_request send_request_log direct local_target
  proxy_request-Reported enc request_log has_encoder =
      report_of_request ts r (run_writer answer new_writer) time.milliseconds enc answer has_encoder
        (size-run_writer answer new_writer ∙ omega arith)

  -- The owner of a tunnel finds a request to it as the newest entry of the log for the mask of the
  -- owner's token, with the tunnel's identifier, the request's path and the size of the answer.
  pub snapshot-proxy_request :
      (rl : RequestLog)
      → Sound capacity rl
      → (rl' : RequestLog) × (rest : List LogEntry) × ((proxy_request cfg split reverse_proxy
            capacity time r ts
            (some rl)).request_log
          ≡ some rl')
        × (snapshot (mask_token ts.token) rl'
            ≡ entry_of time ts r (run_writer answer new_writer) ∷ rest)
  unfolding proxy_request direct local_target entry_of
  snapshot-proxy_request rl sound =
      let e = entry_of time ts r (run_writer answer new_writer) in
      let (rest, eq) = newest_of_owner capacity e rl sound (mask_nonempty ts.token) in
      (add capacity e rl, rest, refl, eq)
