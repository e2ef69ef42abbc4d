-- ===== src/Dashboard/Logs.antt =====
-- The log that a user sees over internal/dashboard/handler.go, from the request that
-- internal/server/http_proxy.go answered.
use htn_tunnel.Prelude.{
  ◌≡◌, ◌≤◌, refl, ◌∙◌, ap, ◌&&◌, leb→le, Option, some, List, [], ◌∷◌, length, take, length-take,
  leb, Text, text_eq, text_beq, arith, Bool-cases, Option-cases, inl, inr, ℕ, ℤ, pos, negsuc,
  le_int, lt_int, if◌then◌else◌, suc, zero,
}
use htn_tunnel.Config.{ServerConfig}
use htn_tunnel.Tunnels.{TunnelSession}
use htn_tunnel.RequestLog.{LogEntry, RequestLog, snapshot, recent_entries}
use htn_tunnel.RequestLog.Buffer.{Sound}
use htn_tunnel.Server.{mask_token}
use htn_tunnel.Proxy.Headers.{Request, OutRequest}
use htn_tunnel.Proxy.Writer.{WriterOp, new_writer, run_writer}
use htn_tunnel.Proxy.{Timing, entry_of, proxy_request}
use htn_tunnel.Proxy.Delivery.{answer, snapshot-proxy_request}
use htn_tunnel.Dashboard.Shapes.{dashboard_mask_key}
use htn_tunnel.Dashboard.{Site, Settings, Outside, logs_body, user_logs, query_limit, handle_user}

-- The dashboard's mask of a key is the server's mask of a token, by which the log is kept.
pub dashboard_mask_key_eq : (key : Text) → dashboard_mask_key key ≡ mask_token key
unfolding dashboard_mask_key mask_token
dashboard_mask_key_eq key = refl

-- The number that a query's limit stands for is from one to the maximum.
InRange : ℕ → ℤ → Type 0
InRange maximum limit = (n : ℕ) × (limit ≡ pos (suc n)) × (suc n ≤ maximum)

checked_limit :
    (d maximum : ℕ) (n : ℤ)
    → suc d ≤ maximum
    → InRange maximum (if lt_int (pos 0) n && le_int n (pos maximum) then n else pos (suc d))
unfolding InRange
checked_limit d maximum (pos zero) h = (d, refl, h)
checked_limit d maximum (pos (suc n)) h = elim (Bool-cases (leb (suc n) maximum)) [
  | inl fits ↦ rw fits (n, ground arith, leb→le (suc n) maximum fits)
  | inr large ↦ rw large (d, ground arith, h)
]
checked_limit d maximum (negsuc n) h = (d, refl, h)

query_limit-InRange :
    (atoi : Text → Option ℤ) (d maximum : ℕ) (l : Text)
    → suc d ≤ maximum
    → InRange maximum (query_limit atoi (pos (suc d)) (pos maximum) l)
unfolding query_limit InRange
query_limit-InRange atoi d maximum l h = elim (Bool-cases (text_beq l [])) [
  | inl empty ↦ rw (query_limit, empty) (d, refl, h)
  | inr given ↦ elim (Option-cases (atoi l)) [
    | inl bad ↦ rw (query_limit, given, bad) (d, refl, h)
    | inr (n, found) ↦ rw (query_limit, given, found) (checked_limit d maximum n h)
  ]
]

recent_entries-newest :
    (n : ℕ) (token : Text) (e : LogEntry) (rest : List LogEntry) (rl : RequestLog)
    → snapshot token rl ≡ e ∷ rest
    → (older : List LogEntry) × (recent_entries (pos (suc n)) token rl ≡ e ∷ older)
      × (length (e ∷ older) ≤ suc n)
unfolding recent_entries
recent_entries-newest n token e rest rl first =
    elim (Bool-cases (leb (length (e ∷ rest)) (suc n))) [
      | inl fits ↦ (rest, simp (recent_entries, first, fits) (ground arith), leb→le _ _ fits)
      | inr large ↦ (
        take n rest,
        simp (recent_entries, first, large) (ground arith),
        omega (arith, length-take n rest),
      )
    ]

logs_of_owner :
    (settings : Settings) (w : Outside) (token limit : Text) (s : Site) (rl : RequestLog)
    (e : LogEntry) (rest : List LogEntry)
    → snapshot (mask_token token) rl ≡ e ∷ rest
    → (older : List LogEntry) × ((handle_user settings w token
          (user_logs limit)
          (record s { request_log = rl })).0
        ≡ record { status = 200; body = logs_body (e ∷ older) })
      × (suc (length older) ≤ 500)
unfolding handle_user InRange
logs_of_owner settings w token limit s rl e rest first =
    let (n, limit_eq, bound) = query_limit-InRange w.atoi 99 500 limit (omega arith) in
    let (older, found, few) =
      recent_entries-newest n (dashboard_mask_key token) e rest rl
        (rw (dashboard_mask_key_eq token) first) in
    (
      older,
      ap
            (λ k. record {
              status = 200;
              body = logs_body (recent_entries k (dashboard_mask_key token) rl);
            })
            limit_eq
          ∙ ap (λ es. record { status = 200; body = logs_body es }) found,
      omega (arith, few, bound),
    )

-- After a request that the reverse proxy answered from a tunnel, the owner of the tunnel's token
-- who asks for the log, with whatever limit, gets at most 500 entries, and the first of them is
-- that request.
pub handle_user-proxy_request :
    (cfg : ServerConfig) (split : Text → Option Text)
    (reverse_proxy : TunnelSession → OutRequest → List WriterOp) (capacity : ℕ) (time : Timing)
    (r : Request) (ts : TunnelSession) (settings : Settings) (w : Outside) (limit : Text) (s : Site)
    → Sound capacity s.request_log
    → (rl : RequestLog) × (older : List LogEntry) × ((proxy_request cfg split reverse_proxy capacity
          time r ts
          (some s.request_log)).request_log
        ≡ some rl)
      × ((handle_user settings w ts.token (user_logs limit) (record s { request_log = rl })).0
          ≡ record {
            status = 200;
            body = logs_body (
                entry_of time ts r
                  (run_writer (answer cfg split reverse_proxy capacity time r ts) new_writer)
                ∷ older);
          })
      × (suc (length older) ≤ 500)
handle_user-proxy_request cfg split reverse_proxy capacity time r ts settings w limit s sound =
    let (rl, rest, logged, first) =
      snapshot-proxy_request cfg split reverse_proxy capacity time r ts s.request_log sound in
    let (older, shown, few) =
      logs_of_owner settings w ts.token limit s rl
        (entry_of time ts r
          (run_writer (answer cfg split reverse_proxy capacity time r ts) new_writer))
        rest first in
    (rl, older, logged, shown, few)
