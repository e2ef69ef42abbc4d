-- ===== src/Tunnels/Statistics.antt =====
-- Stats and ListTunnels of internal/server/tunnel_manager.go agree.
use htn_tunnel.Prelude.{
  ℕ, ◌+◌, ◌≡◌, not, List, [], ◌∷◌, ◌++◌, length, length-append, select, values, arith, Bool-cases,
  inl, inr,
}
use htn_tunnel.Tunnels.{
  TunnelSession, TunnelManager, DashboardStats, count_http, count_tcp, stats, list_tunnels,
}

-- The sum of a field over a list of sessions.
unfoldable pub total : (TunnelSession → ℕ) → List TunnelSession → ℕ
total f [] = 0
total f (t ∷ ts) = f t + total f ts

total-append :
    (f : TunnelSession → ℕ) (xs ys : List TunnelSession)
    → total f (xs ++ ys) ≡ total f xs + total f ys
unfolding total
total-append f [] ys = omega arith
total-append f (x ∷ xs) ys = omega (arith, total-append f xs ys)

abbrev active : List TunnelSession → List TunnelSession
active = select (λ s. not s.reserved)

count_http_lem :
    (ts : List TunnelSession) (d : DashboardStats)
    → count_http ts d ≡ record d {
      active_http = d.active_http + length (active ts);
      bytes_in = d.bytes_in + total (λ t. t.bytes_in) (active ts);
      bytes_out = d.bytes_out + total (λ t. t.bytes_out) (active ts);
    }
unfolding count_http total select
count_http_lem [] d = ground arith
count_http_lem (t ∷ ts) d =
    let seen : DashboardStats = record d {
      active_http = d.active_http + 1;
      bytes_in = d.bytes_in + t.bytes_in;
      bytes_out = d.bytes_out + t.bytes_out;
    } in
    elim (Bool-cases t.reserved) [
      | inl held ↦ simp held (count_http_lem ts d)
      | inr live ↦ simp live (ground (arith, count_http_lem ts seen))
    ]

count_tcp_lem :
    (ts : List TunnelSession) (d : DashboardStats)
    → count_tcp ts d ≡ record d {
      active_tcp = d.active_tcp + length ts;
      bytes_in = d.bytes_in + total (λ t. t.bytes_in) ts;
      bytes_out = d.bytes_out + total (λ t. t.bytes_out) ts;
    }
unfolding count_tcp total
count_tcp_lem [] d = ground arith
count_tcp_lem (t ∷ ts) d = ground (
  arith,
  count_tcp_lem ts (record d {
    active_tcp = d.active_tcp + 1;
    bytes_in = d.bytes_in + t.bytes_in;
    bytes_out = d.bytes_out + t.bytes_out;
  }),
)

-- The counts and the byte totals of Stats are those of the tunnels that ListTunnels returns: the
-- HTTP tunnels that are not reserved, and all TCP tunnels.
pub stats-list_tunnels :
    (tm : TunnelManager)
    → let s = stats tm in
      let ts = list_tunnels tm in
      (s.total_tunnels ≡ length ts)
      × (s.active_tcp ≡ length (values tm.tcp_tunnels))
      × (s.bytes_in ≡ total (λ t. t.bytes_in) ts)
      × (s.bytes_out ≡ total (λ t. t.bytes_out) ts)
unfolding stats list_tunnels
stats-list_tunnels tm =
    let http = active (values tm.http_tunnels) in
    let tcp = values tm.tcp_tunnels in
    let zeros : DashboardStats = record {
      active_http = 0;
      active_tcp = 0;
      total_tunnels = 0;
      bytes_in = 0;
      bytes_out = 0;
    } in
    let first = count_http_lem (values tm.http_tunnels) zeros in
    let second = count_tcp_lem tcp (count_http (values tm.http_tunnels) zeros) in
    (
      ground (arith, first, second, length-append http tcp),
      ground (arith, first, second),
      ground (arith, first, second, total-append (λ t. t.bytes_in) http tcp),
      ground (arith, first, second, total-append (λ t. t.bytes_out) http tcp),
    )
