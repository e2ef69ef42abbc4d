-- ===== src/Tunnels/Calls.antt =====
-- The steps that goroutines take on the registry of internal/server/tunnel_manager.go: each method
-- that holds the lock throughout, and the locked end of RegisterTCP.
use htn_tunnel.Prelude.{
  ℕ, Bool, true, false, none, some, List, [], ◌∷◌, insert, lookup, nat_eq, Text,
}
use htn_tunnel.Tunnels.{
  TunnelSession, TunnelManager, register_http, unregister_http, reserve_http, unregister_tcp, reap,
  kill_tunnel_by_id, expire_anonymous,
}

-- The end of an attempt of RegisterTCP: the check again under the lock, and the entry.
unfoldable pub commit_tcp : ℕ → TunnelSession → TunnelManager → Bool × TunnelManager
commit_tcp port s tm = elim (lookup port tm.tcp_tunnels) [
  | some _ ↦ (false, tm)
  | none ↦ (true, record tm { tcp_tunnels = insert port s tm.tcp_tunnels })
]

pub data Call : Type 0 where
  -- the clock, the subdomain and the session
  registers : ℕ → Text → TunnelSession → Call
  commits : ℕ → TunnelSession → Call
  unregisters : Text → Call
  -- the clock, the subdomain and the time to live
  reserves : ℕ → Text → ℕ → Call
  stops : ℕ → Call
  reaps : ℕ → Call
  kills : Text → Call
  expires : ℕ → ℕ → Call

unfoldable pub step : Call → TunnelManager → TunnelManager
step (registers now sub s) tm = (register_http now sub s tm).1
step (commits port s) tm = (commit_tcp port s tm).1
step (unregisters sub) tm = unregister_http sub tm
step (reserves now sub ttl) tm = reserve_http now sub ttl tm
step (stops port) tm = (unregister_tcp port tm).0
step (reaps now) tm = reap now tm
step (kills id) tm = (kill_tunnel_by_id id tm).1
step (expires now ttl) tm = (expire_anonymous now ttl tm).0

unfoldable pub run : List Call → TunnelManager → TunnelManager
run [] tm = tm
run (c ∷ cs) tm = run cs (step c tm)
