-- ===== src/Tunnels/Invariant.antt =====
-- The invariant of the registry of internal/server/tunnel_manager.go.
use htn_tunnel.Prelude.{
  ℕ, ◌≤◌, ◌+◌, ◌≡◌, ◌⊎◌, refl, inl, inr, none, some, List, [], ◌∷◌, Text, text_eq, nat_eq,
  text_beq_iff, lookup, delete, insert, lookup-insert, lookup-delete, Distinct, insert-Distinct,
  delete-Distinct, retain-Distinct, arith, Option-cases, find_entry,
}
use htn_tunnel.Subdomain.{validate_subdomain}
use htn_tunnel.Tunnels.{
  TunnelSession, TunnelManager, register_http, unregister_http, reserve_http, unregister_tcp, reap,
  unexpired, kill_tunnel_by_id, has_id, to_kill, kill_all, expire_anonymous, new_tunnel_manager,
}
use htn_tunnel.Tunnels.Lookups.{held, held-reap, reserve_until}
use htn_tunnel.Tunnels.Calls.{
  commit_tcp, Call, registers, commits, unregisters, reserves, stops, reaps, kills, expires, step,
  run,
}

-- Each HTTP tunnel stands under its own, valid subdomain, and each TCP tunnel under its own port,
-- which lies in the configured range; no subdomain and no port is entered twice.
pub record WellFormed (tm : TunnelManager) : Type 0 where
  pub http_distinct : Distinct tm.http_tunnels
  pub tcp_distinct : Distinct tm.tcp_tunnels
  pub http :
      (k : Text) (s : TunnelSession)
      → held k tm ≡ some s
      → (s.subdomain ≡ k) × (validate_subdomain k ≡ none)
  pub tcp :
      (p : ℕ) (s : TunnelSession)
      → lookup p tm.tcp_tunnels ≡ some s
      → (s.port ≡ p) × (tm.port_min ≤ p) × (p ≤ tm.port_max)

-- What the callers see to: the session carries the name under which it is entered.
abbrev pub Proper : TunnelManager → Call → Type 0
Proper tm (registers now sub s) = s.subdomain ≡ sub
Proper tm (commits port s) = (s.port ≡ port) × (tm.port_min ≤ port) × (port ≤ tm.port_max)
Proper tm _ = Unit {0}

abbrev pub AllProper : TunnelManager → List Call → Type 0
AllProper tm [] = Unit {0}
AllProper tm (c ∷ cs) = Proper tm c × AllProper (step c tm) cs

-- Entries of the second registry are entries of the first.
pub record Shrinks (tm tm' : TunnelManager) : Type 0 where
  pub http : (k : Text) (s : TunnelSession) → held k tm' ≡ some s → held k tm ≡ some s
  pub tcp :
      (p : ℕ) (s : TunnelSession)
      → lookup p tm'.tcp_tunnels ≡ some s
      → lookup p tm.tcp_tunnels ≡ some s
  pub http_distinct : Distinct tm.http_tunnels → Distinct tm'.http_tunnels
  pub tcp_distinct : Distinct tm.tcp_tunnels → Distinct tm'.tcp_tunnels
  pub port_min : tm'.port_min ≡ tm.port_min
  pub port_max : tm'.port_max ≡ tm.port_max

pub Shrinks-WellFormed : {tm tm' : TunnelManager} → Shrinks tm tm' → WellFormed tm → WellFormed tm'
Shrinks-WellFormed r w = record {
  http_distinct = r.http_distinct w.http_distinct;
  tcp_distinct = r.tcp_distinct w.tcp_distinct;
  http = λ k s h. w.http k s (r.http k s h);
  tcp = λ p s h. let q = w.tcp p s (r.tcp p s h) in ground (arith, r.port_min, r.port_max);
}

Shrinks-refl : (tm : TunnelManager) → Shrinks tm tm
Shrinks-refl tm = record {
  http = λ k s h. h;
  tcp = λ p s h. h;
  http_distinct = λ d. d;
  tcp_distinct = λ d. d;
  port_min = refl;
  port_max = refl;
}

Shrinks-trans : {a b c : TunnelManager} → Shrinks a b → Shrinks b c → Shrinks a c
Shrinks-trans p q = record {
  http_distinct = λ d. q.http_distinct (p.http_distinct d);
  tcp_distinct = λ d. q.tcp_distinct (p.tcp_distinct d);
  http = λ k s h. p.http k s (q.http k s h);
  tcp = λ k s h. p.tcp k s (q.tcp k s h);
  port_min = ground arith;
  port_max = ground arith;
}

Shrinks-delete_http :
    (sub : Text) (tm : TunnelManager)
    → Shrinks tm (record tm { http_tunnels = delete sub tm.http_tunnels })
Shrinks-delete_http sub tm = record {
  http_distinct = delete-Distinct sub tm.http_tunnels;
  tcp_distinct = λ d. d;
  http = λ k s h. ground (arith, lookup-delete sub k tm.http_tunnels);
  tcp = λ p s h. h;
  port_min = refl;
  port_max = refl;
}

Shrinks-delete_tcp :
    (port : ℕ) (tm : TunnelManager)
    → Shrinks tm (record tm { tcp_tunnels = delete port tm.tcp_tunnels })
Shrinks-delete_tcp port tm = record {
  http_distinct = λ d. d;
  tcp_distinct = delete-Distinct port tm.tcp_tunnels;
  http = λ k s h. h;
  tcp = λ p s h. ground (arith, lookup-delete port p tm.tcp_tunnels);
  port_min = refl;
  port_max = refl;
}

pub Shrinks-kill : (id : Text) (tm : TunnelManager) → Shrinks tm (kill_tunnel_by_id id tm).1
unfolding kill_tunnel_by_id
Shrinks-kill id tm = elim (Option-cases (find_entry (has_id id) tm.http_tunnels)) [
  | inr ((sub, s), e) ↦ rw (e, kill_tunnel_by_id) (Shrinks-delete_http sub tm)
  | inl e ↦ elim (Option-cases (find_entry (has_id id) tm.tcp_tunnels)) [
    | inr ((port, s), e') ↦ rw (e, e', kill_tunnel_by_id) (Shrinks-delete_tcp port tm)
    | inl e' ↦ rw (e, e', kill_tunnel_by_id) (Shrinks-refl tm)
  ]
]

pub Shrinks-kill_all :
    (ss : List TunnelSession) (tm : TunnelManager) → Shrinks tm (kill_all ss tm).0
unfolding kill_all
Shrinks-kill_all [] tm = Shrinks-refl tm
Shrinks-kill_all (s ∷ ss) tm =
    Shrinks-trans (Shrinks-kill s.id tm) (Shrinks-kill_all ss (kill_tunnel_by_id s.id tm).1)

pub Shrinks-expire : (now ttl : ℕ) (tm : TunnelManager) → Shrinks tm (expire_anonymous now ttl tm).0
unfolding expire_anonymous
Shrinks-expire now ttl tm = Shrinks-kill_all (to_kill now ttl tm) tm

pub Shrinks-unregister_tcp : (port : ℕ) (tm : TunnelManager) → Shrinks tm (unregister_tcp port tm).0
unfolding unregister_tcp
Shrinks-unregister_tcp port tm = elim (Option-cases (lookup port tm.tcp_tunnels)) [
  | inl e ↦ rw (e, unregister_tcp) (Shrinks-delete_tcp port tm)
  | inr (s, e) ↦ rw (e, unregister_tcp) (Shrinks-delete_tcp port tm)
]

pub Shrinks-reap : (now : ℕ) (tm : TunnelManager) → Shrinks tm (reap now tm)
unfolding reap
Shrinks-reap now tm = record {
  http_distinct = retain-Distinct (unexpired now) tm.http_tunnels;
  tcp_distinct = λ d. d;
  http = λ k s h. ground (arith, held-reap now k tm);
  tcp = λ p s h. h;
  port_min = refl;
  port_max = refl;
}

-- A registration changes nothing, or enters the session.
register_cases :
    (now : ℕ) (sub : Text) (s : TunnelSession) (tm : TunnelManager)
    → ((register_http now sub s tm).1 ≡ tm)
      ⊎ ((validate_subdomain sub ≡ none)
          × ((register_http now sub s tm).1 ≡ record tm {
            http_tunnels = insert sub (record s { created_at = now }) tm.http_tunnels;
          }))
unfolding register_http
register_cases now sub s tm = ground arith

register-WellFormed :
    (now : ℕ) (sub : Text) (s : TunnelSession) (tm : TunnelManager)
    → s.subdomain ≡ sub
    → WellFormed tm
    → WellFormed (register_http now sub s tm).1
register-WellFormed now sub s tm proper w = elim (register_cases now sub s tm) [
  | inl same ↦ rw same w
  | inr (valid, stored) ↦ rw stored (record {
    http_distinct =
        insert-Distinct sub (record s { created_at = now }) tm.http_tunnels w.http_distinct;
    tcp_distinct = w.tcp_distinct;
    http = λ k t h. ground (
      arith,
      text_beq_iff sub k,
      lookup-insert sub k (record s { created_at = now }) tm.http_tunnels,
      w.http k t,
    );
    tcp = w.tcp;
  })
]

commit-WellFormed :
    (port : ℕ) (s : TunnelSession) (tm : TunnelManager)
    → Proper tm (commits port s)
    → WellFormed tm
    → WellFormed (commit_tcp port s tm).1
unfolding commit_tcp
commit-WellFormed port s tm proper w = elim (Option-cases (lookup port tm.tcp_tunnels)) [
  | inr (_, taken) ↦ rw (taken, commit_tcp) w
  | inl vacant ↦
      rw (vacant, commit_tcp)
        (record {
          http_distinct = w.http_distinct;
          tcp_distinct = insert-Distinct port s tm.tcp_tunnels w.tcp_distinct;
          http = w.http;
          tcp = λ p t h. ground (arith, lookup-insert port p s tm.tcp_tunnels, w.tcp p t);
        })
]

reserve-WellFormed :
    (now : ℕ) (sub : Text) (ttl : ℕ) (tm : TunnelManager)
    → WellFormed tm
    → WellFormed (reserve_http now sub ttl tm)
unfolding reserve_http
reserve-WellFormed now sub ttl tm w = elim (Option-cases (held sub tm)) [
  | inl absent ↦ rw (absent, reserve_http) w
  | inr (s, found) ↦
      rw (found, reserve_http)
        (record {
          http_distinct =
              insert-Distinct sub (reserve_until (now + ttl) s) tm.http_tunnels w.http_distinct;
          tcp_distinct = w.tcp_distinct;
          http = λ k t h. ground (
            arith,
            text_beq_iff sub k,
            lookup-insert sub k (reserve_until (now + ttl) s) tm.http_tunnels,
            w.http k t,
            w.http sub s,
          );
          tcp = w.tcp;
        })
]

-- Every step keeps the registry well formed, if the session of a registration carries the
-- subdomain, and that of a committed TCP tunnel the port, under which it is entered.
pub step-WellFormed :
    (c : Call) (tm : TunnelManager) → Proper tm c → WellFormed tm → WellFormed (step c tm)
unfolding step
step-WellFormed (registers now sub s) tm p w = register-WellFormed now sub s tm p w
step-WellFormed (commits port s) tm p w = commit-WellFormed port s tm p w
step-WellFormed (unregisters sub) tm p w =
    unfold unregister_http in Shrinks-WellFormed (Shrinks-delete_http sub tm) w
step-WellFormed (reserves now sub ttl) tm p w = reserve-WellFormed now sub ttl tm w
step-WellFormed (stops port) tm p w = Shrinks-WellFormed (Shrinks-unregister_tcp port tm) w
step-WellFormed (reaps now) tm p w = Shrinks-WellFormed (Shrinks-reap now tm) w
step-WellFormed (kills id) tm p w = Shrinks-WellFormed (Shrinks-kill id tm) w
step-WellFormed (expires now ttl) tm p w = Shrinks-WellFormed (Shrinks-expire now ttl tm) w

run-keeps :
    (cs : List Call) (tm : TunnelManager) → AllProper tm cs → WellFormed tm → WellFormed (run cs tm)
unfolding run
run-keeps [] tm p w = w
run-keeps (c ∷ cs) tm p w = run-keeps cs (step c tm) p.1 (step-WellFormed c tm p.0 w)

new-WellFormed : (port_min port_max : ℕ) → WellFormed (new_tunnel_manager port_min port_max)
unfolding lookup
new-WellFormed port_min port_max = record {
  http_distinct = tt;
  tcp_distinct = tt;
  http = λ k s h. ground arith;
  tcp = λ p s h. ground arith;
}

pub run-WellFormed :
    (port_min port_max : ℕ) (cs : List Call)
    → AllProper (new_tunnel_manager port_min port_max) cs
    → WellFormed (run cs (new_tunnel_manager port_min port_max))
run-WellFormed port_min port_max cs p = run-keeps cs _ p (new-WellFormed port_min port_max)
