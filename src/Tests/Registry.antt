-- ===== src/Tests/Registry.antt =====
-- Runs of the tunnel registry of internal/server/tunnel_manager.go.
use htn_tunnel.Prelude.{
  ℕ, ◌≡◌, ◌≢◌, ◌↔◌, refl, subst, false, Option, none, some, List, [], ◌∷◌, Text, str, arith,
  text_eq, text_beq, text_beq_iff, nat_eq, lookup, insert, pos,
}
use htn_tunnel.Subdomain.{
  validate_subdomain, subdomain_re, is_alnum, re_rest, is_label_char, is_reserved,
}
use htn_tunnel.Tunnels.{
  TunnelSession, TunnelManager, already_in_use, register_http, reserve_http, new_tunnel_manager,
  lookup_http, kill_tunnel_by_id, expire_anonymous,
}
use htn_tunnel.Tunnels.Calls.{Call, registers, reaps, step, run}
use htn_tunnel.Tunnels.Lookups.{CanTake, register_http_iff}
use htn_tunnel.Tunnels.Invariant.{WellFormed, run-WellFormed}
use htn_tunnel.Tunnels.Reservations.{reserve_http_reclaim, reserve_http_excludes}
use htn_tunnel.Tunnels.Allocation.{register_tcp, allocated, alone, Lucky, register_tcp_succeeds}
use htn_tunnel.Tunnels.Kills.{UniqueIds, Killed, Expired, kill-Killed, expire-Expired}

-- An HTTP tunnel named after its subdomain.
abbrev tunnel : Text → Text → TunnelSession
tunnel token sub = record {
  id = sub;
  token = token;
  kind = str "http";
  subdomain = sub;
  port = 0;
  local_port = pos 3000;
  session = some 1;
  listener = none;
  control_enc = none;
  created_at = 0;
  bytes_in = 0;
  bytes_out = 0;
  reserved = false;
  reserved_until = 0;
}

abbrev shop : Text
shop = str "shop"

abbrev blog : Text
blog = str "blog"

abbrev alice : Text
alice = str "alice"

abbrev bob : Text
bob = str "bob"

abbrev start : TunnelManager
start = new_tunnel_manager 10000 10009

abbrev opening : List Call
opening = registers 5 shop (tunnel alice shop) ∷ []

-- The registry with one tunnel.
abbrev opened : TunnelManager
opened = record start { http_tunnels = (shop, record (tunnel alice shop) { created_at = 5 }) ∷ [] }

register_http_iff_example :
    ((register_http 5 shop (tunnel alice shop) start).0 ≡ none) ↔ CanTake 5 shop alice start
register_http_iff_example = register_http_iff 5 shop (tunnel alice shop) start

shop_found : lookup_http shop opened ≡ some (record (tunnel alice shop) { created_at = 5 })
unfolding lookup_http lookup text_beq
shop_found = refl

valid : validate_subdomain shop ≡ none
unfolding validate_subdomain subdomain_re is_alnum re_rest is_label_char is_reserved text_beq
valid = refl

bob-alice : bob ≢ alice
bob-alice e = ground (arith, e)

opened-run : run opening start ≡ opened
unfolding run step register_http validate_subdomain subdomain_re is_alnum re_rest is_label_char
    is_reserved text_beq lookup insert
opened-run = refl

opened-WellFormed : WellFormed opened
opened-WellFormed = subst WellFormed opened-run (run-WellFormed 10000 10009 opening (refl, tt))

opened-UniqueIds : UniqueIds opened
unfolding lookup
opened-UniqueIds = record {
  http = λ k k' s s' h h' same. ground (arith, text_beq_iff shop k, text_beq_iff shop k');
  tcp = λ p p' s s' h h' same. ground arith;
  apart = λ k p s t h h' same. ground arith;
}

abbrev rivals : List Call
rivals = registers 7 blog (tunnel bob blog) ∷ reaps 20 ∷ []

reserve_http_reclaim_example :
    (register_http 50 shop (tunnel alice shop) (run rivals (reserve_http 10 shop 100 opened))).0
    ≡ none
reserve_http_reclaim_example =
    reserve_http_reclaim shop (record (tunnel alice shop) { created_at = 5 }) (tunnel alice shop)
      opened 10 100 50 rivals valid shop_found (bob-alice, (omega arith, tt)) refl (omega arith)

reserve_http_excludes_example :
    let tm' = run rivals (reserve_http 10 shop 100 opened) in
    ((register_http 50 shop (tunnel bob shop) tm').0 ≡ some already_in_use)
    × (lookup_http shop tm' ≡ none)
reserve_http_excludes_example =
    reserve_http_excludes shop (record (tunnel alice shop) { created_at = 5 }) (tunnel bob shop)
      opened 10 100 50 rivals valid shop_found (bob-alice, (omega arith, tt)) bob-alice

-- Every listener is granted under the number of its attempt.
abbrev grant : ℕ → ℕ → Option ℕ
grant i port = some i

lucky : Lucky (λ i. i) grant (λ i. i) start 0
unfolding lookup
lucky = (refl, λ e. ground arith)

register_tcp_succeeds_example :
    (port : ℕ) × ((register_tcp (λ i. i) grant (λ i. i) alone (tunnel alice shop) start).0
      ≡ allocated port)
register_tcp_succeeds_example =
    register_tcp_succeeds (λ i. i) grant (λ i. i) 0 (tunnel alice shop) start (omega arith) lucky
      (omega arith)

kill-Killed_example : Killed shop opened (kill_tunnel_by_id shop opened).1
kill-Killed_example = kill-Killed shop opened opened-WellFormed opened-UniqueIds

expire-Expired_example : Expired 100 60 opened (expire_anonymous 100 60 opened).0
expire-Expired_example = expire-Expired 100 60 opened opened-WellFormed opened-UniqueIds
