-- ===== src/Tunnels.antt =====
-- TunnelManager of internal/server/tunnel_manager.go: the registry of active and reserved tunnels.
-- Each method that locks the registry is one step on its state. The clock is an argument, in
-- nanoseconds. Sessions, listeners and encoders are known by numbers; closing one is an effect that
-- the method returns. A range over a map meets its entries in the order of the list.
pub mod Lookups
pub mod Calls
pub mod Invariant
pub mod Reservations
pub mod Allocation
pub mod Kills
pub mod Statistics
use htn_tunnel.Prelude.{
  ℕ, zero, suc, ◌+◌, ◌-◌, ◌%◌, Bool, true, false, not, ◌&&◌, Option, none, some, List, [], ◌∷◌,
  ◌++◌, length, ltb, if◌then◌else◌, Text, text_eq, nat_eq, str, ◌==◌, Map, lookup, insert, delete,
  retain, values, find_entry, select, has_prefix, ℤ,
}
use htn_tunnel.Subdomain.{LabelError, validate_subdomain}

pub record TunnelSession : Type 0 where
  pub id : Text
  pub token : Text
  -- the field Type
  pub kind : Text
  pub subdomain : Text
  pub port : ℕ
  pub local_port : ℤ
  pub session : Option ℕ
  pub listener : Option ℕ
  pub control_enc : Option ℕ
  pub created_at : ℕ
  pub bytes_in : ℕ
  pub bytes_out : ℕ
  pub reserved : Bool
  pub reserved_until : ℕ

pub record TunnelManager : Type 0 where
  pub http_tunnels : Map Text TunnelSession
  pub tcp_tunnels : Map ℕ TunnelSession
  pub port_min : ℕ
  pub port_max : ℕ

pub data RegisterError : Type 0 where
  invalid : LabelError → RegisterError
  already_in_use : RegisterError

pub data Effect : Type 0 where
  close_session close_listener : ℕ → Effect

-- NewTunnelManager
abbrev pub new_tunnel_manager : ℕ → ℕ → TunnelManager
new_tunnel_manager port_min port_max = record {
  http_tunnels = [];
  tcp_tunnels = [];
  port_min = port_min;
  port_max = port_max;
}

-- The session is entered under the subdomain.
store_http : ℕ → Text → TunnelSession → TunnelManager → TunnelManager
store_http now subdomain s tm = record tm {
  http_tunnels = insert subdomain (record s { created_at = now }) tm.http_tunnels;
}

-- RegisterHTTP: `none` is the nil error.
unfoldable pub register_http :
    ℕ → Text → TunnelSession → TunnelManager → Option RegisterError × TunnelManager
unfolding store_http
register_http now subdomain s tm = elim (validate_subdomain subdomain) [
  | some e ↦ (some (invalid e), tm)
  | none ↦ elim (lookup subdomain tm.http_tunnels) [
    | some existing ↦
        if existing.reserved && existing.token == s.token && ltb now existing.reserved_until
        then (none, store_http now subdomain s tm)
        else (some already_in_use, tm)
    | none ↦ (none, store_http now subdomain s tm)
  ]
]

-- UnregisterHTTP
unfoldable pub unregister_http : Text → TunnelManager → TunnelManager
unregister_http subdomain tm = record tm { http_tunnels = delete subdomain tm.http_tunnels }

-- ReserveHTTP
unfoldable pub reserve_http : ℕ → Text → ℕ → TunnelManager → TunnelManager
reserve_http now subdomain ttl tm = elim (lookup subdomain tm.http_tunnels) [
  | none ↦ tm
  | some s ↦ record tm {
    http_tunnels =
        insert subdomain (record s { reserved = true; reserved_until = now + ttl }) tm.http_tunnels;
  }
]

unfoldable pub closing : (ℕ → Effect) → Option ℕ → List Effect
closing close none = []
closing close (some n) = close n ∷ []

-- UnregisterTCP
unfoldable pub unregister_tcp : ℕ → TunnelManager → TunnelManager × List Effect
unfolding closing
unregister_tcp port tm =
    let tm' = record tm { tcp_tunnels = delete port tm.tcp_tunnels } in
    elim (lookup port tm.tcp_tunnels) [
      | none ↦ (tm', [])
      | some s ↦ (tm', closing close_listener s.listener)
    ]

-- LookupHTTP
unfoldable pub lookup_http : Text → TunnelManager → Option TunnelSession
lookup_http subdomain tm = elim (lookup subdomain tm.http_tunnels) [
  | none ↦ none
  | some s ↦ if s.reserved then none else some s
]

-- LookupTCP
unfoldable pub lookup_tcp : ℕ → TunnelManager → Option TunnelSession
lookup_tcp port tm = lookup port tm.tcp_tunnels

-- s.Session == ySession, for a session that is not nil
unfoldable pub owned_by : ℕ → TunnelSession → Bool
owned_by y s = elim s.session [ none ↦ false | some x ↦ x == y ]

-- SessionTunnels
unfoldable pub session_tunnels : ℕ → TunnelManager → List TunnelSession
unfolding owned_by
session_tunnels y tm =
    select (owned_by y) (values tm.http_tunnels) ++ select (owned_by y) (values tm.tcp_tunnels)

-- What the reaper keeps: all but the reservations that have run out.
abbrev pub unexpired : ℕ → Text → TunnelSession → Bool
unexpired now _ s = not (s.reserved && ltb s.reserved_until now)

-- reservationReaper, one tick
unfoldable pub reap : ℕ → TunnelManager → TunnelManager
reap now tm = record tm { http_tunnels = retain (unexpired now) tm.http_tunnels }

-- ListTunnels
unfoldable pub list_tunnels : TunnelManager → List TunnelSession
list_tunnels tm = select (λ s. not s.reserved) (values tm.http_tunnels) ++ values tm.tcp_tunnels

-- TunnelsForAnon
unfoldable pub tunnels_for_anon : Text → TunnelManager → List TunnelSession
tunnels_for_anon token tm =
    select (λ s. s.token == token && not s.reserved) (values tm.http_tunnels)
    ++ select (λ s. s.token == token) (values tm.tcp_tunnels)

-- The sessions of TunnelsForToken, before they are shown.
unfoldable pub tunnels_for_token : Text → TunnelManager → List TunnelSession
unfolding list_tunnels
tunnels_for_token token tm = select (λ s. s.token == token) (list_tunnels tm)

pub record DashboardStats : Type 0 where
  pub active_http : ℕ
  pub active_tcp : ℕ
  pub total_tunnels : ℕ
  pub bytes_in : ℕ
  pub bytes_out : ℕ

unfoldable pub count_http : List TunnelSession → DashboardStats → DashboardStats
count_http [] d = d
count_http (t ∷ ts) d = count_http ts (
    if not t.reserved
    then record d {
      active_http = d.active_http + 1;
      bytes_in = d.bytes_in + t.bytes_in;
      bytes_out = d.bytes_out + t.bytes_out;
    }
    else d)

unfoldable pub count_tcp : List TunnelSession → DashboardStats → DashboardStats
count_tcp [] d = d
count_tcp (t ∷ ts) d = count_tcp ts (record d {
  active_tcp = d.active_tcp + 1;
  bytes_in = d.bytes_in + t.bytes_in;
  bytes_out = d.bytes_out + t.bytes_out;
})

-- Stats
unfoldable pub stats : TunnelManager → DashboardStats
unfolding count_http count_tcp
stats tm =
    let zeros : DashboardStats = record {
      active_http = 0;
      active_tcp = 0;
      total_tunnels = 0;
      bytes_in = 0;
      bytes_out = 0;
    } in
    let s = count_tcp (values tm.tcp_tunnels) (count_http (values tm.http_tunnels) zeros) in
    record s { total_tunnels = s.active_http + s.active_tcp }

abbrev pub anon_prefix : Text
anon_prefix = str "anon:"

-- s.ID == id
unfoldable pub has_id : Text → TunnelSession → Bool
has_id id s = s.id == id

-- KillTunnelByID
unfoldable pub kill_tunnel_by_id : Text → TunnelManager → Bool × TunnelManager × List Effect
unfolding closing has_id
kill_tunnel_by_id id tm = elim (find_entry (has_id id) tm.http_tunnels) [
  | some (sub, s) ↦ (
    true,
    record tm { http_tunnels = delete sub tm.http_tunnels },
    closing close_session s.session,
  )
  | none ↦ elim (find_entry (has_id id) tm.tcp_tunnels) [
    | some (port, s) ↦ (
      true,
      record tm { tcp_tunnels = delete port tm.tcp_tunnels },
      closing close_listener s.listener ++ closing close_session s.session,
    )
    | none ↦ (false, tm, [])
  ]
]

-- An anonymous tunnel that is older than the limit.
unfoldable pub too_old : ℕ → ℕ → TunnelSession → Bool
too_old now ttl s = has_prefix s.token anon_prefix && ltb (s.created_at + ttl) now

unfoldable pub kill_all : List TunnelSession → TunnelManager → TunnelManager × List Effect
kill_all [] tm = (tm, [])
kill_all (s ∷ ss) tm =
    let (_, tm₁, closed) = kill_tunnel_by_id s.id tm in
    let (tm₂, closed') = kill_all ss tm₁ in (tm₂, closed ++ closed')

-- The anonymous tunnels past the limit, as a tick of StartAnonymousExpiry collects them.
unfoldable pub to_kill : ℕ → ℕ → TunnelManager → List TunnelSession
unfolding too_old
to_kill now ttl tm =
    select (λ s. too_old now ttl s && not s.reserved) (values tm.http_tunnels)
    ++ select (too_old now ttl) (values tm.tcp_tunnels)

-- StartAnonymousExpiry, one tick
unfoldable pub expire_anonymous : ℕ → ℕ → TunnelManager → TunnelManager × List Effect
unfolding to_kill kill_all
expire_anonymous now ttl tm = kill_all (to_kill now ttl tm) tm
