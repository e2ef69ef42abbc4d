-- ===== src/Reconnect.antt =====
-- The reconnecting client of internal/client/reconnect.go: exponential backoff, the heartbeat, and the
-- subdomain that it asks for again. Durations are in nanoseconds. What the network and the context
-- do is a list of events, one for each way through a round of a loop.
pub mod Backoff
use htn_tunnel.Prelude.{
  ℕ, zero, suc, ◌+◌, ◌*◌, Bool, true, false, ◌&&◌, Option, none, some, List, [], ◌∷◌, ◌++◌, length,
  drop, ltb, leb, nat_beq, if◌then◌else◌, Text, text_eq, str, ◌==◌,
}

abbrev pub base_backoff : ℕ
base_backoff = 1000000000

abbrev pub max_backoff : ℕ
max_backoff = 60000000000

abbrev pub max_heartbeat_misses : ℕ
max_heartbeat_misses = 3

-- minDuration
abbrev pub min_duration : ℕ → ℕ → ℕ
min_duration a b = if ltb a b then a else b

-- The loop of extractSubdomainFromURL: up to the first dot.
unfoldable pub until_dot : Text → Text
until_dot [] = []
until_dot (ch ∷ s) = let rest = until_dot s in if nat_beq ch 46 then [] else ch ∷ rest

abbrev pub scheme : Text
scheme = str "https://"

-- extractSubdomainFromURL
unfoldable pub extract_subdomain_from_url : Text → Text
unfolding until_dot
extract_subdomain_from_url raw_url =
    until_dot
      (if ltb (length scheme) (length raw_url) then drop (length scheme) raw_url else raw_url)

-- What changes in Run: the fields of Reconnector that it writes, and its variables.
pub record Reconnector : Type 0 where
  pub tunnel_type : Text
  pub subdomain : Text
  pub backoff : ℕ
  pub attempt : ℕ

-- A round of Run: the connection or the request for a tunnel fails, or the tunnel at the URL is
-- served until it is lost.
pub data Round : Type 0 where
  connect_fails request_fails : Round
  served : Text → Round

-- The backoff at the end of a round that failed, and the time that it waited.
unfoldable pub back_off : Reconnector → Reconnector × Option ℕ
back_off r = (
  record r { backoff = min_duration (r.backoff * 2) max_backoff; attempt = r.attempt + 1 },
  some r.backoff,
)

unfoldable pub run_round : Round → Reconnector → Reconnector × Option ℕ
unfolding back_off
run_round connect_fails r = back_off r
run_round request_fails r = back_off r
run_round (served url) r =
    let subdomain =
      if r.tunnel_type == str "http" && ltb 0 (length url)
      then extract_subdomain_from_url url
      else r.subdomain in
    (record r { subdomain = subdomain; backoff = base_backoff; attempt = 0 }, none)

-- Run, until the context is cancelled: the waits between the rounds.
unfoldable pub run_rounds : List Round → Reconnector → Reconnector × List ℕ
run_rounds [] r = (r, [])
run_rounds (round ∷ rounds) r =
    let (r', waited) = run_round round r in
    let (r'', waits) = run_rounds rounds r' in
    (r'', elim waited [ none ↦ waits | some t ↦ t ∷ waits ])

-- What runHeartbeat selects: a message of the server, or a tick on which the heartbeat is sent or
-- cannot be sent.
pub data Beat : Type 0 where
  ack other_message read_fails tick send_fails : Beat

pub data HeartbeatEnd : Type 0 where
  read_error send_error dead : HeartbeatEnd

-- runHeartbeat: none if the context is cancelled after the events.
unfoldable pub run_heartbeat : List Beat → ℕ → Option HeartbeatEnd
run_heartbeat [] misses = none
run_heartbeat (ack ∷ beats) misses = run_heartbeat beats 0
run_heartbeat (other_message ∷ beats) misses = run_heartbeat beats misses
run_heartbeat (read_fails ∷ beats) misses = some read_error
run_heartbeat (send_fails ∷ beats) misses = some send_error
run_heartbeat (tick ∷ beats) misses =
    let rest = run_heartbeat beats (misses + 1) in
    if leb max_heartbeat_misses (misses + 1) then some dead else rest
