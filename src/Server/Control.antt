-- ===== src/Server/Control.antt =====
-- The control stream of a session in internal/server/server.go: the message loop of
-- handleControlSession, the idle watchdog, and handleAccountInfo.
-- `read_request` is the JSON decoder of a TunnelRequestMsg. A failure to answer a heartbeat ends the loop
-- and is an argument; other failures to answer are ignored.
pub mod Idle
use htn_tunnel.Prelude.{
  ℕ, ◌+◌, ◌*◌, Bool, true, false, Option, none, some, List, [], ◌∷◌, ◌++◌, Text, text_eq, ◌==◌,
  nat_beq, str, ℤ, pos, has_prefix, if◌then◌else◌,
}
use htn_tunnel.Protocol.{Bytes, msg_heartbeat, msg_account_info, msg_tunnel_req}
use htn_tunnel.Tunnels.{TunnelSession, TunnelManager, Effect, reserve_http, session_tunnels}
use htn_tunnel.Keys.{ApiKey, get_key, is_api_key}
use htn_tunnel.Server.{
  Server, World, TunnelRequestMsg, Reply, is_anonymous, handle_tunnel_request, tunnel_http,
}

-- AccountInfoRespMsg
pub record AccountInfo : Type 0 where
  pub name : Text
  pub subdomains : List Text
  pub max_tunnels : ℤ
  pub domain : Text

-- The fields of ServerConfig that are read here.
pub record AccountConfig : Type 0 where
  pub domain : Text
  pub max_tunnels_per_token : ℤ

-- The answer for a token without account details.
abbrev pub legacy_info : AccountConfig → AccountInfo
legacy_info cfg = record {
  name = str "legacy";
  subdomains = [];
  max_tunnels = cfg.max_tunnels_per_token;
  domain = cfg.domain;
}

-- handleAccountInfo
unfoldable pub handle_account_info :
    {H L : Type 0} → AccountConfig → Text → Server H L → AccountInfo
handle_account_info cfg token s =
    if is_anonymous token
    then record {
      name = str "anonymous";
      subdomains = [];
      max_tunnels = pos 1;
      domain = cfg.domain;
    }
    else if is_api_key token
    then elim (get_key token s.key_store) [
      | none ↦ legacy_info cfg
      | some k ↦ record {
        name = k.name;
        subdomains = k.subdomains;
        max_tunnels = k.max_tunnels;
        domain = cfg.domain;
      }
    ]
    else legacy_info cfg

pub data Answer : Type 0 where
  nothing heartbeat_ack : Answer
  account_info : AccountInfo → Answer
  tunnel_response : Reply → Answer

module _ {H L : Type 0} (read_request : Bytes → Option TunnelRequestMsg) (cfg : AccountConfig) where
  -- The switch of the loop, for one message. The encoder has a number, as the session has.
  unfoldable pub control_message :
      World L → ℕ → ℕ → Text → ℕ → Bytes → Server H L → Answer × Server H L × List Effect
  control_message w session enc token msg_type raw s =
      if nat_beq msg_type msg_heartbeat
      then (heartbeat_ack, s, [])
      else if nat_beq msg_type msg_account_info
      then (account_info (handle_account_info cfg token s), s, [])
      else if nat_beq msg_type msg_tunnel_req
      then elim (read_request raw) [
        | none ↦ (nothing, s, [])
        | some req ↦
            let (reply, s', closed) = handle_tunnel_request w session enc token req s in
            (tunnel_response reply, s', closed)
      ]
      else (nothing, s, [])

-- reservationTTL, in nanoseconds
abbrev pub reservation_ttl : ℕ
reservation_ttl = 60 * 1000000000

unfoldable pub reserve_each : ℕ → List TunnelSession → TunnelManager → TunnelManager
reserve_each now [] tm = tm
reserve_each now (ts ∷ tunnels) tm =
    reserve_each now tunnels
      (if ts.kind == tunnel_http then reserve_http now ts.subdomain reservation_ttl tm else tm)

-- The idle timeout of handleControlSession.
unfoldable pub idle_timeout : {H L : Type 0} → ℕ → ℕ → Server H L → Server H L
unfolding reserve_each
idle_timeout now session s = record s {
  tunnel_manager = reserve_each now (session_tunnels session s.tunnel_manager) s.tunnel_manager;
}
