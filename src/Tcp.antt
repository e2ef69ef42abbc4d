-- ===== src/Tcp.antt =====
-- One connection of a TCP tunnel: handleTCPConn of internal/server/tcp_proxy.go, whose two goroutines
-- take their steps in any order. The counter of the session is the connection's own part of it.
pub mod Steps
pub mod Relayed
use htn_tunnel.Prelude.{
  ℕ, ◌+◌, Bool, true, false, not, ◌||◌, ◌&&◌, List, [], ◌∷◌, ◌++◌, length, take, drop,
  if◌then◌else◌, Text, text_eq, ◌==◌, nat_beq, Option, none, some,
}

-- The bytes on their way, what the goroutines did, and the ends that are open.
pub record TcpConn : Type 0 where
  pub from_remote : Text
  pub to_client : Text
  pub from_client : Text
  pub to_remote : Text
  pub up_done : Bool
  pub down_done : Bool
  pub conn_open : Bool
  pub stream_open : Bool
  pub bytes_in : ℕ
  pub bytes_out : ℕ

-- A step of a goroutine: io.Copy moves some bytes, it ends at the end of its source, or it fails.
pub data TcpEvent : Type 0 where
  up_copy down_copy : ℕ → TcpEvent
  up_eof up_error down_eof down_error : TcpEvent

-- The goroutine from the remote end to the client is through with io.Copy.
unfoldable pub up_end : TcpConn → TcpConn
up_end c = record c {
  up_done = true;
  bytes_in = c.bytes_in + length c.to_client;
  stream_open = false;
}

-- The goroutine from the client to the remote end is through with io.Copy.
unfoldable pub down_end : TcpConn → TcpConn
down_end c = record c {
  down_done = true;
  bytes_out = c.bytes_out + length c.to_remote;
  conn_open = false;
}

-- A step: a goroutine that is through takes none. A closed connection is at its end; a stream that the
-- server closed can still be read.
unfoldable pub tcp_step : TcpEvent → TcpConn → TcpConn
unfolding up_end down_end
tcp_step (up_copy n) c = if c.up_done || not c.conn_open then c else record c {
  to_client = c.to_client ++ take n c.from_remote;
  from_remote = drop n c.from_remote;
}
tcp_step (down_copy n) c = if c.down_done then c else record c {
  to_remote = c.to_remote ++ take n c.from_client;
  from_client = drop n c.from_client;
}
tcp_step up_eof c = if c.up_done || (c.conn_open && not (c.from_remote == [])) then c else up_end c
tcp_step down_eof c = if c.down_done || not (c.from_client == []) then c else down_end c
tcp_step up_error c = if c.up_done then c else up_end c
tcp_step down_error c = if c.down_done then c else down_end c

unfoldable pub tcp_steps : List TcpEvent → TcpConn → TcpConn
unfolding tcp_step
tcp_steps [] c = c
tcp_steps (ev ∷ evs) c = tcp_steps evs (tcp_step ev c)

-- A connection whose stream is open, with the bytes that the two ends will send.
unfoldable pub opened : Text → Text → TcpConn
opened remote client = record {
  from_remote = remote;
  to_client = [];
  from_client = client;
  to_remote = [];
  up_done = false;
  down_done = false;
  conn_open = true;
  stream_open = true;
  bytes_in = 0;
  bytes_out = 0;
}

-- wg.Wait() returns when both goroutines are through; then the deferred calls close both ends.
unfoldable pub returned : TcpConn → Option TcpConn
returned c =
    if c.up_done && c.down_done
    then some (record c { conn_open = false; stream_open = false })
    else none

-- handleTCPConn: opens says whether the session gave a stream. Without one the connection is closed
-- at once; none is a connection that is not over yet.
unfoldable pub handle_tcp_conn : Bool → Text → Text → List TcpEvent → Option TcpConn
unfolding tcp_steps opened returned
handle_tcp_conn opens remote client events =
    if not opens
    then some (record (opened remote client) { conn_open = false; stream_open = false })
    else returned (tcp_steps events (opened remote client))
