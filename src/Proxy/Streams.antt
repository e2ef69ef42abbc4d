-- ===== src/Proxy/Streams.antt =====
-- The yamux streams of internal/server/http_proxy.go: yamuxTransport.RoundTrip with the body that closes
-- its stream, and the listener of a single connection. What the network does is an argument.
use htn_tunnel.Prelude.{
  ℕ, zero, suc, ◌+◌, ◌≡◌, Bool, true, false, Option, none, some, List, [], ◌∷◌, ◌++◌, if◌then◌else◌,
  nat_eq,
}
use htn_tunnel.Tunnels.{TunnelSession}

-- What the session does with one request: the stream it opens, if it does; whether the request is
-- written; the response, if it can be read.
pub record Exchange (Response : Type 0) : Type 0 where
  pub opens : Option ℕ
  pub writes : Bool
  pub response : Option Response

pub data RoundTripError : Type 0 where
  open_stream write_request read_response : RoundTripError

-- streamCloser, without the response body that it wraps.
pub record StreamCloser : Type 0 where
  pub stream : ℕ
  pub read : ℕ

pub data RoundTrip (Response : Type 0) : Type 0 where
  failed : RoundTripError → RoundTrip Response
  responded : Response → StreamCloser → RoundTrip Response

-- The streams opened and closed, in order.
pub data StreamEvent : Type 0 where
  opened closed : ℕ → StreamEvent

module _ {Response : Type 0} where
  -- yamuxTransport.RoundTrip
  unfoldable pub round_trip : Exchange Response → RoundTrip Response × List StreamEvent
  round_trip x = elim x.opens [
    | none ↦ (failed open_stream, [])
    | some stream ↦
        if x.writes
        then elim x.response [
          | none ↦ (failed read_response, opened stream ∷ closed stream ∷ [])
          | some resp ↦ (responded resp (record { stream = stream; read = 0 }), opened stream ∷ [])
        ]
        else (failed write_request, opened stream ∷ closed stream ∷ [])
  ]

-- streamCloser.Read, when the body gives n bytes.
unfoldable pub read_body : ℕ → StreamCloser → StreamCloser
read_body n sc = record sc { read = sc.read + n }

-- The reads of a body, in order.
unfoldable pub read_all : List ℕ → StreamCloser → StreamCloser
unfolding read_body
read_all [] sc = sc
read_all (n ∷ ns) sc = read_all ns (read_body n sc)

-- streamCloser.Close: the stream is closed and the session counts the bytes.
unfoldable pub close_body : StreamCloser → TunnelSession → TunnelSession × List StreamEvent
close_body sc s = (record s { bytes_out = s.bytes_out + sc.read }, closed sc.stream ∷ [])

unfoldable pub total : List ℕ → ℕ
total [] = 0
total (n ∷ ns) = n + total ns

-- An exchange to the end: the response's body is read in these pieces and closed.
unfoldable pub whole_exchange :
    {Response : Type 0}
    → Exchange Response
    → List ℕ
    → TunnelSession
    → TunnelSession × List StreamEvent
unfolding round_trip read_all close_body
whole_exchange x pieces s =
    let (result, events) = round_trip x in
    elim result [
      | failed _ ↦ (s, events)
      | responded _ sc ↦
          let (s', closing) = close_body (read_all pieces sc) s in (s', events ++ closing)
    ]

-- What an exchange leaves behind: no stream was opened, or one was, and it was closed once, and
-- the session's count of sent bytes grew by what was read of a response.
pub data Settled {Response : Type 0} (x : Exchange Response) (pieces : List ℕ) (s : TunnelSession)
    : TunnelSession × List StreamEvent → Type 0 where
  unopened : x.opens ≡ none → Settled x pieces s (s, [])
  unanswered :
      (stream : ℕ)
      → x.opens ≡ some stream
      → Settled x pieces s (s, opened stream ∷ closed stream ∷ [])
  answered :
      (stream : ℕ) (resp : Response)
      → x.opens ≡ some stream
      → x.writes ≡ true
      → x.response ≡ some resp
      → Settled x pieces s
          (record s { bytes_out = s.bytes_out + total pieces }, opened stream ∷ closed stream ∷ [])

-- singleConnListener: its channel holds one connection at most.
pub record SingleConnListener : Type 0 where
  pub ch : Option ℕ
  pub closed : Bool

-- newSingleConnListener
abbrev pub new_single_conn_listener : ℕ → SingleConnListener
new_single_conn_listener conn = record { ch = some conn; closed = false }

-- A receive from the channel: a connection, the error of a closed listener, or no answer yet.
pub data Accepted : Type 0 where
  connection : ℕ → Accepted
  listener_closed blocks : Accepted

-- singleConnListener.Accept
unfoldable pub accept : SingleConnListener → Accepted × SingleConnListener
accept l = elim l.ch [
  | some conn ↦ (connection conn, record l { ch = none })
  | none ↦ if l.closed then (listener_closed, l) else (blocks, l)
]

-- singleConnListener.Close; closing a closed channel is a panic, `none`.
unfoldable pub close_listener : SingleConnListener → Option SingleConnListener
close_listener l = if l.closed then none else some (record { ch = none; closed = true })

-- The answers to n calls of Accept.
unfoldable pub accepts : ℕ → SingleConnListener → List Accepted
accepts zero l = []
accepts (suc n) l = let (answer, l') = accept l in answer ∷ accepts n l'

unfoldable pub repeat_blocks : ℕ → List Accepted
repeat_blocks zero = []
repeat_blocks (suc n) = blocks ∷ repeat_blocks n
