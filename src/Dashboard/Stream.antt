-- ===== src/Dashboard/Stream.antt =====
-- Server-Sent Events of internal/dashboard/handler.go, and the channels under them:
-- internal/server/request_log_adapter.go. A channel has a number and holds what is not yet received.
use htn_tunnel.Prelude.{
  ℕ, ◌≡◌, refl, Bool, false, not, ◌&&◌, Option, none, some, List, [], ◌∷◌, ◌++◌, map, length, ltb,
  if◌then◌else◌, Text, text_eq, nat_eq, ◌==◌, select, Map, lookup, insert, delete, lookup-insert, ℤ,
  arith, Bool-cases, inl, inr, beq_refl,
}
use htn_tunnel.RequestLog.{
  LogEntry, RequestLog, subscribe, unsubscribe, recent_entries, channel_size,
}

-- RequestLogEntry
pub record RequestLogEntry : Type 0 where
  pub timestamp : ℕ
  pub tunnel_id : Text
  pub subdomain : Text
  pub token : Text
  pub method : Text
  pub path : Text
  pub status : ℤ
  pub duration_ms : ℤ
  pub size : ℤ

-- toDBEntry
unfoldable pub to_db_entry : LogEntry → RequestLogEntry
to_db_entry e = record {
  timestamp = e.timestamp;
  tunnel_id = e.tunnel_id;
  subdomain = e.subdomain;
  token = e.token;
  method = e.method;
  path = e.path;
  status = e.status;
  duration_ms = e.duration_ms;
  size = e.size;
}

-- What the loop of serveSSE selects.
pub data SseEvent : Type 0 where
  received : RequestLogEntry → SseEvent
  channel_closed tick request_done : SseEvent

pub data SseLine : Type 0 where
  connected ping : SseLine
  data_line : RequestLogEntry → SseLine

-- The loop of serveSSE: the lines written.
unfoldable pub sse_loop : Text → List SseEvent → List SseLine
sse_loop filter_token [] = []
sse_loop filter_token (channel_closed ∷ events) = []
sse_loop filter_token (request_done ∷ events) = []
sse_loop filter_token (tick ∷ events) = ping ∷ sse_loop filter_token events
sse_loop filter_token (received e ∷ events) =
    let rest = sse_loop filter_token events in
    if not (filter_token == []) && not (e.token == filter_token) then rest else data_line e ∷ rest

-- serveSSE: `none` is the error 500 of a writer without Flush.
unfoldable pub serve_sse : Bool → Text → List SseEvent → Option (List SseLine)
unfolding sse_loop
serve_sse flusher filter_token events =
    if flusher then some (connected ∷ sse_loop filter_token events) else none

-- The entries among the lines, and those received before the end.
unfoldable pub shown : List SseLine → List RequestLogEntry
shown [] = []
shown (data_line e ∷ lines) = e ∷ shown lines
shown (connected ∷ lines) = shown lines
shown (ping ∷ lines) = shown lines

unfoldable pub received_entries : List SseEvent → List RequestLogEntry
received_entries [] = []
received_entries (channel_closed ∷ events) = []
received_entries (request_done ∷ events) = []
received_entries (tick ∷ events) = received_entries events
received_entries (received e ∷ events) = e ∷ received_entries events

-- A stream for a token shows the entries of that token, all of them and in order, of those received
-- before its end.
shown-sse_loop :
    (token : Text) (events : List SseEvent)
    → (token == []) ≡ false
    → shown (sse_loop token events) ≡ select (λ e. e.token == token) (received_entries events)
unfolding shown sse_loop received_entries select
shown-sse_loop token [] named = refl
shown-sse_loop token (channel_closed ∷ events) named = refl
shown-sse_loop token (request_done ∷ events) named = refl
shown-sse_loop token (tick ∷ events) named = shown-sse_loop token events named
shown-sse_loop token (received e ∷ events) named = elim (Bool-cases (e.token == token)) [
  | inl own ↦ rw (named, own) (rw (shown-sse_loop token events named) refl)
  | inr other ↦ rw (named, other) (shown-sse_loop token events named)
]

-- RequestLogAdapter: the request log, the channel of the log behind each channel of the dashboard,
-- and the dashboard's channels. A closed channel is none of them.
pub record RequestLogAdapter : Type 0 where
  pub rl : RequestLog
  pub src_of : Map ℕ ℕ
  pub dst : Map ℕ (List RequestLogEntry)

-- NewRequestLogAdapter
abbrev pub new_request_log_adapter : RequestLog → RequestLogAdapter
new_request_log_adapter rl = record { rl = rl; src_of = []; dst = [] }

-- Subscribe, with the numbers of the two new channels.
unfoldable pub adapter_subscribe : ℕ → ℕ → RequestLogAdapter → RequestLogAdapter
adapter_subscribe src ch a = record {
  rl = subscribe src a.rl;
  src_of = insert ch src a.src_of;
  dst = insert ch [] a.dst;
}

-- Unsubscribe; the forwarding goroutine ends when its source is closed, and closes the channel.
unfoldable pub adapter_unsubscribe : ℕ → RequestLogAdapter → RequestLogAdapter
adapter_unsubscribe ch a = elim (lookup ch a.src_of) [
  | none ↦ a
  | some src ↦ record {
    rl = unsubscribe src a.rl;
    src_of = delete ch a.src_of;
    dst = delete ch a.dst;
  }
]

-- One round of the forwarding goroutine: an entry moves on, or is dropped if the channel is full.
unfoldable pub forward_entry : LogEntry → List RequestLogEntry → List RequestLogEntry
unfolding to_db_entry
forward_entry e waiting =
    if ltb (length waiting) channel_size then waiting ++ to_db_entry e ∷ [] else waiting

-- RequestLogAdapter.Recent
unfoldable pub adapter_recent : ℤ → Text → RequestLogAdapter → List RequestLogEntry
unfolding to_db_entry
adapter_recent limit token a = map to_db_entry (recent_entries limit token a.rl)

delete-insert :
    {V : Type 0} (k : ℕ) (v : V) (m : Map ℕ V) → lookup k m ≡ none → delete k (insert k v m) ≡ m
unfolding delete insert lookup
delete-insert k v [] absent = rw (beq_refl k) refl
delete-insert k v ((j, w) ∷ m) absent = ground (arith, delete-insert k v m)

-- A subscription that ends leaves nothing behind: after Unsubscribe the adapter is as it was before
-- Subscribe, if the two channels are new.
adapter_unsubscribe-adapter_subscribe :
    (src ch : ℕ) (a : RequestLogAdapter)
    → lookup src a.rl.subs ≡ none
    → lookup ch a.src_of ≡ none
    → lookup ch a.dst ≡ none
    → adapter_unsubscribe ch (adapter_subscribe src ch a) ≡ a
unfolding adapter_unsubscribe adapter_subscribe subscribe unsubscribe
adapter_unsubscribe-adapter_subscribe src ch a new_src new_ch new_dst =
    let found : lookup ch (insert ch src a.src_of) ≡ some src =
      ground (arith, lookup-insert ch ch src a.src_of) in
    simp
      (
        found,
        adapter_unsubscribe,
        adapter_subscribe,
        subscribe,
        unsubscribe,
        delete-insert src [] a.rl.subs new_src,
        delete-insert ch src a.src_of new_ch,
        delete-insert ch [] a.dst new_dst,
      )
      refl
