-- ===== src/RequestLog.antt =====
-- RequestLog of internal/server/request_log.go: the circular buffer of proxied requests, and its
-- subscribers. The capacity is an argument of the buffer's operations, positive in the source, where it
-- is max_log_entries. A subscriber's channel has a number and holds the entries not yet received.
pub mod Buffer
pub mod Traffic
use htn_tunnel.Prelude.{
  ℕ, zero, suc, ◌+◌, Bool, true, false, ◌&&◌, ◌||◌, Option, none, some, List, [], ◌∷◌, ◌++◌, length,
  take, drop, set, replicate, select, ltb, leb, if◌then◌else◌, Text, text_eq, nat_eq, ◌==◌, Map,
  lookup, insert, delete, ℤ, pos, negsuc, le_int,
}

pub record LogEntry : Type 0 where
  pub timestamp : ℕ
  pub tunnel_id : Text
  pub subdomain : Text
  pub token : Text
  pub method : Text
  pub path : Text
  pub status : ℤ
  pub duration_ms : ℤ
  pub size : ℤ

pub record RequestLog : Type 0 where
  pub entries : List LogEntry
  -- the next index to write
  pub write_pos : ℕ
  pub full : Bool
  pub subs : Map ℕ (List LogEntry)

abbrev pub max_log_entries : ℕ
max_log_entries = 10000

-- The buffer of a subscriber's channel.
abbrev pub channel_size : ℕ
channel_size = 64

-- The zero value that make puts in every cell.
abbrev pub blank : LogEntry
blank = record {
  timestamp = 0;
  tunnel_id = [];
  subdomain = [];
  token = [];
  method = [];
  path = [];
  status = pos 0;
  duration_ms = pos 0;
  size = pos 0;
}

-- The select of Add: a full channel drops the entry.
unfoldable pub send : LogEntry → List LogEntry → List LogEntry
send e waiting = if ltb (length waiting) channel_size then waiting ++ e ∷ [] else waiting

unfoldable pub fan_out : LogEntry → Map ℕ (List LogEntry) → Map ℕ (List LogEntry)
unfolding send
fan_out e [] = []
fan_out e ((ch, waiting) ∷ subs) = (ch, send e waiting) ∷ fan_out e subs

unfoldable pub reverse : {A : Type 0} → List A → List A
reverse [] = []
reverse (x ∷ xs) = reverse xs ++ x ∷ []

-- Subscribe: the channel is a new one.
unfoldable pub subscribe : ℕ → RequestLog → RequestLog
subscribe ch rl = record rl { subs = insert ch [] rl.subs }

-- Unsubscribe
unfoldable pub unsubscribe : ℕ → RequestLog → RequestLog
unsubscribe ch rl = record rl { subs = delete ch rl.subs }

-- raw, before it is reversed: oldest first.
unfoldable pub stored : RequestLog → List LogEntry
stored rl =
    if rl.full
    then drop rl.write_pos rl.entries ++ take rl.write_pos rl.entries
    else take rl.write_pos rl.entries

-- snapshot
unfoldable pub snapshot : Text → RequestLog → List LogEntry
snapshot token rl =
    let raw = reverse (stored rl) in if token == [] then raw else select (λ e. e.token == token) raw

-- Recent
unfoldable pub recent_entries : ℤ → Text → RequestLog → List LogEntry
recent_entries limit token rl =
    let all = snapshot token rl in
    if le_int limit (pos 0) || le_int (pos (length all)) limit
    then all
    else elim limit [ pos n ↦ take n all | negsuc _ ↦ all ]

module _ (capacity : ℕ) where
  -- NewRequestLog
  unfoldable pub new_request_log : RequestLog
  new_request_log = record {
    entries = replicate capacity blank;
    write_pos = 0;
    full = false;
    subs = [];
  }

  -- Add
  unfoldable pub add : LogEntry → RequestLog → RequestLog
  add e rl =
      let wrapped = leb capacity (rl.write_pos + 1) in
      record {
        entries = set rl.entries rl.write_pos e;
        write_pos = if wrapped then 0 else rl.write_pos + 1;
        full = if wrapped then true else rl.full;
        subs = fan_out e rl.subs;
      }

  unfoldable pub add_all : List LogEntry → RequestLog → RequestLog
  add_all [] rl = rl
  add_all (e ∷ es) rl = add_all es (add e rl)

-- The hits of each path, counted entry by entry (the map of TopPaths).
unfoldable pub count_paths : List LogEntry → Map Text ℕ → Map Text ℕ
count_paths [] counts = counts
count_paths (e ∷ es) counts =
    count_paths es
      (insert e.path (elim (lookup e.path counts) [ none ↦ 1 | some n ↦ n + 1 ]) counts)

-- TopPaths; sort.Slice, an argument, is not stable.
unfoldable pub top_paths :
    (List (Text × ℕ) → List (Text × ℕ)) → ℤ → Text → RequestLog → List (Text × ℕ)
top_paths by_count n token rl =
    let out = by_count (count_paths (snapshot token rl) []) in
    elim n [ pos m ↦ if ltb 0 m && ltb m (length out) then take m out else out | negsuc _ ↦ out ]
