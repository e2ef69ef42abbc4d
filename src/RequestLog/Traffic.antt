-- ===== src/RequestLog/Traffic.antt =====
-- TrafficStats of internal/server/request_log.go: the requests of the last minutes, in one bucket for each.
-- Times are in nanoseconds, and `now` is not in the first hour of the epoch.
use htn_tunnel.Prelude.{
  ℕ, zero, suc, ◌+◌, ◌-◌, ◌*◌, ◌/◌, ◌<◌, ◌≡◌, refl, sym, subst, ◌∙◌, ap, Bool, true, false, not,
  ◌&&◌, none, some, List, [], ◌∷◌, length, get_elem?, ltb, leb, nat_beq, if◌then◌else◌, Text,
  nat_eq, Map, lookup, insert, lookup-insert, arith, Bool-cases, inl, inr, ℤ, pos, negsuc, le_int,
}
use htn_tunnel.RequestLog.{LogEntry, RequestLog, snapshot}

-- TrafficBucket; bytes_in stays zero.
pub record TrafficBucket : Type 0 where
  pub timestamp : ℕ
  pub requests : ℕ
  pub bytes_in : ℤ
  pub bytes_out : ℤ
  pub status2xx : ℕ
  pub status3xx : ℕ
  pub status4xx : ℕ
  pub status5xx : ℕ
  pub avg_latency : ℤ

pub record Accumulator : Type 0 where
  pub reqs : ℕ
  pub bytes_out : ℤ
  pub status2xx : ℕ
  pub status3xx : ℕ
  pub status4xx : ℕ
  pub status5xx : ℕ
  pub total_ms : ℤ

-- &accumulator{}
abbrev pub empty_accumulator : Accumulator
empty_accumulator = record {
  reqs = 0;
  bytes_out = pos 0;
  status2xx = 0;
  status3xx = 0;
  status4xx = 0;
  status5xx = 0;
  total_ms = pos 0;
}

abbrev pub minute : ℕ
minute = 60000000000

-- a - b of natural numbers
unfoldable pub sub_nat : ℕ → ℕ → ℤ
sub_nat a b = if leb b a then pos (a - b) else negsuc (b - a - 1)

-- Addition and the truncated division of Go's integers.
unfoldable pub add_int : ℤ → ℤ → ℤ
unfolding sub_nat
add_int (pos a) (pos b) = pos (a + b)
add_int (pos a) (negsuc b) = sub_nat a (b + 1)
add_int (negsuc a) (pos b) = sub_nat b (a + 1)
add_int (negsuc a) (negsuc b) = negsuc (a + b + 1)

unfoldable pub div_int : ℤ → ℕ → ℤ
unfolding sub_nat
div_int (pos a) n = pos (a / n)
div_int (negsuc a) n = sub_nat 0 ((a + 1) / n)

-- The body of the loop, on a bucket.
unfoldable pub count_entry : LogEntry → Accumulator → Accumulator
unfolding add_int
count_entry e b =
    let b' = record b {
      reqs = b.reqs + 1;
      bytes_out = add_int b.bytes_out e.size;
      total_ms = add_int b.total_ms e.duration_ms;
    } in
    if le_int (pos 500) e.status
    then record b' { status5xx = b.status5xx + 1 }
    else if le_int (pos 400) e.status
    then record b' { status4xx = b.status4xx + 1 }
    else if le_int (pos 300) e.status
    then record b' { status3xx = b.status3xx + 1 }
    else record b' { status2xx = b.status2xx + 1 }

-- The bucket's index of an entry; a time after now gives 0.
unfoldable pub minute_index : ℕ → LogEntry → ℕ
minute_index now e = (now - e.timestamp) / minute

-- The entry is not before the cutoff, and its index is in range.
unfoldable pub in_window : ℕ → ℕ → LogEntry → Bool
unfolding minute_index
in_window now minutes e =
    not (ltb (e.timestamp + minutes * minute) now) && ltb (minute_index now e) minutes

-- buckets[i], or a new accumulator
unfoldable pub bucket_at : ℕ → Map ℕ Accumulator → Accumulator
bucket_at i buckets = elim (lookup i buckets) [ none ↦ empty_accumulator | some b ↦ b ]

-- The body of the loop over the entries.
unfoldable pub count_in : ℕ → ℕ → LogEntry → Map ℕ Accumulator → Map ℕ Accumulator
unfolding in_window bucket_at count_entry
count_in now minutes e buckets =
    let i = minute_index now e in
    if in_window now minutes e
    then insert i (count_entry e (bucket_at i buckets)) buckets
    else buckets

unfoldable pub fill_buckets : ℕ → ℕ → List LogEntry → Map ℕ Accumulator → Map ℕ Accumulator
unfolding count_in
fill_buckets now minutes [] buckets = buckets
fill_buckets now minutes (e ∷ es) buckets =
    fill_buckets now minutes es (count_in now minutes e buckets)

-- The bucket that is shown for an index.
unfoldable pub to_bucket : ℕ → ℕ → Map ℕ Accumulator → TrafficBucket
to_bucket now i buckets =
    let b = bucket_at i buckets in
    record {
      timestamp = (now - i * minute) / minute * minute;
      requests = b.reqs;
      bytes_in = pos 0;
      bytes_out = b.bytes_out;
      status2xx = b.status2xx;
      status3xx = b.status3xx;
      status4xx = b.status4xx;
      status5xx = b.status5xx;
      avg_latency = if ltb 0 b.reqs then div_int b.total_ms b.reqs else pos 0;
    }

-- The last loop: the buckets n - 1 down to 0.
unfoldable pub buckets_down : ℕ → ℕ → Map ℕ Accumulator → List TrafficBucket
unfolding to_bucket
buckets_down now zero buckets = []
buckets_down now (suc n) buckets = to_bucket now n buckets ∷ buckets_down now n buckets

-- The number of minutes that is meant.
unfoldable pub default_minutes : ℤ → ℕ
default_minutes (pos n) = if nat_beq n 0 then 30 else n
default_minutes (negsuc _) = 30

-- TrafficStats
unfoldable pub traffic_stats : ℕ → ℤ → Text → RequestLog → List TrafficBucket
unfolding fill_buckets buckets_down default_minutes
traffic_stats now minutes token rl =
    let n = default_minutes minutes in
    buckets_down now n (fill_buckets now n (snapshot token rl) [])

-- The entry is in the window, at an index.
unfoldable pub hit : ℕ → ℕ → ℕ → LogEntry → Bool
hit now minutes i e = in_window now minutes e && nat_beq (minute_index now e) i

-- The number of entries in the window at an index.
unfoldable pub hits : ℕ → ℕ → ℕ → List LogEntry → ℕ
unfolding hit
hits now minutes i [] = 0
hits now minutes i (e ∷ es) =
    let rest = hits now minutes i es in if hit now minutes i e then suc rest else rest

-- The four classes of statuses make up the requests.
abbrev Balanced : Accumulator → Type 0
Balanced b = b.reqs ≡ b.status2xx + b.status3xx + b.status4xx + b.status5xx

count_entry-Balanced : (e : LogEntry) (b : Accumulator) → Balanced b → Balanced (count_entry e b)
unfolding count_entry
count_entry-Balanced e b h = ground arith

reqs-count_entry : (e : LogEntry) (b : Accumulator) → (count_entry e b).reqs ≡ b.reqs + 1
unfolding count_entry
reqs-count_entry e b = ground arith

bucket_at-insert :
    (i j : ℕ) (b : Accumulator) (m : Map ℕ Accumulator)
    → bucket_at j (insert i b m) ≡ (if nat_beq i j then b else bucket_at j m)
unfolding bucket_at
bucket_at-insert i j b m = ground (arith, lookup-insert i j b m)

count_in-outside :
    (now minutes : ℕ) (e : LogEntry) (m : Map ℕ Accumulator)
    → in_window now minutes e ≡ false
    → count_in now minutes e m ≡ m
unfolding count_in
count_in-outside now minutes e m outside = rw (count_in, outside) refl

bucket_at-count_inside :
    (now minutes i : ℕ) (e : LogEntry) (m : Map ℕ Accumulator)
    → in_window now minutes e ≡ true
    → bucket_at i (count_in now minutes e m) ≡ (
        if nat_beq (minute_index now e) i
        then count_entry e (bucket_at (minute_index now e) m)
        else bucket_at i m)
unfolding count_in
bucket_at-count_inside now minutes i e m inside =
    let k = minute_index now e in
    rw (count_in, inside) (bucket_at-insert k i (count_entry e (bucket_at k m)) m)

bucket_at-count_in :
    (now minutes i : ℕ) (e : LogEntry) (m : Map ℕ Accumulator)
    → bucket_at i (count_in now minutes e m)
      ≡ (if hit now minutes i e then count_entry e (bucket_at i m) else bucket_at i m)
unfolding hit
bucket_at-count_in now minutes i e m = elim (Bool-cases (in_window now minutes e)) [
  | inr outside ↦ rw (hit, outside) (ap (bucket_at i) (count_in-outside now minutes e m outside))
  | inl inside ↦
      let main = bucket_at-count_inside now minutes i e m inside in
      elim (Bool-cases (nat_beq (minute_index now e) i)) [
        | inr other ↦ main ∙ rw (inside, other) refl
        | inl same ↦
            let at : minute_index now e ≡ i = ground arith in
            main ∙ rw (inside, same) (ap (λ k. count_entry e (bucket_at k m)) at)
      ]
]

bucket_at-empty : (i : ℕ) → bucket_at i [] ≡ empty_accumulator
unfolding bucket_at lookup
bucket_at-empty i = refl

fill_buckets-hits :
    (now minutes i : ℕ) (es : List LogEntry) (m : Map ℕ Accumulator)
    → Balanced (bucket_at i m)
    → Balanced (bucket_at i (fill_buckets now minutes es m))
      × ((bucket_at i (fill_buckets now minutes es m)).reqs
          ≡ (bucket_at i m).reqs + hits now minutes i es)
unfolding fill_buckets hits
fill_buckets-hits now minutes i [] m h = (h, omega arith)
fill_buckets-hits now minutes i (e ∷ es) m h =
    let step = bucket_at-count_in now minutes i e m in
    let b = bucket_at i m in
    elim (Bool-cases (hit now minutes i e)) [
      | inr miss ↦
          let same : bucket_at i (count_in now minutes e m) ≡ b = simp miss at step in
          let (balanced, count) =
            fill_buckets-hits now minutes i es (count_in now minutes e m)
              (subst Balanced (sym same) h) in
          (balanced, rw miss (count ∙ ap (λ x. x.reqs + hits now minutes i es) same))
      | inl found ↦
          let more : bucket_at i (count_in now minutes e m) ≡ count_entry e b =
            simp found at step in
          let (balanced, count) =
            fill_buckets-hits now minutes i es (count_in now minutes e m)
              (subst Balanced (sym more) (count_entry-Balanced e b h)) in
          (
            balanced,
            rw found (
                count
                ∙ ap (λ x. x.reqs + hits now minutes i es) more
                ∙ omega (arith, reqs-count_entry e b)),
          )
    ]

get_elem?-buckets_down :
    (now n i : ℕ) (m : Map ℕ Accumulator)
    → i < n
    → get_elem? (buckets_down now n m) i ≡ some (to_bucket now (n - 1 - i) m)
unfolding buckets_down
get_elem?-buckets_down now zero i m h = absurd (omega arith)
get_elem?-buckets_down now (suc n) zero m h = ap (λ k. some (to_bucket now k m)) (omega arith)
get_elem?-buckets_down now (suc n) (suc i) m h =
    get_elem?-buckets_down now n i m (omega arith)
    ∙ ap (λ k. some (to_bucket now k m)) (omega arith)

length-buckets_down : (now n : ℕ) (m : Map ℕ Accumulator) → length (buckets_down now n m) ≡ n
unfolding buckets_down
length-buckets_down now zero m = refl
length-buckets_down now (suc n) m = ap suc (length-buckets_down now n m)

-- There is a bucket for each of n minutes, and it counts the entries of its minute.
pub record Counted (now n : ℕ) (es : List LogEntry) (buckets : List TrafficBucket) : Type 0 where
  pub size : length buckets ≡ n
  pub each :
      (i : ℕ)
      → i < n
      → (b : TrafficBucket) × (get_elem? buckets i ≡ some b)
        × (b.requests ≡ hits now n (n - 1 - i) es)
        × (b.requests ≡ b.status2xx + b.status3xx + b.status4xx + b.status5xx)

-- TrafficStats answers with a bucket for each minute asked for, thirty if none is, and the bucket
-- at a position counts exactly the entries of the token whose age in whole minutes belongs to it;
-- its four classes of statuses add up to its requests.
pub traffic_stats-Counted :
    (now : ℕ) (minutes : ℤ) (token : Text) (rl : RequestLog)
    → Counted now (default_minutes minutes) (snapshot token rl) (traffic_stats now minutes token rl)
unfolding traffic_stats to_bucket
traffic_stats-Counted now minutes token rl =
    let n = default_minutes minutes in
    let es = snapshot token rl in
    let m = fill_buckets now n es [] in
    record {
      size = length-buckets_down now n m;
      each = λ i within.
          let empty : Balanced (bucket_at (n - 1 - i) []) =
            subst Balanced (sym (bucket_at-empty (n - 1 - i))) (omega arith) in
          let (balanced, count) = fill_buckets-hits now n (n - 1 - i) es [] empty in
          (
            to_bucket now (n - 1 - i) m,
            get_elem?-buckets_down now n i m within,
            count ∙ omega (arith, ap (λ b. b.reqs) (bucket_at-empty (n - 1 - i))),
            balanced,
          );
    }
