-- ===== src/Tunnels/Allocation.antt =====
-- RegisterTCP of internal/server/tunnel_manager.go: the choice of a port.
-- `intn i` is the number that attempt i draws, `listen i port` the listener that net.Listen gives
-- or refuses, `now i` the clock. The registry is locked twice in an attempt; `others` are the steps
-- of other goroutines before the first lock (at 2 * i) and between the two (at 2 * i + 1).
use htn_tunnel.Prelude.{
  ℕ, zero, suc, ◌+◌, ◌-◌, ◌*◌, ◌%◌, ◌≤◌, ◌<◌, ◌≡◌, ◌≢◌, refl, subst, Option, none, some, List, [],
  ◌∷◌, ◌++◌, if◌then◌else◌, ltb, lookup, insert, nat_eq, arith, Option-cases, Bool-cases, inl, inr,
}
use native.Mathlib.Nat.{add-zero}
use htn_tunnel.Tunnels.{TunnelSession, TunnelManager, Effect, close_listener}
use htn_tunnel.Tunnels.Calls.{commit_tcp, Call, run}

pub data TcpOutcome : Type 0 where
  allocated : ℕ → TcpOutcome
  exhausted : TcpOutcome
  -- rand.Intn panics on an empty range
  panicked : TcpOutcome

abbrev pub max_attempts : ℕ
max_attempts = 100

-- The session that RegisterTCP enters.
abbrev pub listening : ℕ → ℕ → ℕ → TunnelSession → TunnelSession
listening port ln t s = record s { port = port; listener = some ln; created_at = t }

-- The port of a draw.
unfoldable pub drawn : ℕ → TunnelManager → ℕ
drawn n tm = tm.port_min + n % (tm.port_max - tm.port_min + 1)

-- How an attempt ends: on to the next one, with the listeners that it closed; with the port; or in
-- a panic.
pub data Attempt : Type 0 where
  retry : TunnelManager → List Effect → Attempt
  done : ℕ → TunnelManager → Attempt
  panic : TunnelManager → Attempt

module _ (intn : ℕ → ℕ) (listen : ℕ → ℕ → Option ℕ) (now : ℕ → ℕ) (others : ℕ → List Call) where
  -- One round of the loop.
  unfoldable pub attempt : ℕ → TunnelSession → TunnelManager → Attempt
  unfolding commit_tcp
  attempt i s tm₀ =
      let tm = run (others (2 * i)) tm₀ in
      let port = drawn (intn i) tm in
      if ltb tm.port_max tm.port_min then panic tm else elim (lookup port tm.tcp_tunnels) [
        | some _ ↦ retry tm []
        | none ↦ elim (listen i port) [
          | none ↦ retry tm []
          | some ln ↦
              let tm₁ = run (others (2 * i + 1)) tm in
              let (stored, tm₂) = commit_tcp port (listening port ln (now i) s) tm₁ in
              if stored then done port tm₂ else retry tm₂ (close_listener ln ∷ [])
        ]
      ]

  -- The loop with `left` attempts left, the next of which is attempt i.
  unfoldable pub register_tcp_from :
      ℕ → ℕ → TunnelSession → TunnelManager → TcpOutcome × TunnelManager × List Effect
  register_tcp_from zero i s tm = (exhausted, tm, [])
  register_tcp_from (suc left) i s tm = elim (attempt i s tm) [
    | panic tm' ↦ (panicked, tm', [])
    | done port tm' ↦ (allocated port, tm', [])
    | retry tm' closed ↦
        let (outcome, tm'', closed') = register_tcp_from left (suc i) s tm' in
        (outcome, tm'', closed ++ closed')
  ]

  -- RegisterTCP
  unfoldable pub register_tcp :
      TunnelSession → TunnelManager → TcpOutcome × TunnelManager × List Effect
  unfolding register_tcp_from
  register_tcp s tm = register_tcp_from max_attempts 0 s tm

-- The range of ports never changes.
abbrev pub SameRange : TunnelManager → TunnelManager → Type 0
SameRange tm tm' = (tm'.port_min ≡ tm.port_min) × (tm'.port_max ≡ tm.port_max)

-- What a successful allocation of `port` has done: it entered a listening session under a port of
-- the range that was free, in the registry `before` that other goroutines had left.
pub record Allocated (port : ℕ) (s : TunnelSession) (tm tm' : TunnelManager) : Type 0 where
  pub before : TunnelManager
  pub session : TunnelSession
  pub above : tm.port_min ≤ port
  pub below : port ≤ tm.port_max
  pub was_free : lookup port before.tcp_tunnels ≡ none
  pub entered : tm' ≡ record before { tcp_tunnels = insert port session before.tcp_tunnels }
  pub own_port : session.port ≡ port
  pub own_listener : session.listener ≢ none
  pub own_token : session.token ≡ s.token

-- The registry with a session entered under a port.
abbrev entry : ℕ → TunnelSession → TunnelManager → TunnelManager
entry port s tm = record tm { tcp_tunnels = insert port s tm.tcp_tunnels }

-- What an attempt leaves, however it ends.
abbrev AttemptSound : TunnelSession → TunnelManager → Attempt → Type 0
AttemptSound s tm (retry tm' closed) = SameRange tm tm'
AttemptSound s tm (done port tm') = Allocated port s tm tm'
AttemptSound s tm (panic tm') = Unit {0}

abbrev Sound : TunnelSession → TunnelManager → TcpOutcome × TunnelManager × List Effect → Type 0
Sound s tm r = (port : ℕ) → r.0 ≡ allocated port → Allocated port s tm r.1

-- The registry is left to RegisterTCP alone.
abbrev pub alone : ℕ → List Call
alone _ = []

module _ (intn : ℕ → ℕ) (listen : ℕ → ℕ → Option ℕ) (now : ℕ → ℕ) where
  -- Attempt i draws a free port on which net.Listen succeeds.
  abbrev pub Lucky : TunnelManager → ℕ → Type 0
  Lucky tm i =
      (lookup (drawn (intn i) tm) tm.tcp_tunnels ≡ none) × (listen i (drawn (intn i) tm) ≢ none)

  abbrev AttemptAlone : ℕ → TunnelManager → Attempt → Type 0
  AttemptAlone i tm (retry tm' closed) = (tm' ≡ tm) × (¬ Lucky tm i)
  AttemptAlone i tm (done port tm') = Unit {0}
  AttemptAlone i tm (panic tm') = tm.port_max < tm.port_min

  attempt_alone :
      (i : ℕ) (s : TunnelSession) (tm : TunnelManager)
      → AttemptAlone i tm (attempt intn listen now alone i s tm)
  unfolding attempt run
  attempt_alone i s tm =
      let port = drawn (intn i) tm in
      elim (Bool-cases (ltb tm.port_max tm.port_min)) [
        | inl empty ↦ rw (empty, attempt) (ground arith)
        | inr some_port ↦ elim (Option-cases (lookup port tm.tcp_tunnels)) [
          | inr (_, taken) ↦ rw (some_port, taken, attempt) (refl, λ l. ground arith)
          | inl free ↦ elim (Option-cases (listen i port)) [
            | inl busy ↦ rw (some_port, free, busy, attempt) (refl, λ l. l.1 busy)
            | inr (ln, up) ↦ rw (some_port, free, up, free, attempt, commit_tcp) tt
          ]
        ]
      ]

  register_tcp_from_succeeds :
      (left i k : ℕ) (s : TunnelSession) (tm : TunnelManager)
      → tm.port_min ≤ tm.port_max
      → Lucky tm (i + k)
      → k < left
      → (port : ℕ) × ((register_tcp_from intn listen now alone left i s tm).0 ≡ allocated port)
  unfolding register_tcp_from
  register_tcp_from_succeeds zero i k s tm range lucky h = absurd (omega arith)
  register_tcp_from_succeeds (suc left) i k s tm range lucky h =
      go k lucky h (attempt intn listen now alone i s tm) refl (attempt_alone i s tm)
        (λ j l lt. register_tcp_from_succeeds left (suc i) j s tm range l lt)
    where
      go :
          (j : ℕ)
          → Lucky tm (i + j)
          → j < suc left
          → (a : Attempt) → attempt intn listen now alone i s tm ≡ a
          → AttemptAlone i tm a
          → ((m : ℕ)
              → Lucky tm (suc i + m)
              → m < left
              → (port : ℕ) × ((register_tcp_from intn listen now alone left (suc i) s tm).0
                  ≡ allocated port))
          → (port : ℕ) × ((register_tcp_from intn listen now alone (suc left) i s tm).0
              ≡ allocated port)
      go j l lt (panic tm') e bad rest = absurd (omega arith)
      go j l lt (done port tm') e bad rest = (port, rw (e, register_tcp_from))
      go zero l lt (retry tm' closed) e bad rest = absurd (bad.1 (subst (Lucky tm) (add-zero i) l))
      go (suc j) l lt (retry tm' closed) e bad rest =
          let (port, found) = rest j (subst (Lucky tm) (omega arith) l) (omega arith) in
          (port, rw (e, bad.0, register_tcp_from) found)

  -- With no other goroutine at work and a range that is not empty, RegisterTCP returns a port if
  -- one of its hundred attempts draws a free port on which the system lets it listen.
  pub register_tcp_succeeds :
      (i : ℕ) (s : TunnelSession) (tm : TunnelManager)
      → tm.port_min ≤ tm.port_max
      → Lucky tm i
      → i < max_attempts
      → (port : ℕ) × ((register_tcp intn listen now alone s tm).0 ≡ allocated port)
  unfolding register_tcp
  register_tcp_succeeds i s tm range lucky h =
      register_tcp_from_succeeds max_attempts 0 i s tm range (subst (Lucky tm) (omega arith) lucky)
        h
