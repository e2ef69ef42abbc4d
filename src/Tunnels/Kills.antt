-- ===== src/Tunnels/Kills.antt =====
-- KillTunnelByID and the anonymous expiry of internal/server/tunnel_manager.go, in a registry whose
-- tunnels have different identifiers.
use htn_tunnel.Prelude.{
  ℕ, ◌≡◌, ◌≢◌, refl, sym, ◌∙◌, inl, inr, Bool, true, false, not, ◌&&◌, ◌||◌, ◌↔◌, drop_if,
  delete_unique, drop_none, any-find_entry, any_unique, any_nowhere, any-append, any-select,
  drop_if-drop_if, drop_if_ext, ap, some, List, [], ◌∷◌, Text, text_eq, nat_eq, text_beq_iff,
  lookup, find_entry-some, find_entry-none, values, find_entry, any, select, arith, Option-cases,
}
use htn_tunnel.Tunnels.{
  TunnelSession, TunnelManager, has_id, kill_tunnel_by_id, kill_all, to_kill, too_old,
  expire_anonymous,
}
use htn_tunnel.Tunnels.Lookups.{held}
use htn_tunnel.Tunnels.Invariant.{WellFormed, Shrinks, Shrinks-kill, Shrinks-WellFormed}

-- Different tunnels have different identifiers.
pub record UniqueIds (tm : TunnelManager) : Type 0 where
  pub http :
      (k k' : Text) (s s' : TunnelSession)
      → held k tm ≡ some s
      → held k' tm ≡ some s'
      → s.id ≡ s'.id
      → k ≡ k'
  pub tcp :
      (p p' : ℕ) (s s' : TunnelSession)
      → lookup p tm.tcp_tunnels ≡ some s
      → lookup p' tm.tcp_tunnels ≡ some s'
      → s.id ≡ s'.id
      → p ≡ p'
  pub apart :
      (k : Text) (p : ℕ) (s s' : TunnelSession)
      → held k tm ≡ some s
      → lookup p tm.tcp_tunnels ≡ some s'
      → s.id ≢ s'.id

-- What KillTunnelByID does to the two maps: the tunnel with the identifier is gone, and all others
-- stay as they were.
pub record Killed (id : Text) (tm tm' : TunnelManager) : Type 0 where
  pub http : (k : Text) → held k tm' ≡ drop_if (has_id id) (held k tm)
  pub tcp : (p : ℕ) → lookup p tm'.tcp_tunnels ≡ drop_if (has_id id) (lookup p tm.tcp_tunnels)

has_id_iff : (id : Text) (s : TunnelSession) → (has_id id s ≡ true) ↔ (s.id ≡ id)
unfolding has_id
has_id_iff id s = text_beq_iff s.id id

other_id : (id : Text) (s : TunnelSession) → s.id ≢ id → has_id id s ≡ false
other_id id s h = ground (arith, has_id_iff id s)

-- Killing by an identifier removes exactly the tunnel that has it.
pub kill-Killed :
    (id : Text) (tm : TunnelManager)
    → WellFormed tm
    → UniqueIds tm
    → Killed id tm (kill_tunnel_by_id id tm).1
unfolding kill_tunnel_by_id
kill-Killed id tm w u = elim (Option-cases (find_entry (has_id id) tm.http_tunnels)) [
  | inr ((sub, s), e) ↦
      let (found, same) = find_entry-some (has_id id) tm.http_tunnels sub s w.http_distinct e in
      let s_id = (has_id_iff id s).0 same in
      rw (e, kill_tunnel_by_id)
        (record {
          http =
              delete_unique (has_id id) tm.http_tunnels sub s found same
                λ j t h p. u.http j sub t s h found ((has_id_iff id t).0 p ∙ sym s_id);
          tcp =
              drop_none (has_id id) tm.tcp_tunnels
                λ p t h. other_id id t (λ q. u.apart sub p s t found h (s_id ∙ sym q));
        })
  | inl e ↦ elim (Option-cases (find_entry (has_id id) tm.tcp_tunnels)) [
    | inr ((port, s), e') ↦
        let (found, same) = find_entry-some (has_id id) tm.tcp_tunnels port s w.tcp_distinct e' in
        let s_id = (has_id_iff id s).0 same in
        rw (e, e', kill_tunnel_by_id)
          (record {
            http =
                drop_none (has_id id) tm.http_tunnels
                  λ k t h. find_entry-none (has_id id) tm.http_tunnels k t e h;
            tcp =
                delete_unique (has_id id) tm.tcp_tunnels port s found same
                  λ j t h p. u.tcp j port t s h found ((has_id_iff id t).0 p ∙ sym s_id);
          })
    | inl e' ↦
        rw (e, e', kill_tunnel_by_id)
          (record {
            http =
                drop_none (has_id id) tm.http_tunnels
                  λ k t h. find_entry-none (has_id id) tm.http_tunnels k t e h;
            tcp =
                drop_none (has_id id) tm.tcp_tunnels
                  λ p t h. find_entry-none (has_id id) tm.tcp_tunnels p t e' h;
          })
  ]
]

-- It answers true exactly when a tunnel has the identifier.
pub kill-found :
    (id : Text) (tm : TunnelManager)
    → (kill_tunnel_by_id id tm).0
      ≡ (any (has_id id) (values tm.http_tunnels) || any (has_id id) (values tm.tcp_tunnels))
unfolding kill_tunnel_by_id
kill-found id tm =
    ground
      (arith, any-find_entry (has_id id) tm.http_tunnels, any-find_entry (has_id id) tm.tcp_tunnels)

Shrinks-UniqueIds : {tm tm' : TunnelManager} → Shrinks tm tm' → UniqueIds tm → UniqueIds tm'
Shrinks-UniqueIds r u = record {
  http = λ k k' s s' h h'. u.http k k' s s' (r.http k s h) (r.http k' s' h');
  tcp = λ p p' s s' h h'. u.tcp p p' s s' (r.tcp p s h) (r.tcp p' s' h');
  apart = λ k p s s' h h'. u.apart k p s s' (r.http k s h) (r.tcp p s' h');
}

-- s.ID is among the identifiers of the list.
abbrev listed : List TunnelSession → TunnelSession → Bool
listed ss s = any (λ t. has_id t.id s) ss

pub record AllKilled (ss : List TunnelSession) (tm tm' : TunnelManager) : Type 0 where
  pub http : (k : Text) → held k tm' ≡ drop_if (listed ss) (held k tm)
  pub tcp : (p : ℕ) → lookup p tm'.tcp_tunnels ≡ drop_if (listed ss) (lookup p tm.tcp_tunnels)

kill_all-AllKilled :
    (ss : List TunnelSession) (tm : TunnelManager)
    → WellFormed tm
    → UniqueIds tm
    → AllKilled ss tm (kill_all ss tm).0
unfolding kill_all any
kill_all-AllKilled [] tm w u = record { http = λ k. ground arith; tcp = λ p. ground arith }
kill_all-AllKilled (s ∷ ss) tm w u =
    let r = Shrinks-kill s.id tm in
    let one = kill-Killed s.id tm w u in
    let tm₁ = (kill_tunnel_by_id s.id tm).1 in
    let rest = kill_all-AllKilled ss tm₁ (Shrinks-WellFormed r w) (Shrinks-UniqueIds r u) in
    record {
      http = λ k.
          rest.http k
          ∙ ap (drop_if (listed ss)) (one.http k)
          ∙ drop_if-drop_if (has_id s.id) (listed ss) (held k tm);
      tcp = λ p.
          rest.tcp p
          ∙ ap (drop_if (listed ss)) (one.tcp p)
          ∙ drop_if-drop_if (has_id s.id) (listed ss) (lookup p tm.tcp_tunnels);
    }

-- What a tick of the anonymous expiry does to the two maps: the anonymous tunnels past the limit are
-- gone, but for reserved ones, and all others stay as they were.
pub record Expired (now ttl : ℕ) (tm tm' : TunnelManager) : Type 0 where
  pub http :
      (k : Text) → held k tm' ≡ drop_if (λ s. too_old now ttl s && not s.reserved) (held k tm)
  pub tcp : (p : ℕ) → lookup p tm'.tcp_tunnels ≡ drop_if (too_old now ttl) (lookup p tm.tcp_tunnels)

module _ (now ttl : ℕ) (tm : TunnelManager) (w : WellFormed tm) (u : UniqueIds tm) where
  abbrev old_http : TunnelSession → Bool
  old_http s = too_old now ttl s && not s.reserved

  listed_or :
      (s : TunnelSession)
      → listed (to_kill now ttl tm) s ≡ (
          any (λ t. old_http t && has_id t.id s) (values tm.http_tunnels)
          || any (λ t. too_old now ttl t && has_id t.id s) (values tm.tcp_tunnels))
  unfolding to_kill
  listed_or s = rw (
    any-append (λ (t : TunnelSession). has_id t.id s) (select old_http (values tm.http_tunnels)),
    any-select (λ (t : TunnelSession). has_id t.id s) old_http (values tm.http_tunnels),
    any-select (λ (t : TunnelSession). has_id t.id s) (too_old now ttl) (values tm.tcp_tunnels),
  )

  listed_http :
      (k : Text) (s : TunnelSession)
      → held k tm ≡ some s
      → listed (to_kill now ttl tm) s ≡ old_http s
  listed_http k s h =
      let one =
        any_unique old_http (λ t. has_id t.id s) tm.http_tunnels k s w.http_distinct h
          ((has_id_iff s.id s).1 refl)
          λ j t here same. u.http j k t s here h (sym ((has_id_iff t.id s).0 same)) in
      let other =
        any_nowhere (too_old now ttl) (λ t. has_id t.id s) tm.tcp_tunnels w.tcp_distinct
          λ p t here. other_id t.id s (u.apart k p s t h here) in
      listed_or s ∙ ground (arith, one, other)

  listed_tcp :
      (p : ℕ) (s : TunnelSession)
      → lookup p tm.tcp_tunnels ≡ some s
      → listed (to_kill now ttl tm) s ≡ too_old now ttl s
  listed_tcp p s h =
      let one =
        any_unique (too_old now ttl) (λ t. has_id t.id s) tm.tcp_tunnels p s w.tcp_distinct h
          ((has_id_iff s.id s).1 refl)
          λ j t here same. u.tcp j p t s here h (sym ((has_id_iff t.id s).0 same)) in
      let other =
        any_nowhere old_http (λ t. has_id t.id s) tm.http_tunnels w.http_distinct
          λ k t here. other_id t.id s (λ q. u.apart k p t s here h (sym q)) in
      listed_or s ∙ ground (arith, one, other)

-- A tick of the anonymous expiry removes exactly the anonymous tunnels that are older than the limit;
-- a reserved HTTP tunnel is left to the reaper.
pub expire-Expired :
    (now ttl : ℕ) (tm : TunnelManager)
    → WellFormed tm
    → UniqueIds tm
    → Expired now ttl tm (expire_anonymous now ttl tm).0
unfolding expire_anonymous
expire-Expired now ttl tm w u =
    let all = kill_all-AllKilled (to_kill now ttl tm) tm w u in
    record {
      http = λ k. all.http k ∙ drop_if_ext _ _ (held k tm) (listed_http now ttl tm w u k);
      tcp =
          λ p. all.tcp p ∙ drop_if_ext _ _ (lookup p tm.tcp_tunnels) (listed_tcp now ttl tm w u p);
    }
