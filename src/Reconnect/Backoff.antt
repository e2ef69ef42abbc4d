-- ===== src/Reconnect/Backoff.antt =====
-- The delays and the subdomain of internal/client/reconnect.go.
use htn_tunnel.Prelude.{
  ℕ, ◌≡◌, ◌≤◌, refl, true, none, List, [], ◌∷◌, ◌++◌, length, length-append, ltb, Text, text_eq,
  arith,
}
use htn_tunnel.Subdomain.{validate_subdomain, is_label_char, is_alnum}
use htn_tunnel.Subdomain.Labels.{AllLabelChars, validate_subdomain_iff}
use htn_tunnel.Reconnect.{
  base_backoff, max_backoff, until_dot, scheme, extract_subdomain_from_url, Reconnector, Round,
  connect_fails, request_fails, served, back_off, run_round, run_rounds,
}

-- The state keeps to the limits of the backoff.
abbrev pub Bounded : Reconnector → Type 0
Bounded r = (base_backoff ≤ r.backoff) × (r.backoff ≤ max_backoff)

abbrev pub AllBounded : List ℕ → Type 0
AllBounded [] = Unit {0}
AllBounded (t ∷ ts) = ((base_backoff ≤ t) × (t ≤ max_backoff)) × AllBounded ts

run_round-Bounded : (round : Round) (r : Reconnector) → Bounded r → Bounded (run_round round r).0
unfolding run_round back_off
run_round-Bounded connect_fails r b = ground (arith, b)
run_round-Bounded request_fails r b = ground (arith, b)
run_round-Bounded (served url) r b = (omega arith, omega arith)

-- Whatever happens, every delay between two attempts is at least a second and at most a minute.
pub run_rounds-AllBounded :
    (rounds : List Round) (r : Reconnector) → Bounded r → AllBounded (run_rounds rounds r).1
unfolding run_rounds run_round back_off
run_rounds-AllBounded [] r b = tt
run_rounds-AllBounded (connect_fails ∷ rounds) r b = (
  b,
  run_rounds-AllBounded rounds (run_round connect_fails r).0 (run_round-Bounded connect_fails r b),
)
run_rounds-AllBounded (request_fails ∷ rounds) r b = (
  b,
  run_rounds-AllBounded rounds (run_round request_fails r).0 (run_round-Bounded request_fails r b),
)
run_rounds-AllBounded (served url ∷ rounds) r b =
    run_rounds-AllBounded rounds (run_round (served url) r).0 (run_round-Bounded (served url) r b)

until_dot-append : (s rest : Text) → AllLabelChars s → until_dot (s ++ 46 ∷ rest) ≡ s
unfolding until_dot is_label_char is_alnum
until_dot-append [] rest label = refl
until_dot-append (c ∷ s) rest label =
    let rest_eq = until_dot-append s rest label.1 in ground (arith, label.0)

-- The client reads back the subdomain that the server assigned from the URL of its answer, and so
-- asks for the same one when it reconnects: the URL is https, the subdomain valid, a dot, the domain.
pub extract_subdomain_from_url-label :
    (sub domain : Text)
    → validate_subdomain sub ≡ none
    → extract_subdomain_from_url (scheme ++ (sub ++ 46 ∷ domain)) ≡ sub
unfolding extract_subdomain_from_url
extract_subdomain_from_url-label sub domain valid =
    let label = (validate_subdomain_iff sub).0 valid in
    let long : ltb (length scheme) (length (scheme ++ (sub ++ 46 ∷ domain))) ≡ true =
      ground (arith, length-append sub (46 ∷ domain)) in
    rw (extract_subdomain_from_url, long) (until_dot-append sub domain label.chars)
