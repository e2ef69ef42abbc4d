-- ===== src/Cli/Choices.antt =====
-- Which port and subdomain cmd/htn-tunnel/main.go asks the server for.
use htn_tunnel.Prelude.{
  ℕ, zero, suc, ◌+◌, ◌-◌, ◌≡◌, ◌≢◌, ◌<◌, refl, subst, ap, true, false, ◌&&◌, Option, none, some,
  List, [], ◌∷◌, ◌++◌, length, get_or, any, leb, nat_beq, if◌then◌else◌, Text, text_eq, text_beq,
  text_beq_iff, ◌==◌, to_lower, last_index, Without, ℤ, pos, arith, Bool-cases, Option-cases, inl,
  inr, beq_refl,
}
use htn_tunnel.Cli.{
  Answers, split_colon, sub_part, parse_port_subdomain, chosen, pick_subdomain, subdomain_accepted,
  handle_subdomain_error, resolve_subdomain,
}

split_colon-append :
    (port sub : Text) → Without b':' port → split_colon (port ++ b':' ∷ sub) ≡ (port, some sub)
unfolding split_colon last_index
split_colon-append [] sub free = refl
split_colon-append (c ∷ port) sub free = ground (arith, split_colon-append port sub)

-- An argument that is a port, a colon and a subdomain is read as the port and the subdomain in lower
-- case, if the port's text is a number from 1 to 65535, and refused if it is a number out of that
-- range.
pub parse_port_subdomain-append :
    (atoi : Text → Option ℤ) (port sub : Text) (n : ℕ)
    → Without b':' port
    → atoi port ≡ some (pos n)
    → sub ≢ []
    → parse_port_subdomain atoi (port ++ b':' ∷ sub)
      ≡ (if leb 1 n && leb n 65535 then some (pos n, to_lower sub) else none)
unfolding parse_port_subdomain sub_part
parse_port_subdomain-append atoi port sub n free number named =
    let differ : text_beq sub [] ≡ false = ground (arith, text_beq_iff sub []) in
    let lower : sub_part (some sub) ≡ to_lower sub = rw (sub_part, differ) refl in
    simp (parse_port_subdomain, split_colon-append port sub free, number, lower) (ground arith)

-- The subdomain belongs to the account.
abbrev pub Owned : List Text → Text → Type 0
Owned subs sub = any (λ s. s == sub) subs ≡ true

-- What a command with a token may ask for: a random subdomain, one that the account answered at
-- that time, or the one wanted if the account could not be read.
pub data Allowed (wanted : Text) (a : Answers) : Text → Type 0 where
  random : Allowed wanted a []
  unchecked : a.first ≡ none → Allowed wanted a wanted
  listed_first :
      (subs : List Text) (sub : Text) → a.first ≡ some subs → Owned subs sub → Allowed wanted a sub
  listed_second :
      (subs : List Text) (sub : Text) → a.second ≡ some subs → Owned subs sub → Allowed wanted a sub

get_or-Owned : (subs : List Text) (i : ℕ) → i < length subs → Owned subs (get_or subs i [])
unfolding any
get_or-Owned [] i h = absurd (omega arith)
get_or-Owned (s ∷ subs) zero h = rw (beq_refl s) refl
get_or-Owned (s ∷ subs) (suc i) h = ground (arith, get_or-Owned subs i)

-- A choice from a list is allowed, if what the list holds is.
chosen-Allowed :
    (wanted : Text) (a : Answers) (subs : List Text) (choice : ℕ)
    → ((sub : Text) → Owned subs sub → Allowed wanted a sub)
    → Allowed wanted a (chosen subs choice)
unfolding chosen
chosen-Allowed wanted a subs choice listed =
    elim (Bool-cases (leb 1 choice && leb choice (length subs))) [
      | inl inside ↦ rw (chosen, inside) (listed _ (get_or-Owned subs (choice - 1) (ground arith)))
      | inr outside ↦ rw (chosen, outside) random
    ]

moved-Allowed :
    (wanted : Text) (a : Answers) (x sub : Text)
    → Allowed wanted a x
    → some x ≡ some sub
    → Allowed wanted a sub
moved-Allowed wanted a x sub ok h =
    subst (λ y. Allowed wanted a y) (ap (λ o. elim o [ none ↦ x | some y ↦ y ]) h) ok

pick-Allowed : (wanted : Text) (a : Answers) → Allowed wanted a (pick_subdomain a.first a.choice)
unfolding pick_subdomain
pick-Allowed wanted a = elim (Option-cases a.first) [
  | inl unread ↦ simp (unread, pick_subdomain) random
  | inr (subs, read) ↦ elim (Bool-cases (nat_beq (length subs) 0)) [
    | inl empty ↦ simp (read, empty, pick_subdomain) random
    | inr some_left ↦
        simp (read, some_left, pick_subdomain)
          (chosen-Allowed wanted a subs a.choice (λ sub own. listed_first subs sub read own))
  ]
]

error-Allowed :
    (wanted : Text) (a : Answers) (sub : Text)
    → handle_subdomain_error a.second a.choice ≡ some sub
    → Allowed wanted a sub
unfolding handle_subdomain_error
error-Allowed wanted a sub = elim (Option-cases a.second) [
  | inl unread ↦ simp (unread, handle_subdomain_error) (λ h. absurd (ground (arith, h)))
  | inr (subs, read) ↦ elim (Bool-cases (nat_beq (length subs) 0)) [
    | inl empty ↦ simp (read, empty, handle_subdomain_error) (λ h. absurd (ground (arith, h)))
    | inr some_left ↦ elim (Bool-cases (nat_beq a.choice (length subs + 2))) [
      | inl cancelled ↦
          simp (read, some_left, cancelled, handle_subdomain_error)
            (λ h. absurd (ground (arith, h)))
      | inr went_on ↦
          simp (read, some_left, went_on, handle_subdomain_error)
            (moved-Allowed wanted a (chosen subs a.choice) sub
              (chosen-Allowed wanted a subs a.choice (λ s own. listed_second subs s read own)))
    ]
  ]
]

accepted-Allowed :
    (wanted : Text) (a : Answers)
    → subdomain_accepted a.first wanted ≡ true
    → Allowed wanted a wanted
unfolding subdomain_accepted
accepted-Allowed wanted a accepted = elim (Option-cases a.first) [
  | inl unread ↦ unchecked unread
  | inr (subs, read) ↦ listed_first subs wanted read (simp (read, subdomain_accepted) at accepted)
]

-- A command with a token asks for no subdomain but a random one, one of the account's, or the one
-- wanted if the account cannot be read.
pub resolve_subdomain-Allowed :
    (token wanted : Text) (a : Answers) (sub : Text)
    → token ≢ []
    → resolve_subdomain token wanted a ≡ some sub
    → Allowed wanted a sub
unfolding resolve_subdomain
resolve_subdomain-Allowed token wanted a sub logged_in h =
    let given : text_beq token [] ≡ false = ground (arith, text_beq_iff token []) in
    elim (Bool-cases (text_beq wanted [])) [
      | inl unnamed ↦
          moved-Allowed wanted a _ sub (pick-Allowed wanted a)
            (simp (given, unnamed, resolve_subdomain) at h)
      | inr named ↦ elim (Bool-cases (subdomain_accepted a.first wanted)) [
        | inl accepted ↦
            moved-Allowed wanted a wanted sub (accepted-Allowed wanted a accepted)
              (simp (given, named, accepted, resolve_subdomain) at h)
        | inr foreign ↦
            error-Allowed wanted a sub (simp (given, named, foreign, resolve_subdomain) at h)
      ]
    ]
