-- ===== src/Subdomain/Labels.antt =====
-- Which labels ValidateSubdomain of internal/server/tunnel_manager.go accepts.
use htn_tunnel.Prelude.{
  all, List, length, ℕ, zero, suc, ◌+◌, ◌%◌, ◌≤◌, ◌<◌, ◌≡◌, ◌↔◌, ◌≢◌, refl, ap, Bool, true, false,
  not, none, List, [], ◌∷◌, length, get_or, Text, arith, Bool-cases, inl, inr, nat_beq, text_beq,
  text_beq_iff, any, all,
}
use htn_tunnel.Subdomain.{
  is_alnum, is_label_char, re_rest, subdomain_re, is_reserved, reserved_subdomains,
  validate_subdomain, chars, random_subdomain,
}

-- Every character is a lowercase letter, a digit or a hyphen.
abbrev pub AllLabelChars : Text → Type 0
AllLabelChars [] = Unit {0}
AllLabelChars (c ∷ s) = (is_label_char c ≡ true) × AllLabelChars s

abbrev pub StartsAlnum : Text → Type 0
StartsAlnum [] = ⊥
StartsAlnum (c ∷ s) = is_alnum c ≡ true

abbrev pub EndsAlnum : Text → Type 0
EndsAlnum [] = ⊥
EndsAlnum (c ∷ []) = is_alnum c ≡ true
EndsAlnum (c ∷ d ∷ s) = EndsAlnum (d ∷ s)

-- A label that a client may have.
pub record IsLabel (s : Text) : Type 0 where
  pub at_least : 3 ≤ length s
  pub at_most : length s ≤ 63
  pub chars : AllLabelChars s
  pub starts : StartsAlnum s
  pub ends : EndsAlnum s
  pub free : is_reserved s ≡ false

re_rest_sound :
    (n : ℕ) (s : Text)
    → re_rest n s ≡ true
    → AllLabelChars s × EndsAlnum s × (2 ≤ n + length s) × (n + length s ≤ 62)
unfolding re_rest is_label_char
re_rest_sound n [] h = ground arith
re_rest_sound n (c ∷ []) h = ground arith
re_rest_sound n (c ∷ d ∷ s) h = ground (arith, re_rest_sound (suc n) (d ∷ s))

re_rest_complete :
    (n : ℕ) (s : Text)
    → AllLabelChars s
    → EndsAlnum s
    → 2 ≤ n + length s
    → n + length s ≤ 62
    → re_rest n s ≡ true
unfolding re_rest
re_rest_complete n [] chars ends lo hi = elim ends [ ]
re_rest_complete n (c ∷ []) chars ends lo hi = ground arith
re_rest_complete n (c ∷ d ∷ s) chars ends lo hi =
    ground (arith, re_rest_complete (suc n) (d ∷ s) chars.1 ends)

subdomain_re_sound :
    (s : Text) → subdomain_re s ≡ true → AllLabelChars s × StartsAlnum s × EndsAlnum s
unfolding subdomain_re is_label_char
subdomain_re_sound [] h = cc
subdomain_re_sound (c ∷ []) h = ground (arith, re_rest_sound 0 [])
subdomain_re_sound (c ∷ d ∷ s) h = ground (arith, re_rest_sound 0 (d ∷ s))

subdomain_re_complete :
    (s : Text)
    → AllLabelChars s
    → StartsAlnum s
    → EndsAlnum s
    → 3 ≤ length s
    → length s ≤ 63
    → subdomain_re s ≡ true
unfolding subdomain_re
subdomain_re_complete [] all starts ends lo hi = elim starts [ ]
subdomain_re_complete (c ∷ []) all starts ends lo hi = absurd (omega arith)
subdomain_re_complete (c ∷ d ∷ s) all starts ends lo hi =
    rw starts (re_rest_complete 0 (d ∷ s) all.1 ends (omega arith) (omega arith))

validate_sound : (s : Text) → validate_subdomain s ≡ none → IsLabel s
unfolding validate_subdomain
validate_sound s h =
    let re : subdomain_re s ≡ true = ground arith in
    let (all, starts, ends) = subdomain_re_sound s re in
    record {
      at_least = ground arith;
      at_most = ground arith;
      chars = all;
      starts = starts;
      ends = ends;
      free = ground arith;
    }

validate_complete : (s : Text) → IsLabel s → validate_subdomain s ≡ none
unfolding validate_subdomain
validate_complete s l =
    let re = subdomain_re_complete s l.chars l.starts l.ends l.at_least l.at_most in
    ground (arith, l.free)

-- ValidateSubdomain accepts exactly the labels of 3 to 63 lowercase letters, digits and hyphens
-- with no hyphen at either end that are not reserved.
pub validate_subdomain_iff : (s : Text) → (validate_subdomain s ≡ none) ↔ IsLabel s
validate_subdomain_iff s = (validate_sound s, validate_complete s)

-- What holds of every element holds of an element at an index within the list.
all-get_or :
    {A : Type 0} (test : A → Bool) (xs : List A) (i : ℕ) (d : A)
    → all test xs ≡ true
    → i < length xs
    → test (get_or xs i d) ≡ true
unfolding all
all-get_or test [] i d every within = absurd (omega arith)
all-get_or test (x ∷ xs) zero d every within = ground arith
all-get_or test (x ∷ xs) (suc i) d every within =
    all-get_or test xs i d (ground arith) (omega arith)

chars_alnum : all is_alnum chars ≡ true
unfolding all is_alnum
chars_alnum = refl

draw_alnum : (k : ℕ) → is_alnum (get_or chars (k % 36) 0) ≡ true
draw_alnum k = all-get_or is_alnum chars (k % 36) 0 chars_alnum (omega arith)

is_label_char_of_alnum : (c : ℕ) → is_alnum c ≡ true → is_label_char c ≡ true
unfolding is_label_char
is_label_char_of_alnum c h = ground arith

text_beq-length : (a b : Text) → length a ≢ length b → text_beq a b ≡ false
text_beq-length a b h = elim (Bool-cases (text_beq a b)) [
  | inl same ↦ absurd (h (ap length ((text_beq_iff a b).0 same)))
  | inr differ ↦ differ
]

none_of_length :
    (s : Text) (rs : List Text)
    → all (λ r. not (nat_beq (length r) (length s))) rs ≡ true
    → any (λ r. text_beq r s) rs ≡ false
unfolding any all
none_of_length s [] h = refl
none_of_length s (r ∷ rs) h =
    rw (text_beq-length r s (ground arith)) (none_of_length s rs (ground arith))

eight_free : (s : Text) → length s ≡ 8 → is_reserved s ≡ false
unfolding is_reserved all
eight_free s h = none_of_length s reserved_subdomains (rw h)

-- A random subdomain is valid, whatever numbers are drawn: it has eight letters or digits, and no
-- reserved name is that long.
pub validate-random_subdomain : (intn : ℕ → ℕ) → validate_subdomain (random_subdomain intn) ≡ none
unfolding random_subdomain
validate-random_subdomain intn = validate_complete _ (record {
  at_least = omega arith;
  at_most = omega arith;
  chars = all;
  starts = draw_alnum (intn 0);
  ends = draw_alnum (intn 7);
  free = eight_free _ (omega arith);
})
  where
    good : (i : ℕ) → is_label_char (get_or chars (intn i % 36) 0) ≡ true
    good i = is_label_char_of_alnum _ (draw_alnum (intn i))

    all : AllLabelChars (random_subdomain intn)
    all = (good 0, (good 1, (good 2, (good 3, (good 4, (good 5, (good 6, (good 7, tt))))))))
