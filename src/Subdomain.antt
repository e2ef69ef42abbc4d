-- ===== src/Subdomain.antt =====
-- Subdomain labels: the first part of internal/server/tunnel_manager.go.
-- The regular expression `^[a-z0-9][a-z0-9-]{1,61}[a-z0-9]$` is the recursion `subdomain_re`;
-- the random numbers of math/rand are an argument.
pub mod Labels
use htn_tunnel.Prelude.{
  ℕ, zero, suc, ◌%◌, Bool, true, false, not, ◌&&◌, ◌||◌, Option, none, some, List, [], ◌∷◌, map,
  length, get_or, ltb, leb, nat_beq, if◌then◌else◌, Text, str, ◌==◌, any, text_eq,
}

pub data LabelError : Type 0 where
  bad_length bad_format reserved_name : LabelError

-- [a-z0-9]
unfoldable pub is_alnum : ℕ → Bool
is_alnum c = leb b'a' c && leb c b'z' || leb b'0' c && leb c b'9'

-- [a-z0-9-]
unfoldable pub is_label_char : ℕ → Bool
unfolding is_alnum
is_label_char c = is_alnum c || nat_beq c b'-'

-- [a-z0-9-]{1,61}[a-z0-9]$ with n characters of the middle read.
unfoldable pub re_rest : ℕ → Text → Bool
re_rest n [] = false
re_rest n (c ∷ []) = is_alnum c && leb 1 n && leb n 61
re_rest n (c ∷ d ∷ s) = is_label_char c && re_rest (suc n) (d ∷ s)

unfoldable pub subdomain_re : Text → Bool
subdomain_re [] = false
subdomain_re (c ∷ s) = is_alnum c && re_rest 0 s

abbrev pub reserved_subdomains : List Text
reserved_subdomains =
    str "www"
    ∷ str "api"
    ∷ str "admin"
    ∷ str "mail"
    ∷ str "ftp"
    ∷ str "localhost"
    ∷ str "tunnel"
    ∷ str "dashboard"
    ∷ []

-- reservedSubdomains[sub]
unfoldable pub is_reserved : Text → Bool
unfolding any
is_reserved sub = any (λ r. r == sub) reserved_subdomains

-- ValidateSubdomain: `none` is the nil error.
unfoldable pub validate_subdomain : Text → Option LabelError
validate_subdomain sub =
    if ltb (length sub) 3 || ltb 63 (length sub)
    then some bad_length
    else if not (subdomain_re sub)
    then some bad_format
    else if is_reserved sub
    then some reserved_name
    else none

abbrev pub chars : Text
chars = str "abcdefghijklmnopqrstuvwxyz0123456789"

-- RandomSubdomain, on the eight draws of rand.Intn(len(chars)).
unfoldable pub random_subdomain : (ℕ → ℕ) → Text
random_subdomain intn =
    map (λ i. get_or chars (intn i % length chars) 0) (0 ∷ 1 ∷ 2 ∷ 3 ∷ 4 ∷ 5 ∷ 6 ∷ 7 ∷ [])
