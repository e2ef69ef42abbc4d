-- ===== src/Prelude/Ascii.antt =====
-- More of Go's packages strings and strconv, on the bytes of ASCII texts: letter case, suffixes, the
-- last index of a byte, and decimal numbers.
use Prim.Native.Nat.{ℕ, zero, suc, ◌+◌, ◌-◌, ◌/◌, ◌%◌}
use mathlib.Core.Path.{◌≡◌, refl, ap}
use mathlib.Core.Bool.{Bool, true, ◌&&◌, ◌||◌}
use mathlib.Core.Option.{Option, none, some}
use mathlib.Core.List.{[], ◌∷◌, ◌++◌}
use native.Mathlib.Omega.{arith}
use htn_tunnel.Prelude.Tests.{ltb, leb, nat_beq, if◌then◌else◌}
use htn_tunnel.Prelude.Classes.{Text, text_beq, text_beq_iff}
use htn_tunnel.Prelude.Lists.{length, take, drop, length-append, take-front, drop-front}
use htn_tunnel.Prelude.Texts.{ℤ, pos, negsuc, has_prefix}

unfoldable pub to_lower_byte : ℕ → ℕ
to_lower_byte c = if leb b'A' c && leb c b'Z' then c + 32 else c

unfoldable pub to_upper_byte : ℕ → ℕ
to_upper_byte c = if leb b'a' c && leb c b'z' then c - 32 else c

-- strings.ToLower
unfoldable pub to_lower : Text → Text
to_lower [] = []
to_lower (c ∷ s) = to_lower_byte c ∷ to_lower s

-- strings.EqualFold
unfoldable pub equal_fold : Text → Text → Bool
equal_fold a b = text_beq (to_lower a) (to_lower b)

-- strings.HasSuffix s suffix
unfoldable pub has_suffix : Text → Text → Bool
has_suffix s suffix =
    leb (length suffix) (length s) && text_beq (drop (length s - length suffix) s) suffix

-- strings.TrimSuffix s suffix
unfoldable pub trim_suffix : Text → Text → Text
trim_suffix s suffix = if has_suffix s suffix then take (length s - length suffix) s else s

-- strings.LastIndex s c, for a text of one byte; `none` is -1.
unfoldable pub last_index : ℕ → Text → Option ℕ
last_index c [] = none
last_index c (x ∷ s) = elim (last_index c s) [
  | some i ↦ some (suc i)
  | none ↦ if nat_beq x c then some 0 else none
]

-- strings.Contains s part
unfoldable pub contains : Text → Text → Bool
contains [] part = has_prefix [] part
contains (c ∷ s) part = has_prefix (c ∷ s) part || contains s part

-- The last digits of a number, at most as many as the fuel.
unfoldable pub digits : ℕ → ℕ → Text
digits zero n = []
digits (suc fuel) n =
    let front = digits fuel (n / 10) in
    if ltb n 10 then (b'0' + n) ∷ [] else front ++ (b'0' + n % 10) ∷ []

-- The digits of a 64-bit number: twenty are enough.
unfoldable pub itoa : ℤ → Text
itoa (pos n) = digits 20 n
itoa (negsuc n) = b'-' ∷ digits 20 (suc n)

-- The byte does not occur in the text.
abbrev pub Without : ℕ → Text → Type 0
Without c s = last_index c s ≡ none

pub length-to_lower : (s : Text) → length (to_lower s) ≡ length s
unfolding to_lower
length-to_lower [] = refl
length-to_lower (c ∷ s) = ap suc (length-to_lower s)

pub to_lower-append : (a b : Text) → to_lower (a ++ b) ≡ to_lower a ++ to_lower b
unfolding to_lower
to_lower-append [] b = refl
to_lower-append (c ∷ a) b = ap (λ r. to_lower_byte c ∷ r) (to_lower-append a b)

front_length : (s t : Text) → length (s ++ t) - length t ≡ length s
front_length s t = omega (arith, length-append s t)

pub has_suffix-append : (s suffix : Text) → has_suffix (s ++ suffix) suffix ≡ true
unfolding has_suffix
has_suffix-append s suffix =
    rw (front_length s suffix, drop-front s suffix)
      (ground (arith, length-append s suffix, text_beq_iff suffix suffix))

pub trim_suffix-append : (s suffix : Text) → trim_suffix (s ++ suffix) suffix ≡ s
unfolding trim_suffix
trim_suffix-append s suffix =
    rw (has_suffix-append s suffix, front_length s suffix) (take-front s suffix)

pub last_index-append :
    (c : ℕ) (s t : Text) → Without c t → last_index c (s ++ c ∷ t) ≡ some (length s)
unfolding last_index
last_index-append c [] t free = ground arith
last_index-append c (x ∷ s) t free = rw (last_index-append c s t free) refl

pub append-Without : (c : ℕ) (s t : Text) → Without c s → Without c t → Without c (s ++ t)
unfolding last_index
append-Without c [] t left right = right
append-Without c (x ∷ s) t left right = ground (arith, append-Without c s t)
