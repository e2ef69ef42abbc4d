-- ===== src/Proxy/Hosts.antt =====
-- Which subdomain the host name of a request gives, in internal/server/http_proxy.go, against the names
-- that a registration accepts.
use htn_tunnel.Prelude.{
  ◌≤◌, ◌≡◌, refl, ap, true, false, [], ◌∷◌, ◌++◌, length, Text, text_beq, text_beq_iff, str, any,
  arith, to_lower, to_lower_byte, last_index, Without, last_index-append, append-Without,
  length-to_lower, length-append, take-front, has_suffix-append, trim_suffix-append, Bool-cases,
  inl, inr,
}
use htn_tunnel.Subdomain.{is_alnum, is_label_char, is_reserved}
use htn_tunnel.Subdomain.Labels.{IsLabel, AllLabelChars}
use htn_tunnel.Proxy.{strip_port, extract_subdomain, is_special}

-- The host name of a subdomain of the base domain, with or without a port.
pub data HostOf (sub domain : Text) : Text → Type 0 where
  plain : HostOf sub domain (sub ++ b'.' ∷ domain)
  with_port :
      (port : Text) → Without b':' port → HostOf sub domain ((sub ++ b'.' ∷ domain) ++ b':' ∷ port)

to_lower-label : (s : Text) → AllLabelChars s → to_lower s ≡ s
unfolding to_lower to_lower_byte is_label_char is_alnum
to_lower-label [] l = refl
to_lower-label (c ∷ s) l = ground (arith, to_lower-label s l.1, l.0)

label-Without : (s : Text) → AllLabelChars s → Without b':' s
unfolding last_index is_label_char is_alnum
label-Without [] l = refl
label-Without (c ∷ s) l = ground (arith, label-Without s l.1, l.0)

strip_port-host :
    (sub domain host : Text)
    → AllLabelChars sub
    → Without b':' domain
    → HostOf sub domain host
    → strip_port host ≡ sub ++ b'.' ∷ domain
unfolding strip_port last_index
strip_port-host sub domain _ label free plain =
    rw
      (
        strip_port,
        append-Without b':' sub (b'.' ∷ domain) (label-Without sub label) (ground (arith, free)),
      )
      refl
strip_port-host sub domain _ label free (with_port port h) =
    rw (strip_port, last_index-append b':' (sub ++ b'.' ∷ domain) port h)
      (take-front _ (b':' ∷ port))

not_the_domain :
    (sub domain : Text) → text_beq (to_lower (sub ++ b'.' ∷ domain)) (to_lower domain) ≡ false
not_the_domain sub domain =
    elim (Bool-cases (text_beq (to_lower (sub ++ b'.' ∷ domain)) (to_lower domain))) [
      | inr differ ↦ differ
      | inl same ↦
          let lengths = ap (λ s. length s) ((text_beq_iff _ _).0 same) in
          absurd (
            omega (
              arith,
              lengths,
              length-to_lower (sub ++ b'.' ∷ domain),
              length-to_lower domain,
              length-append sub (b'.' ∷ domain),
            ))
    ]

-- A request to the host name of a label under the base domain, with or without a port, is for
-- that label.
pub extract_subdomain-host :
    (sub domain host : Text)
    → IsLabel sub
    → Without b':' domain
    → HostOf sub domain host
    → extract_subdomain domain host ≡ sub
unfolding extract_subdomain
extract_subdomain-host sub domain host label free h =
    rw
      (
        strip_port-host sub domain host label.chars free h,
        not_the_domain sub domain,
        has_suffix-append sub (b'.' ∷ domain),
        trim_suffix-append sub (b'.' ∷ domain),
      )
      (to_lower-label sub label.chars)

free_differs :
    (s name : Text) → is_reserved name ≡ true → is_reserved s ≡ false → text_beq s name ≡ false
free_differs s name taken free = elim (Bool-cases (text_beq s name)) [
  | inr differ ↦ differ
  | inl same ↦ ground (arith, ap is_reserved ((text_beq_iff s name).0 same))
]

long_nonempty : (s : Text) → 3 ≤ length s → text_beq s [] ≡ false
unfolding text_beq
long_nonempty [] h = absurd (omega arith)
long_nonempty (c ∷ s) h = refl

-- No label that a client may register is one of the names that serveRequest keeps for the
-- dashboard.
pub is_special-label : (sub : Text) → IsLabel sub → is_special sub ≡ false
unfolding is_special is_reserved any text_beq
is_special-label sub label =
    rw
      (
        free_differs sub (str "dashboard") refl label.free,
        free_differs sub (str "admin") refl label.free,
        free_differs sub (str "www") refl label.free,
        long_nonempty sub label.at_least,
      )
      refl
