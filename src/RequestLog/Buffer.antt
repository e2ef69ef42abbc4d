-- ===== src/RequestLog/Buffer.antt =====
-- The circular buffer of internal/server/request_log.go against the list of the last entries.
use htn_tunnel.Prelude.{
  ℕ, zero, suc, ◌+◌, ◌≡◌, ◌≤◌, ◌<◌, ◌∙◌, refl, sym, ap, subst, true, false, List, [], ◌∷◌, ◌++◌,
  length, take, drop, set, length-append, append_assoc, append-nil, take-front, drop-front,
  length-replicate, leb, if◌then◌else◌, arith, Bool-cases, inl, inr, Text, text_eq, ◌==◌, select,
  length-set,
}
use htn_tunnel.RequestLog.{
  LogEntry, RequestLog, blank, reverse, stored, snapshot, new_request_log, add, add_all,
}

-- The buffer has the capacity, and the next index to write lies in it.
pub record Sound (capacity : ℕ) (rl : RequestLog) : Type 0 where
  pub size : length rl.entries ≡ capacity
  pub inside : rl.write_pos < capacity

-- A list split at an index.
abbrev Split : {A : Type 0} → ℕ → List A → Type 0
Split {A = A} n xs = (p : List A) × (x : A) × (q : List A) × (xs ≡ p ++ x ∷ q) × (length p ≡ n)

dissect : {A : Type 0} (n : ℕ) (xs : List A) → n < length xs → Split n xs
dissect n [] h = absurd (omega arith)
dissect zero (x ∷ xs) h = ([], x, xs, refl, refl)
dissect (suc n) (y ∷ xs) h =
    let (p, x, q, e, l) = dissect n xs (omega arith) in
    (y ∷ p, x, q, ap (λ r. y ∷ r) e, omega (arith, l))

set-middle : {A : Type 0} (p q : List A) (x e : A) → set (p ++ x ∷ q) (length p) e ≡ p ++ e ∷ q
set-middle [] q x e = refl
set-middle (y ∷ p) q x e = ap (λ r. y ∷ r) (set-middle p q x e)

reverse-append_one : {A : Type 0} (xs : List A) (e : A) → reverse (xs ++ e ∷ []) ≡ e ∷ reverse xs
unfolding reverse
reverse-append_one [] e = refl
reverse-append_one (x ∷ xs) e = ap (λ r. r ++ x ∷ []) (reverse-append_one xs e)

length-reverse : {A : Type 0} (xs : List A) → length (reverse xs) ≡ length xs
unfolding reverse
length-reverse [] = refl
length-reverse (x ∷ xs) = omega (arith, length-append (reverse xs) (x ∷ []), length-reverse xs)

take-all : {A : Type 0} (n : ℕ) (xs : List A) → length xs ≤ n → take n xs ≡ xs
take-all zero [] h = refl
take-all zero (x ∷ xs) h = absurd (omega arith)
take-all (suc n) [] h = refl
take-all (suc n) (x ∷ xs) h = ap (λ r. x ∷ r) (take-all n xs (omega arith))

drop-past : {A : Type 0} (p q : List A) (e : A) → drop (suc (length p)) (p ++ e ∷ q) ≡ q
drop-past [] q e = refl
drop-past (y ∷ p) q e = drop-past p q e

take-past : {A : Type 0} (p q : List A) (e : A) → take (suc (length p)) (p ++ e ∷ q) ≡ p ++ e ∷ []
take-past [] q e = refl
take-past (y ∷ p) q e = ap (λ r. y ∷ r) (take-past p q e)

empty_of_length : {A : Type 0} (q : List A) → length q ≡ 0 → q ≡ []
empty_of_length [] h = refl
empty_of_length (x ∷ q) h = absurd (omega arith)

-- One addition to a buffer that is p, then the cell to write, then q.
module _ (capacity : ℕ) (p q : List LogEntry) (x e : LogEntry) (rl : RequestLog)
    (split : rl.entries ≡ p ++ x ∷ q) (front : length p ≡ rl.write_pos)
    (size : length rl.entries ≡ capacity) where
  written : set rl.entries rl.write_pos e ≡ p ++ e ∷ q
  written = rw (split, sym front) (set-middle p q x e)

  next : rl.write_pos + 1 ≡ suc (length p)
  next = omega (arith, front)

  nothing_behind : leb capacity (rl.write_pos + 1) ≡ true → q ≡ []
  nothing_behind wrapped =
      let total : length (p ++ x ∷ q) ≡ capacity = ap (λ l. length l) (sym split) ∙ size in
      empty_of_length q (ground (arith, length-append p (x ∷ q), front))

  stored-add_full : rl.full ≡ true → stored (add capacity e rl) ≡ (q ++ p) ++ e ∷ []
  unfolding stored add
  stored-add_full full = elim (Bool-cases (leb capacity (rl.write_pos + 1))) [
    | inl wrapped ↦
        simp (wrapped, written, stored, add)
          (subst (λ r. (p ++ e ∷ r) ++ [] ≡ (r ++ p) ++ e ∷ []) (sym (nothing_behind wrapped))
            (append-nil _))
    | inr inside ↦
        simp (inside, full, written, stored, add)
          (rw (next, drop-past p q e, take-past p q e) (sym (append_assoc q p (e ∷ []))))
  ]

  stored-add_partial : rl.full ≡ false → stored (add capacity e rl) ≡ p ++ e ∷ []
  unfolding stored add
  stored-add_partial partial = elim (Bool-cases (leb capacity (rl.write_pos + 1))) [
    | inl wrapped ↦
        simp (wrapped, written, stored, add)
          (subst (λ r. (p ++ e ∷ r) ++ [] ≡ p ++ e ∷ []) (sym (nothing_behind wrapped))
            (append-nil _))
    | inr inside ↦ simp (inside, partial, written, stored, add) (rw (next, take-past p q e) refl)
  ]

-- One more entry pushes out the oldest, if the buffer is full.
pub newest-add :
    (capacity : ℕ) (e : LogEntry) (rl : RequestLog)
    → Sound capacity rl
    → reverse (stored (add capacity e rl)) ≡ take capacity (e ∷ reverse (stored rl))
unfolding stored reverse
newest-add capacity e rl sound =
    let (p, x, q, split, front) =
      dissect rl.write_pos rl.entries (omega (arith, sound.size, sound.inside)) in
    elim (Bool-cases rl.full) [
      | inr partial ↦
          let old : stored rl ≡ p =
            simp (partial, stored) (rw (split, sym front) (take-front p (x ∷ q))) in
          rw
            (
              stored-add_partial capacity p q x e rl split front sound.size partial,
              old,
              reverse-append_one p e,
            )
            (sym (
              take-all capacity (e ∷ reverse p)
                (omega (arith, length-reverse p, front, sound.inside))))
      | inl full ↦
          let old : stored rl ≡ x ∷ (q ++ p) =
            simp (full, stored)
              (rw (split, sym front, take-front p (x ∷ q), drop-front p (x ∷ q)) refl) in
          let room : capacity ≡ suc (length (reverse (q ++ p))) = omega (
            arith,
            length-reverse (q ++ p),
            length-append q p,
            length-append p (x ∷ q),
            ap (λ l. length l) split,
            sound.size,
          ) in
          rw
            (
              stored-add_full capacity p q x e rl split front sound.size full,
              old,
              reverse-append_one (q ++ p) e,
              room,
            )
            (ap (λ r. e ∷ r) (sym (take-front (reverse (q ++ p)) (x ∷ []))))
    ]

add-Sound :
    (capacity : ℕ) (e : LogEntry) (rl : RequestLog)
    → Sound capacity rl
    → Sound capacity (add capacity e rl)
unfolding add
add-Sound capacity e rl sound = record {
  size = length-set rl.entries rl.write_pos e ∙ sound.size;
  inside = ground (arith, sound.inside);
}

take-append_take :
    {A : Type 0} (n m : ℕ) (xs ys : List A) → n ≤ m → take n (xs ++ take m ys) ≡ take n (xs ++ ys)
take-append_take zero m xs ys h = refl
take-append_take (suc n) zero xs ys h = absurd (omega arith)
take-append_take (suc n) (suc m) [] [] h = refl
take-append_take (suc n) (suc m) [] (y ∷ ys) h =
    ap (λ r. y ∷ r) (take-append_take n m [] ys (omega arith))
take-append_take (suc n) (suc m) (x ∷ xs) ys h =
    ap (λ r. x ∷ r) (take-append_take n (suc m) xs ys (omega arith))

newest-add_all :
    (capacity : ℕ) (es : List LogEntry) (rl : RequestLog)
    → Sound capacity rl
    → take capacity (reverse (stored rl)) ≡ reverse (stored rl)
    → reverse (stored (add_all capacity es rl)) ≡ take capacity (reverse es ++ reverse (stored rl))
unfolding add_all
newest-add_all capacity [] rl sound small = unfold reverse in sym small
newest-add_all capacity (e ∷ es) rl sound small =
    let one = newest-add capacity e rl sound in
    let rest = newest-add_all capacity es (add capacity e rl) (add-Sound capacity e rl sound) (
      ap (take capacity) one
      ∙ take-append_take capacity capacity [] (e ∷ reverse (stored rl)) (omega arith)
      ∙ sym one) in
    rest
    ∙ ap (λ l. take capacity (reverse es ++ l)) one
    ∙ take-append_take capacity capacity (reverse es) (e ∷ reverse (stored rl)) (omega arith)
    ∙ unfold reverse in
      ap (take capacity) (sym (append_assoc (reverse es) (e ∷ []) (reverse (stored rl))))

-- The entries of a list that belong to a token; the empty token stands for all.
abbrev pub of_token : Text → List LogEntry → List LogEntry
of_token token es = if token == [] then es else select (λ e. e.token == token) es

-- Whatever was logged, a snapshot shows the last entries up to the capacity, newest first, and of
-- those the given token's, or all if no token is given.
pub snapshot-add_all :
    (capacity : ℕ) (es : List LogEntry) (token : Text)
    → 0 < capacity
    → snapshot token (add_all capacity es (new_request_log capacity))
      ≡ of_token token (take capacity (reverse es))
unfolding snapshot
snapshot-add_all capacity es token room = ap (of_token token) (
    newest-add_all capacity es (new_request_log capacity) fresh empty
    ∙ ap (λ l. take capacity (reverse es ++ l)) none_stored
    ∙ ap (take capacity) (append-nil (reverse es)))
  where
    none_stored : reverse (stored (new_request_log capacity)) ≡ []
    none_stored = unfold reverse stored new_request_log in refl

    empty :
        take capacity (reverse (stored (new_request_log capacity)))
        ≡ reverse (stored (new_request_log capacity))
    empty = rw none_stored (take-all capacity [] (omega arith))

    fresh : Sound capacity (new_request_log capacity)
    fresh = record {
      size = unfold new_request_log in length-replicate capacity blank;
      inside = unfold new_request_log in room;
    }
