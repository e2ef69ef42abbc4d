-- ===== src/Keys/Invariant.antt =====
-- The invariant of the key store of internal/server/key_store.go.
use htn_tunnel.Prelude.{
  ℕ, ◌+◌, ◌-◌, ◌≡◌, ◌≢◌, ◌⊎◌, refl, sym, ◌∙◌, ap, inl, inr, Bool, true, false, not, none, some,
  List, [], ◌∷◌, ◌++◌, Text, text_eq, text_beq_iff, ◌==◌, lookup, insert, delete, lookup-insert,
  lookup-delete, Distinct, insert-Distinct, insert_inv, delete-Distinct, find_entry,
  find_entry-some, find_entry-none, any, any-append, any-select_of, select, ℤ, pos, negsuc, le_int,
  arith, Option-cases, Bool-cases, ltb,
}
use htn_tunnel.Subdomain.{validate_subdomain}
use htn_tunnel.Keys.{
  ApiKey, KeyStore, owns, find_subdomain_owner_locked, check_subdomains, create_key, revoke_key,
  add_subdomain, remove_subdomain, increment_tunnels, decrement_tunnels, find_key_by_id_or_preview,
  preview_entries, save_locked, default_limit, mask_key,
}
use htn_tunnel.Keys.Calls.{Call, creates, revokes, adds, removes, increments, decrements, step, run}

-- A key that holds tunnels keeps to its limit.
abbrev pub WithinQuota : ApiKey → Type 0
WithinQuota k = (k.tunnel_count ≡ 0) ⊎ (le_int (pos k.tunnel_count) k.max_tunnels ≡ true)

-- Keys are distinct and not empty, no subdomain has two active owners, and no key is over its limit.
pub record Inv (ks : KeyStore) : Type 0 where
  pub distinct : Distinct ks.keys
  pub no_empty_key : lookup [] ks.keys ≡ none
  pub exclusive :
      (a b : Text) (ka kb : ApiKey) (sub : Text)
      → lookup a ks.keys ≡ some ka
      → lookup b ks.keys ≡ some kb
      → owns sub ka ≡ true
      → owns sub kb ≡ true
      → a ≡ b
  pub quota : (a : Text) (ka : ApiKey) → lookup a ks.keys ≡ some ka → WithinQuota ka

-- A key may be entered if nobody else owns what it owns.
abbrev pub Unrivalled : Text → ApiKey → KeyStore → Type 0
Unrivalled id k ks =
    (sub : Text) (b : Text) (kb : ApiKey)
    → owns sub k ≡ true
    → lookup b ks.keys ≡ some kb
    → owns sub kb ≡ true
    → b ≡ id

insert-Inv :
    (id : Text) (k : ApiKey) (ks : KeyStore)
    → Inv ks
    → id ≢ []
    → WithinQuota k
    → Unrivalled id k ks
    → Inv (record ks { keys = insert id k ks.keys })
insert-Inv id k ks v nonempty fits alone = record {
  distinct = insert-Distinct id k ks.keys v.distinct;
  no_empty_key = ground (arith, lookup-insert id [] k ks.keys, text_beq_iff id [], v.no_empty_key);
  exclusive = λ a b ka kb sub ha hb oa ob. elim (insert_inv id a k ka ks.keys ha) [
    | inl (a_id, k_ka) ↦ elim (insert_inv id b k kb ks.keys hb) [
      | inl (b_id, k_kb) ↦ a_id ∙ sym b_id
      | inr old ↦ a_id ∙ sym (alone sub b kb (ap (owns sub) k_ka ∙ oa) old ob)
    ]
    | inr old_a ↦ elim (insert_inv id b k kb ks.keys hb) [
      | inl (b_id, k_kb) ↦ alone sub a ka (ap (owns sub) k_kb ∙ ob) old_a oa ∙ sym b_id
      | inr old_b ↦ v.exclusive a b ka kb sub old_a old_b oa ob
    ]
  ];
  quota = λ a ka h. ground (arith, lookup-insert id a k ks.keys, v.quota a ka);
}

pub owner_none :
    (sub : Text) (ks : KeyStore) (b : Text) (kb : ApiKey)
    → Inv ks
    → find_subdomain_owner_locked sub ks ≡ []
    → lookup b ks.keys ≡ some kb
    → owns sub kb ≡ false
unfolding find_subdomain_owner_locked
owner_none sub ks b kb v h found = elim (Option-cases (find_entry (owns sub) ks.keys)) [
  | inl missing ↦ find_entry-none (owns sub) ks.keys b kb missing found
  | inr ((id, k), e) ↦
      let (at_id, _) = find_entry-some (owns sub) ks.keys id k v.distinct e in
      absurd (ground (arith, v.no_empty_key))
]

-- A change to an entry that adds no owned subdomain.
pub update-Inv :
    (id : Text) (k k' : ApiKey) (ks : KeyStore)
    → Inv ks
    → lookup id ks.keys ≡ some k
    → WithinQuota k'
    → ((sub : Text) → owns sub k' ≡ true → owns sub k ≡ true)
    → Inv (record ks { keys = insert id k' ks.keys })
update-Inv id k k' ks v found fits owned =
    insert-Inv id k' ks v nonempty fits
      λ sub b kb o h ob. v.exclusive b id kb k sub h found ob (owned sub o)
  where
    nonempty : id ≢ []
    nonempty e = cc (ap (λ i. lookup i ks.keys) e, found, v.no_empty_key)

preview_found :
    (preview : Text) (m : List (Text × ApiKey)) (id : Text) (k : ApiKey)
    → Distinct m
    → preview_entries preview m ≡ some (id, k)
    → lookup id m ≡ some k
unfolding lookup
preview_found preview [] id k d h = cc
preview_found preview ((j, w) ∷ m) id k d h = elim (Bool-cases (mask_key j == preview)) [
  | inl hit ↦ ground (arith, text_beq_iff j id)
  | inr miss ↦
      let found = preview_found preview m id k d.1 (ground arith) in
      ground (arith, text_beq_iff j id)
]

pub find_found :
    (i : Text) (ks : KeyStore) (id : Text) (k : ApiKey)
    → Inv ks
    → find_key_by_id_or_preview i ks ≡ some (id, k)
    → lookup id ks.keys ≡ some k
unfolding find_key_by_id_or_preview
find_found i ks id k v h = elim (Option-cases (lookup i ks.keys)) [
  | inl missing ↦ preview_found i ks.keys id k v.distinct (ground arith)
  | inr (k', found) ↦ ground arith
]

pub revoke-Inv : (disk : Bool) (id : Text) (ks : KeyStore) → Inv ks → Inv (revoke_key disk id ks).1
unfolding revoke_key owns
revoke-Inv disk id ks v = elim (Option-cases (find_key_by_id_or_preview id ks)) [
  | inl missing ↦ rw (missing, revoke_key) v
  | inr ((i, k), found) ↦
      rw (found, revoke_key)
        (update-Inv i k (record k { active = false }) ks v (find_found id ks i k v found)
          (v.quota i k (find_found id ks i k v found)) λ sub h. ground arith)
]

removed_owned :
    (k : ApiKey) (sub s : Text)
    → owns s (record k { subdomains = select (λ t. not (t == sub)) k.subdomains }) ≡ true
    → owns s k ≡ true
unfolding owns
removed_owned k sub s h =
    ground (arith, any-select_of (λ (t : Text). t == s) (λ (t : Text). not (t == sub)) k.subdomains)

remove-Inv :
    (disk : Bool) (id sub : Text) (ks : KeyStore) → Inv ks → Inv (remove_subdomain disk id sub ks).1
unfolding remove_subdomain
remove-Inv disk id sub ks v = elim (Option-cases (lookup id ks.keys)) [
  | inl missing ↦ rw (missing, remove_subdomain) v
  | inr (k, found) ↦
      rw (found, remove_subdomain)
        (update-Inv id k _ ks v found (v.quota id k found) (removed_owned k sub))
]

-- A new subdomain joins the key's own.
added_owned :
    (k : ApiKey) (sub s : Text)
    → k.active ≡ true
    → owns s (record k { subdomains = k.subdomains ++ sub ∷ []; active = true }) ≡ true
    → (owns s k ≡ true) ⊎ (sub ≡ s)
unfolding owns any
added_owned k sub s active h =
    ground (arith, any-append (λ (t : Text). t == s) k.subdomains (sub ∷ []), text_beq_iff sub s)

claimed-Inv :
    (id sub : Text) (k : ApiKey) (ks : KeyStore)
    → Inv ks
    → lookup id ks.keys ≡ some k
    → k.active ≡ true
    → find_subdomain_owner_locked sub ks ≡ []
    → Inv (record ks {
      keys = insert id (record k { subdomains = k.subdomains ++ sub ∷ []; active = true }) ks.keys;
    })
claimed-Inv id sub k ks v found active unowned =
    insert-Inv id _ ks v nonempty (v.quota id k found) alone
  where
    nonempty : id ≢ []
    nonempty e = cc (ap (λ i. lookup i ks.keys) e, found, v.no_empty_key)

    alone : Unrivalled id (record k { subdomains = k.subdomains ++ sub ∷ []; active = true }) ks
    alone s b kb o h ob = elim (added_owned k sub s active o) [
      | inl old ↦ v.exclusive b id kb k s h found ob old
      | inr same ↦ absurd (cc (ap (λ t. owns t kb) same, ob, owner_none sub ks b kb v unowned h))
    ]

add-Inv :
    (disk : Bool) (id sub : Text) (ks : KeyStore) → Inv ks → Inv (add_subdomain disk id sub ks).1
unfolding add_subdomain
add-Inv disk id sub ks v = elim (Option-cases (validate_subdomain sub)) [
  | inr (e, bad) ↦ rw (bad, add_subdomain) v
  | inl valid ↦ elim (Option-cases (lookup id ks.keys)) [
    | inl missing ↦ rw (valid, missing, add_subdomain) v
    | inr (k, found) ↦ elim (Bool-cases k.active) [
      | inr inactive ↦ rw (valid, found, add_subdomain) (rw inactive v)
      | inl active ↦ elim (Bool-cases (find_subdomain_owner_locked sub ks == [])) [
        | inl unowned ↦
            simp (valid, found, active, unowned, add_subdomain)
              (claimed-Inv id sub k ks v found active
                (ground (arith, text_beq_iff (find_subdomain_owner_locked sub ks) [])))
        | inr owned ↦ elim (Bool-cases (find_subdomain_owner_locked sub ks == id)) [
          | inl own ↦ simp (valid, found, active, owned, own, add_subdomain) v
          | inr other ↦ simp (valid, found, active, owned, other, add_subdomain) v
        ]
      ]
    ]
  ]
]

le_of_room : (m : ℤ) (n : ℕ) → le_int m (pos n) ≡ false → le_int (pos (n + 1)) m ≡ true
le_of_room (pos m) n h = ground arith
le_of_room (negsuc m) n h = cc

increment-Inv : (id : Text) (ks : KeyStore) → Inv ks → Inv (increment_tunnels id ks).1
unfolding increment_tunnels
increment-Inv id ks v = elim (Option-cases (lookup id ks.keys)) [
  | inl missing ↦ rw (missing, increment_tunnels) v
  | inr (k, found) ↦ elim (Bool-cases (le_int k.max_tunnels (pos k.tunnel_count))) [
    | inl full ↦ rw (found, increment_tunnels) (rw full v)
    | inr room ↦
        rw (found, increment_tunnels)
          (rw room (
            update-Inv id k (record k { tunnel_count = k.tunnel_count + 1 }) ks v found
              (inr (le_of_room k.max_tunnels k.tunnel_count room)) λ s o. unfold owns in o))
  ]
]

le_less : (m : ℤ) (n : ℕ) → le_int (pos n) m ≡ true → le_int (pos (n - 1)) m ≡ true
le_less (pos m) n h = ground arith
le_less (negsuc m) n h = cc

lowered :
    (k : ApiKey) → WithinQuota k → WithinQuota (record k { tunnel_count = k.tunnel_count - 1 })
lowered k (inl zero_count) = inl (ground arith)
lowered k (inr fits) = inr (le_less k.max_tunnels k.tunnel_count fits)

decrement-Inv : (id : Text) (ks : KeyStore) → Inv ks → Inv (decrement_tunnels id ks)
unfolding decrement_tunnels
decrement-Inv id ks v = elim (Option-cases (lookup id ks.keys)) [
  | inl missing ↦ rw (missing, decrement_tunnels) v
  | inr (k, found) ↦ elim (Bool-cases (ltb 0 k.tunnel_count)) [
    | inr none_left ↦ rw (found, decrement_tunnels) (rw none_left v)
    | inl counted ↦
        rw (found, decrement_tunnels)
          (rw counted (
            update-Inv id k (record k { tunnel_count = k.tunnel_count - 1 }) ks v found
              (lowered k (v.quota id k found)) λ s o. unfold owns in o))
  ]
]

delete-Inv : (id : Text) (ks : KeyStore) → Inv ks → Inv (record ks { keys = delete id ks.keys })
delete-Inv id ks v = record {
  distinct = delete-Distinct id ks.keys v.distinct;
  no_empty_key = ground (arith, lookup-delete id [] ks.keys, v.no_empty_key);
  exclusive =
      λ a b ka kb sub ha hb. v.exclusive a b ka kb sub (kept_entry a ka ha) (kept_entry b kb hb);
  quota = λ a ka h. v.quota a ka (kept_entry a ka h);
}
  where
    kept_entry :
        (a : Text) (ka : ApiKey)
        → lookup a (delete id ks.keys) ≡ some ka
        → lookup a ks.keys ≡ some ka
    kept_entry a ka h = ground (arith, lookup-delete id a ks.keys)

-- What the loop of CreateKey has checked.
pub checked_unowned :
    (subs : List Text) (ks : KeyStore) (s : Text)
    → check_subdomains subs ks ≡ none
    → any (λ t. t == s) subs ≡ true
    → find_subdomain_owner_locked s ks ≡ []
unfolding check_subdomains any
checked_unowned [] ks s h o = cc
checked_unowned (sub ∷ subs) ks s h o = elim (Bool-cases (sub == s)) [
  | inl same ↦
      ground (arith, text_beq_iff sub s, text_beq_iff (find_subdomain_owner_locked sub ks) [])
  | inr other ↦ checked_unowned subs ks s (ground arith) (ground arith)
]

-- The entry that CreateKey makes.
abbrev pub made : ℕ → Text → List Text → ℤ → ApiKey
made now name subs limit = record {
  name = name;
  subdomains = subs;
  max_tunnels = default_limit limit;
  created_at = now;
  active = true;
  tunnel_count = 0;
}

pub made-Inv :
    (now : ℕ) (generated name : Text) (subs : List Text) (limit : ℤ) (ks : KeyStore)
    → Inv ks
    → generated ≢ []
    → check_subdomains subs ks ≡ none
    → Inv (record ks { keys = insert generated (made now name subs limit) ks.keys })
unfolding owns
made-Inv now generated name subs limit ks v nonempty good =
    insert-Inv generated (made now name subs limit) ks v nonempty (inl refl) λ sub b kb o h ob.
      absurd (cc (ob, owner_none sub ks b kb v (checked_unowned subs ks sub good o) h))

pub create-Inv :
    (now : ℕ) (generated : Text) (disk : Bool) (name : Text) (subs : List Text) (limit : ℤ)
    (ks : KeyStore)
    → Inv ks
    → generated ≢ []
    → Inv (create_key now generated disk name subs limit ks).1
unfolding create_key
create-Inv now generated disk name subs limit ks v nonempty = elim (Bool-cases (name == [])) [
  | inl unnamed ↦ simp (unnamed, create_key) v
  | inr named ↦ elim (Option-cases (check_subdomains subs ks)) [
    | inr (e, bad) ↦ simp (named, bad, create_key) v
    | inl good ↦
        let v' = made-Inv now generated name subs limit ks v nonempty good in
        elim (Bool-cases (
          save_locked disk
            (record ks { keys = insert generated (made now name subs limit) ks.keys }))) [
              | inl written ↦ simp (named, good, written, create_key) v'
              | inr failed ↦ simp (named, good, failed, create_key) (delete-Inv generated _ v')
            ]
  ]
]

-- GenerateAPIKey never returns the empty text.
abbrev pub Sensible : Call → Type 0
Sensible (creates now generated disk name subs limit) = generated ≢ []
Sensible _ = Unit

pub step-Inv : (c : Call) (ks : KeyStore) → Sensible c → Inv ks → Inv (step c ks)
unfolding step
step-Inv (creates now generated disk name subs limit) ks ok_call v =
    create-Inv now generated disk name subs limit ks v ok_call
step-Inv (revokes disk id) ks _ v = revoke-Inv disk id ks v
step-Inv (adds disk id sub) ks _ v = add-Inv disk id sub ks v
step-Inv (removes disk id sub) ks _ v = remove-Inv disk id sub ks v
step-Inv (increments key) ks _ v = increment-Inv key ks v
step-Inv (decrements key) ks _ v = decrement-Inv key ks v

abbrev pub AllSensible : List Call → Type 0
AllSensible [] = Unit
AllSensible (c ∷ cs) = Sensible c × AllSensible cs

-- Whatever the sequence of calls, keys stay distinct and not empty, no subdomain gets two active
-- owners, and no key with tunnels exceeds its limit, provided no generated key is empty.
pub run-Inv : (cs : List Call) (ks : KeyStore) → AllSensible cs → Inv ks → Inv (run cs ks)
unfolding run
run-Inv [] ks _ v = v
run-Inv (c ∷ cs) ks (ok_call, rest) v = run-Inv cs (step c ks) rest (step-Inv c ks ok_call v)
