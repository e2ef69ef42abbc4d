-- ===== src/Keys/Owners.antt =====
-- Who owns a subdomain, in internal/server/key_store.go.
use htn_tunnel.Prelude.{
  ℕ, ◌≡◌, ◌≢◌, ◌↔◌, refl, sym, ◌∙◌, ap, inl, inr, Bool, true, false, none, some, List, [], Text,
  text_eq, text_beq_iff, ◌==◌, lookup, insert, delete, lookup-insert, lookup-delete, find_entry,
  find_entry-some, find_entry-none, insert_inv, any, ℤ, arith, Option-cases, Bool-cases,
}
use htn_tunnel.Keys.{
  ApiKey, KeyStore, Result, ok, err, owns, find_subdomain_owner_locked, check_subdomains,
  create_key, revoke_key, find_key_by_id_or_preview, save_locked, validate,
}
use htn_tunnel.Keys.Invariant.{Inv, find_found, update-Inv, made, made-Inv}

-- The active key that owns a subdomain is the one that the search returns.
owner_found :
    (sub id : Text) (k : ApiKey) (ks : KeyStore)
    → Inv ks
    → lookup id ks.keys ≡ some k
    → owns sub k ≡ true
    → find_subdomain_owner_locked sub ks ≡ id
unfolding find_subdomain_owner_locked
owner_found sub id k ks v found owned = elim (Option-cases (find_entry (owns sub) ks.keys)) [
  | inl missing ↦ absurd (cc (owned, find_entry-none (owns sub) ks.keys id k missing found))
  | inr ((i, k'), e) ↦
      let (at_i, owns_i) = find_entry-some (owns sub) ks.keys i k' v.distinct e in
      rw (e, find_subdomain_owner_locked) (v.exclusive i id k' k sub at_i found owns_i owned)
]

-- FindSubdomainOwner returns a key, which is not the empty text, exactly if that key is in the store,
-- active, and has the subdomain.
pub find_subdomain_owner_iff :
    (sub id : Text) (ks : KeyStore)
    → Inv ks
    → id ≢ []
    → (find_subdomain_owner_locked sub ks ≡ id)
      ↔ ((k : ApiKey) × (lookup id ks.keys ≡ some k) × (owns sub k ≡ true))
unfolding find_subdomain_owner_locked
find_subdomain_owner_iff sub id ks v nonempty =
    (to, λ (k, found, owned). owner_found sub id k ks v found owned)
  where
    to :
        find_subdomain_owner_locked sub ks ≡ id
        → (k : ApiKey) × (lookup id ks.keys ≡ some k) × (owns sub k ≡ true)
    to h = elim (Option-cases (find_entry (owns sub) ks.keys)) [
      | inl missing ↦ absurd (nonempty (ground arith))
      | inr ((i, k), e) ↦
          let (at_i, owns_i) = find_entry-some (owns sub) ks.keys i k v.distinct e in
          let same : i ≡ id = ground arith in
          (k, ap (λ j. lookup j ks.keys) (sym same) ∙ at_i, owns_i)
    ]

-- What CreateKey promises.
abbrev pub Created : Text → List Text → KeyStore → Result Text × KeyStore → Type 0
Created generated subs ks (ok key, ks') =
    (key ≡ generated)
    × (validate key ks' ≡ true)
    × ((s : Text) → any (λ t. t == s) subs ≡ true → find_subdomain_owner_locked s ks' ≡ key)
    × ((other : Text) → (key ≡ other → ⊥) → lookup other ks'.keys ≡ lookup other ks.keys)
Created generated subs ks (err e, ks') =
    (other : Text) → lookup other ks'.keys ≡ lookup other ks.keys

-- CreateKey with a generated key that is new: if it returns a key, this is the generated one, it
-- is valid, it owns every subdomain of the list and no other entry has changed; if it returns an
-- error, a failure to write the file included, no entry has changed.
pub create_key-Created :
    (now : ℕ) (generated : Text) (disk : Bool) (name : Text) (subs : List Text) (limit : ℤ)
    (ks : KeyStore)
    → Inv ks
    → generated ≢ []
    → lookup generated ks.keys ≡ none
    → Created generated subs ks (create_key now generated disk name subs limit ks)
unfolding create_key
create_key-Created now generated disk name subs limit ks v nonempty new =
    elim (Bool-cases (name == [])) [
      | inl unnamed ↦ simp (unnamed, create_key) (λ other. refl)
      | inr named ↦ elim (Option-cases (check_subdomains subs ks)) [
        | inr (e, bad) ↦ simp (named, bad, create_key) (λ other. refl)
        | inl good ↦
            elim (Bool-cases (
              save_locked disk
                (record ks { keys = insert generated (made now name subs limit) ks.keys }))) [
                  | inl written ↦
                      simp (named, good, written, create_key) (refl, valid good, owned good, others)
                  | inr failed ↦ simp (named, good, failed, create_key) rolled_back
                ]
      ]
    ]
  where
    after : KeyStore
    after = record ks { keys = insert generated (made now name subs limit) ks.keys }

    entered :
        lookup generated (insert generated (made now name subs limit) ks.keys)
        ≡ some (made now name subs limit)
    entered = ground (
      arith,
      lookup-insert generated generated (made now name subs limit) ks.keys,
      text_beq_iff generated generated,
    )

    valid : check_subdomains subs ks ≡ none → validate generated after ≡ true
    valid good = unfold validate in rw (entered, validate) refl

    owned :
        check_subdomains subs ks ≡ none
        → (s : Text) → any (λ t. t == s) subs ≡ true
        → find_subdomain_owner_locked s after ≡ generated
    owned good s h =
        owner_found s generated (made now name subs limit) after
          (made-Inv now generated name subs limit ks v nonempty good) entered (unfold owns in h)

    others :
        (other : Text)
        → (generated ≡ other → ⊥)
        → lookup other (insert generated (made now name subs limit) ks.keys) ≡ lookup other ks.keys
    others other different = ground (
      arith,
      lookup-insert generated other (made now name subs limit) ks.keys,
      text_beq_iff generated other,
    )

    rolled_back :
        (other : Text)
        → lookup other (delete generated (insert generated (made now name subs limit) ks.keys))
          ≡ lookup other ks.keys
    rolled_back other = ground (
      arith,
      lookup-delete generated other (insert generated (made now name subs limit) ks.keys),
      lookup-insert generated other (made now name subs limit) ks.keys,
      text_beq_iff generated other,
      new,
    )

revoked_unowned :
    (id s : Text) (k : ApiKey) (ks : KeyStore)
    → Inv ks
    → Inv (record ks { keys = insert id (record k { active = false }) ks.keys })
    → lookup id ks.keys ≡ some k
    → owns s k ≡ true
    → find_subdomain_owner_locked s
        (record ks { keys = insert id (record k { active = false }) ks.keys })
      ≡ []
unfolding find_subdomain_owner_locked
revoked_unowned id s k ks v v' found owned =
    elim (Option-cases (find_entry (owns s) (insert id (record k { active = false }) ks.keys))) [
      | inl missing ↦ rw (missing, find_subdomain_owner_locked) refl
      | inr ((i, k'), e) ↦
          let (at_i, owns_i) =
            find_entry-some (owns s) (insert id (record k { active = false }) ks.keys) i k'
              v'.distinct e in
          elim (insert_inv id i (record k { active = false }) k' ks.keys at_i) [
            | inl (_, same) ↦ absurd (inactive k' (sym same) owns_i)
            | inr old ↦ absurd (rival i k' at_i owns_i old)
          ]
    ]
  where
    inactive : (k' : ApiKey) → k' ≡ record k { active = false } → owns s k' ≡ true → ⊥
    inactive k' same o = unfold owns in ground (arith, ap (λ (t : ApiKey). t.active) same)

    rival :
        (i : Text) (k' : ApiKey)
        → lookup i (insert id (record k { active = false }) ks.keys) ≡ some k'
        → owns s k' ≡ true
        → lookup i ks.keys ≡ some k'
        → ⊥
    rival i k' at_i o old =
        let i_id = v.exclusive i id k' k s old found o owned in
        inactive k'
          (ground
            (arith, lookup-insert id i (record k { active = false }) ks.keys, text_beq_iff id i))
          o

-- RevokeKey on a key or preview that it finds, whether or not the file is then written: the
-- key found is no longer valid, every subdomain that it owned is without an owner, and the other
-- entries are as they were.
pub revoke_key-frees :
    (disk : Bool) (id_or_preview id : Text) (k : ApiKey) (ks : KeyStore)
    → Inv ks
    → find_key_by_id_or_preview id_or_preview ks ≡ some (id, k)
    → (validate id (revoke_key disk id_or_preview ks).1 ≡ false)
      × ((s : Text)
          → owns s k ≡ true
          → find_subdomain_owner_locked s (revoke_key disk id_or_preview ks).1 ≡ [])
      × ((other : Text)
          → (id ≡ other → ⊥)
          → lookup other (revoke_key disk id_or_preview ks).1.keys ≡ lookup other ks.keys)
unfolding revoke_key
revoke_key-frees disk i id k ks v found =
    let at_id = find_found i ks id k v found in
    let v' : Inv (record ks { keys = insert id (record k { active = false }) ks.keys }) =
      update-Inv id k (record k { active = false }) ks v at_id (v.quota id k at_id)
        λ s o. unfold owns in ground arith in
    rw (found, revoke_key)
      (
        unfold validate in
            ground (
              arith,
              lookup-insert id id (record k { active = false }) ks.keys,
              text_beq_iff id id,
            ),
        (λ s o. revoked_unowned id s k ks v v' at_id o),
        λ other different. ground (
          arith,
          lookup-insert id other (record k { active = false }) ks.keys,
          text_beq_iff id other,
        ),
      )
