-- ===== src/Dashboard/Whitelist.antt =====
-- Which fields UpdateConfig of internal/server/config_provider.go changes, and to what.
use htn_tunnel.Prelude.{
  Bool, false, Option, none, some, [], ◌∷◌, Text, text_eq, str, Map, lookup, ℤ, ◌≡◌, refl, ◌∙◌, ap,
  sym, subst, Distinct, text_beq, text_beq_iff, Bool-cases, inl, inr,
}
use htn_tunnel.Config.{ServerConfig}
use htn_tunnel.Dashboard.Updates.{
  JsonValue, string, boolean, number, integer, other_value, to_string, to_bool, to_int,
  update_field, update_fields,
}

module _ {Float : Type 0} (int_of_float : Float → ℤ) where
  abbrev pub read_flag : JsonValue Float → Option (Option Bool)
  read_flag (boolean b) = some (some b)
  read_flag _ = none

  -- The value of an entry for a field, or the value that the field has.
  abbrev pub picked : {A : Type 0} → (JsonValue Float → Option A) → Option (JsonValue Float) → A → A
  picked read none old = old
  picked read (some val) old = elim (read val) [ none ↦ old | some a ↦ a ]

  -- A configuration with six entries taken into account.
  abbrev pub with_entries :
      (domain max_tunnels rate global_rate registration dashboard : Option (JsonValue Float))
      → ServerConfig
      → ServerConfig
  with_entries domain max_tunnels rate global_rate registration dashboard c = record c {
    domain = picked (to_string int_of_float) domain c.domain;
    max_tunnels_per_token = picked (to_int int_of_float) max_tunnels c.max_tunnels_per_token;
    rate_limit = picked (to_int int_of_float) rate c.rate_limit;
    global_rate_limit = picked (to_int int_of_float) global_rate c.global_rate_limit;
    allow_registration = picked read_flag registration c.allow_registration;
    dashboard_enabled = picked (to_bool int_of_float) dashboard c.dashboard_enabled;
  }

  -- A configuration with the values that an object gives the six fields it may change; all other
  -- fields are those of before.
  abbrev pub with_values : Map Text (JsonValue Float) → ServerConfig → ServerConfig
  with_values u c =
      with_entries (lookup (str "domain") u) (lookup (str "max_tunnels_per_token") u)
        (lookup (str "rate_limit") u) (lookup (str "global_rate_limit") u)
        (lookup (str "allow_registration") u) (lookup (str "dashboard_enabled") u) c

  -- One entry is taken into account, if its key does not come again.
  abbrev Step : Text → Type 0
  Step key =
      (val : JsonValue Float) (u : Map Text (JsonValue Float)) (c : ServerConfig)
      → lookup key u ≡ none
      → with_values u (update_field int_of_float key val c) ≡ with_values ((key, val) ∷ u) c

  pick_domain :
      (val : JsonValue Float) (o₂ o₃ o₄ o₅ o₆ : Option (JsonValue Float)) (c : ServerConfig)
      → with_entries none o₂ o₃ o₄ o₅ o₆ (update_field int_of_float (str "domain") val c)
        ≡ with_entries (some val) o₂ o₃ o₄ o₅ o₆ c
  unfolding update_field text_beq to_string to_bool to_int
  pick_domain (string _) o₂ o₃ o₄ o₅ o₆ c = refl
  pick_domain (boolean _) o₂ o₃ o₄ o₅ o₆ c = refl
  pick_domain (number _) o₂ o₃ o₄ o₅ o₆ c = refl
  pick_domain (integer _) o₂ o₃ o₄ o₅ o₆ c = refl
  pick_domain other_value o₂ o₃ o₄ o₅ o₆ c = refl

  domain-Step : Step (str "domain")
  unfolding lookup text_beq
  domain-Step val u c absent =
      ap
        (λ o.
          with_entries o (lookup (str "max_tunnels_per_token") u) (lookup (str "rate_limit") u)
            (lookup (str "global_rate_limit") u) (lookup (str "allow_registration") u)
            (lookup (str "dashboard_enabled") u) (update_field int_of_float (str "domain") val c))
        absent
      ∙ pick_domain val (lookup (str "max_tunnels_per_token") u) (lookup (str "rate_limit") u)
          (lookup (str "global_rate_limit") u) (lookup (str "allow_registration") u)
          (lookup (str "dashboard_enabled") u) c

  pick_max_tunnels_per_token :
      (val : JsonValue Float) (o₁ o₃ o₄ o₅ o₆ : Option (JsonValue Float)) (c : ServerConfig)
      → with_entries o₁ none o₃ o₄ o₅ o₆
          (update_field int_of_float (str "max_tunnels_per_token") val c)
        ≡ with_entries o₁ (some val) o₃ o₄ o₅ o₆ c
  unfolding update_field text_beq to_string to_bool to_int
  pick_max_tunnels_per_token (string _) o₁ o₃ o₄ o₅ o₆ c = refl
  pick_max_tunnels_per_token (boolean _) o₁ o₃ o₄ o₅ o₆ c = refl
  pick_max_tunnels_per_token (number _) o₁ o₃ o₄ o₅ o₆ c = refl
  pick_max_tunnels_per_token (integer _) o₁ o₃ o₄ o₅ o₆ c = refl
  pick_max_tunnels_per_token other_value o₁ o₃ o₄ o₅ o₆ c = refl

  max_tunnels_per_token-Step : Step (str "max_tunnels_per_token")
  unfolding lookup text_beq
  max_tunnels_per_token-Step val u c absent =
      ap
        (λ o.
          with_entries (lookup (str "domain") u) o (lookup (str "rate_limit") u)
            (lookup (str "global_rate_limit") u) (lookup (str "allow_registration") u)
            (lookup (str "dashboard_enabled") u)
            (update_field int_of_float (str "max_tunnels_per_token") val c))
        absent
      ∙ pick_max_tunnels_per_token val (lookup (str "domain") u) (lookup (str "rate_limit") u)
          (lookup (str "global_rate_limit") u) (lookup (str "allow_registration") u)
          (lookup (str "dashboard_enabled") u) c

  pick_rate_limit :
      (val : JsonValue Float) (o₁ o₂ o₄ o₅ o₆ : Option (JsonValue Float)) (c : ServerConfig)
      → with_entries o₁ o₂ none o₄ o₅ o₆ (update_field int_of_float (str "rate_limit") val c)
        ≡ with_entries o₁ o₂ (some val) o₄ o₅ o₆ c
  unfolding update_field text_beq to_string to_bool to_int
  pick_rate_limit (string _) o₁ o₂ o₄ o₅ o₆ c = refl
  pick_rate_limit (boolean _) o₁ o₂ o₄ o₅ o₆ c = refl
  pick_rate_limit (number _) o₁ o₂ o₄ o₅ o₆ c = refl
  pick_rate_limit (integer _) o₁ o₂ o₄ o₅ o₆ c = refl
  pick_rate_limit other_value o₁ o₂ o₄ o₅ o₆ c = refl

  rate_limit-Step : Step (str "rate_limit")
  unfolding lookup text_beq
  rate_limit-Step val u c absent =
      ap
        (λ o.
          with_entries (lookup (str "domain") u) (lookup (str "max_tunnels_per_token") u) o
            (lookup (str "global_rate_limit") u) (lookup (str "allow_registration") u)
            (lookup (str "dashboard_enabled") u)
            (update_field int_of_float (str "rate_limit") val c))
        absent
      ∙ pick_rate_limit val (lookup (str "domain") u) (lookup (str "max_tunnels_per_token") u)
          (lookup (str "global_rate_limit") u) (lookup (str "allow_registration") u)
          (lookup (str "dashboard_enabled") u) c

  pick_global_rate_limit :
      (val : JsonValue Float) (o₁ o₂ o₃ o₅ o₆ : Option (JsonValue Float)) (c : ServerConfig)
      → with_entries o₁ o₂ o₃ none o₅ o₆ (update_field int_of_float (str "global_rate_limit") val c)
        ≡ with_entries o₁ o₂ o₃ (some val) o₅ o₆ c
  unfolding update_field text_beq to_string to_bool to_int
  pick_global_rate_limit (string _) o₁ o₂ o₃ o₅ o₆ c = refl
  pick_global_rate_limit (boolean _) o₁ o₂ o₃ o₅ o₆ c = refl
  pick_global_rate_limit (number _) o₁ o₂ o₃ o₅ o₆ c = refl
  pick_global_rate_limit (integer _) o₁ o₂ o₃ o₅ o₆ c = refl
  pick_global_rate_limit other_value o₁ o₂ o₃ o₅ o₆ c = refl

  global_rate_limit-Step : Step (str "global_rate_limit")
  unfolding lookup text_beq
  global_rate_limit-Step val u c absent =
      ap
        (λ o.
          with_entries (lookup (str "domain") u) (lookup (str "max_tunnels_per_token") u)
            (lookup (str "rate_limit") u) o (lookup (str "allow_registration") u)
            (lookup (str "dashboard_enabled") u)
            (update_field int_of_float (str "global_rate_limit") val c))
        absent
      ∙ pick_global_rate_limit val (lookup (str "domain") u)
          (lookup (str "max_tunnels_per_token") u) (lookup (str "rate_limit") u)
          (lookup (str "allow_registration") u) (lookup (str "dashboard_enabled") u) c

  pick_allow_registration :
      (val : JsonValue Float) (o₁ o₂ o₃ o₄ o₆ : Option (JsonValue Float)) (c : ServerConfig)
      → with_entries o₁ o₂ o₃ o₄ none o₆
          (update_field int_of_float (str "allow_registration") val c)
        ≡ with_entries o₁ o₂ o₃ o₄ (some val) o₆ c
  unfolding update_field text_beq to_string to_bool to_int
  pick_allow_registration (string _) o₁ o₂ o₃ o₄ o₆ c = refl
  pick_allow_registration (boolean _) o₁ o₂ o₃ o₄ o₆ c = refl
  pick_allow_registration (number _) o₁ o₂ o₃ o₄ o₆ c = refl
  pick_allow_registration (integer _) o₁ o₂ o₃ o₄ o₆ c = refl
  pick_allow_registration other_value o₁ o₂ o₃ o₄ o₆ c = refl

  allow_registration-Step : Step (str "allow_registration")
  unfolding lookup text_beq
  allow_registration-Step val u c absent =
      ap
        (λ o.
          with_entries (lookup (str "domain") u) (lookup (str "max_tunnels_per_token") u)
            (lookup (str "rate_limit") u) (lookup (str "global_rate_limit") u) o
            (lookup (str "dashboard_enabled") u)
            (update_field int_of_float (str "allow_registration") val c))
        absent
      ∙ pick_allow_registration val (lookup (str "domain") u)
          (lookup (str "max_tunnels_per_token") u) (lookup (str "rate_limit") u)
          (lookup (str "global_rate_limit") u) (lookup (str "dashboard_enabled") u) c

  pick_dashboard_enabled :
      (val : JsonValue Float) (o₁ o₂ o₃ o₄ o₅ : Option (JsonValue Float)) (c : ServerConfig)
      → with_entries o₁ o₂ o₃ o₄ o₅ none (update_field int_of_float (str "dashboard_enabled") val c)
        ≡ with_entries o₁ o₂ o₃ o₄ o₅ (some val) c
  unfolding update_field text_beq to_string to_bool to_int
  pick_dashboard_enabled (string _) o₁ o₂ o₃ o₄ o₅ c = refl
  pick_dashboard_enabled (boolean _) o₁ o₂ o₃ o₄ o₅ c = refl
  pick_dashboard_enabled (number _) o₁ o₂ o₃ o₄ o₅ c = refl
  pick_dashboard_enabled (integer _) o₁ o₂ o₃ o₄ o₅ c = refl
  pick_dashboard_enabled other_value o₁ o₂ o₃ o₄ o₅ c = refl

  dashboard_enabled-Step : Step (str "dashboard_enabled")
  unfolding lookup text_beq
  dashboard_enabled-Step val u c absent =
      ap
        (λ o.
          with_entries (lookup (str "domain") u) (lookup (str "max_tunnels_per_token") u)
            (lookup (str "rate_limit") u) (lookup (str "global_rate_limit") u)
            (lookup (str "allow_registration") u) o
            (update_field int_of_float (str "dashboard_enabled") val c))
        absent
      ∙ pick_dashboard_enabled val (lookup (str "domain") u)
          (lookup (str "max_tunnels_per_token") u) (lookup (str "rate_limit") u)
          (lookup (str "global_rate_limit") u) (lookup (str "allow_registration") u) c

  -- A key that is none of the six is ignored.
  ignored-Step :
      (key : Text)
      → text_beq key (str "domain") ≡ false
      → text_beq key (str "max_tunnels_per_token") ≡ false
      → text_beq key (str "rate_limit") ≡ false
      → text_beq key (str "global_rate_limit") ≡ false
      → text_beq key (str "allow_registration") ≡ false
      → text_beq key (str "dashboard_enabled") ≡ false
      → Step key
  unfolding update_field lookup
  ignored-Step key h₁ h₂ h₃ h₄ h₅ h₆ val u c absent =
      simp (h₁, h₂, h₃, h₄, h₅, h₆, update_field, lookup) refl

  known-Step : (key name : Text) → Step name → (text_beq key name ≡ false → Step key) → Step key
  known-Step key name known rest = elim (Bool-cases (text_beq key name)) [
    | inl same ↦ subst Step (sym ((text_beq_iff key name).0 same)) known
    | inr differ ↦ rest differ
  ]

  any_key-Step : (key : Text) → Step key
  any_key-Step key = known-Step key (str "domain") domain-Step (λ h₁.
      known-Step key (str "max_tunnels_per_token") max_tunnels_per_token-Step (λ h₂.
        known-Step key (str "rate_limit") rate_limit-Step (λ h₃.
          known-Step key (str "global_rate_limit") global_rate_limit-Step (λ h₄.
            known-Step key (str "allow_registration") allow_registration-Step (λ h₅.
              known-Step key (str "dashboard_enabled") dashboard_enabled-Step
                (λ h₆. ignored-Step key h₁ h₂ h₃ h₄ h₅ h₆))))))

  -- UpdateConfig gives each of six fields the value that the object has for it, if that has the
  -- field's type, and changes no other field: listen addresses, tokens and secrets stay.
  pub update_fields-with_values :
      (u : Map Text (JsonValue Float)) (c : ServerConfig)
      → Distinct u
      → update_fields int_of_float u c ≡ with_values u c
  unfolding update_fields lookup
  update_fields-with_values [] c d = refl
  update_fields-with_values ((key, val) ∷ u) c d =
      update_fields-with_values u (update_field int_of_float key val c) d.1
      ∙ any_key-Step key val u c d.0
