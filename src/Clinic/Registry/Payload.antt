-- ===== src/Clinic/Registry/Payload.antt =====
-- Proofs about packages/clinic/src/wutai_clinic/evidence/registry.py: the gates on payloads and secrets
-- look into every value of a context, however deep.
use agent_runtime_observator.Prelude.{
  ◌≡◌, refl, sym, ap, ◌∙◌, ◌↔◌, inl, inr, Bool, true, false, not, ◌||◌, String, any, arith,
  Bool-cases,
}
use agent_runtime_observator.Json.{
  Value, null, bool, int, float, str, arr, obj, Items, nil, item, Fields, end, field,
}
use agent_runtime_observator.Clinic.Registry.{
  has_raw_key, contains_raw_payload, raw_in_items, raw_in_fields, no_raw_payload, secret_patterns,
  contains_secret_literal, secret_in_items, secret_in_fields, no_secret_literal,
}

pub data MemItems (v : Value) : Items → Type 0 where
  first : (xs : Items) → MemItems v (item v xs)
  later : (w : Value) (xs : Items) → MemItems v xs → MemItems v (item w xs)

pub data MemFields (v : Value) : Fields → Type 0 where
  first : (k : String) (fs : Fields) → MemFields v (field k v fs)
  later : (k : String) (w : Value) (fs : Fields) → MemFields v fs → MemFields v (field k w fs)

-- A value stands in another, at any depth.
pub data Within (v : Value) : Value → Type 0 where
  itself : Within v v
  in_list : (w : Value) (xs : Items) → MemItems w xs → Within v w → Within v (arr xs)
  in_dict : (w : Value) (fs : Fields) → MemFields w fs → Within v w → Within v (obj fs)

module _ (test : Value → Bool) where
  mutual
    found : Value → Bool
    found (arr xs) = test (arr xs) || found_in_items xs
    found (obj fs) = test (obj fs) || found_in_fields fs
    found null = test null
    found (bool b) = test (bool b)
    found (int n) = test (int n)
    found (float t) = test (float t)
    found (str s) = test (str s)

    found_in_items : Items → Bool
    found_in_items nil = false
    found_in_items (item v xs) = found v || found_in_items xs

    found_in_fields : Fields → Bool
    found_in_fields end = false
    found_in_fields (field k v fs) = found v || found_in_fields fs

  item-found : {w : Value} {xs : Items} → MemItems w xs → found w ≡ true → found_in_items xs ≡ true
  unfolding found
  item-found (MemItems.first xs) h = ground (arith, h)
  item-found (MemItems.later w xs m) h = ground (arith, item-found m h)

  field-found :
      {w : Value} {fs : Fields} → MemFields w fs → found w ≡ true → found_in_fields fs ≡ true
  unfolding found
  field-found (MemFields.first k fs) h = ground (arith, h)
  field-found (MemFields.later k w fs m) h = ground (arith, field-found m h)

  test-found : (v : Value) → test v ≡ true → found v ≡ true
  unfolding found
  test-found (arr xs) h = ground (arith, h)
  test-found (obj fs) h = ground (arith, h)
  test-found null h = h
  test-found (bool b) h = h
  test-found (int n) h = h
  test-found (float t) h = h
  test-found (str s) h = h

  Within-found : {v w : Value} → Within v w → test v ≡ true → found w ≡ true
  unfolding found
  Within-found {v = v} Within.itself h = test-found v h
  Within-found (Within.in_list w xs m i) h = ground (arith, item-found m (Within-found i h))
  Within-found (Within.in_dict w fs m i) h = ground (arith, field-found m (Within-found i h))

  -- What is found stands somewhere.
  abbrev Finds : Value → Type 0
  Finds v = (u : Value) × Within u v × (test u ≡ true)

  mutual
    unfolding found

    found-Finds : (v : Value) → found v ≡ true → Finds v
    found-Finds (arr xs) h = elim (Bool-cases (test (arr xs))) [
      | inl e ↦ (arr xs, Within.itself, e)
      | inr e ↦
          let (w, m, (u, i, t)) = items-Finds xs (ground (arith, h, e)) in
          (u, Within.in_list w xs m i, t)
    ]
    found-Finds (obj fs) h = elim (Bool-cases (test (obj fs))) [
      | inl e ↦ (obj fs, Within.itself, e)
      | inr e ↦
          let (w, m, (u, i, t)) = fields-Finds fs (ground (arith, h, e)) in
          (u, Within.in_dict w fs m i, t)
    ]
    found-Finds null h = (null, Within.itself, h)
    found-Finds (bool b) h = (bool b, Within.itself, h)
    found-Finds (int n) h = (int n, Within.itself, h)
    found-Finds (float t) h = (float t, Within.itself, h)
    found-Finds (str s) h = (str s, Within.itself, h)

    items-Finds : (xs : Items) → found_in_items xs ≡ true → (w : Value) × MemItems w xs × Finds w
    items-Finds nil h = cc
    items-Finds (item v xs) h = elim (Bool-cases (found v)) [
      | inl e ↦ (v, MemItems.first xs, found-Finds v e)
      | inr e ↦
          let (w, m, f) = items-Finds xs (ground (arith, h, e)) in (w, MemItems.later v xs m, f)
    ]

    fields-Finds :
        (fs : Fields) → found_in_fields fs ≡ true → (w : Value) × MemFields w fs × Finds w
    fields-Finds end h = cc
    fields-Finds (field k v fs) h = elim (Bool-cases (found v)) [
      | inl e ↦ (v, MemFields.first k fs, found-Finds v e)
      | inr e ↦
          let (w, m, f) = fields-Finds fs (ground (arith, h, e)) in (w, MemFields.later k v fs m, f)
    ]

has_raw : Value → Bool
has_raw (obj fs) = has_raw_key fs
has_raw _ = false

mutual
  unfolding found has_raw contains_raw_payload

  raw-found : (v : Value) → contains_raw_payload v ≡ found has_raw v
  raw-found (arr xs) = raw-found_items xs
  raw-found (obj fs) = ap (λ b. has_raw_key fs || b) (raw-found_fields fs)
  raw-found null = refl
  raw-found (bool b) = refl
  raw-found (int n) = refl
  raw-found (float t) = refl
  raw-found (str s) = refl

  raw-found_items : (xs : Items) → raw_in_items xs ≡ found_in_items has_raw xs
  raw-found_items nil = refl
  raw-found_items (item v xs) = ground (arith, raw-found v, raw-found_items xs)

  raw-found_fields : (fs : Fields) → raw_in_fields fs ≡ found_in_fields has_raw fs
  raw-found_fields end = refl
  raw-found_fields (field k v fs) = ground (arith, raw-found v, raw-found_fields fs)

raw-dict :
    (context u : Value)
    → has_raw u ≡ true
    → Within u context
    → (d : Fields) × Within (obj d) context × (has_raw_key d ≡ true)
unfolding has_raw
raw-dict context (obj d) h i = (d, i, h)
raw-dict context (arr xs) h i = cc
raw-dict context null h i = cc
raw-dict context (bool b) h i = cc
raw-dict context (int n) h i = cc
raw-dict context (float t) h i = cc
raw-dict context (str s) h i = cc

no_raw_payload_iff :
    (context : Fields)
    → (no_raw_payload context ≡ true)
      ↔ ((d : Fields) → Within (obj d) (obj context) → has_raw_key d ≡ false)
unfolding no_raw_payload has_raw
no_raw_payload_iff context = (
  λ h d i. elim (Bool-cases (has_raw_key d)) [
    | inl e ↦ let raw = raw-found (obj context) ∙ Within-found has_raw i e in ground (arith, h, raw)
    | inr e ↦ e
  ],
  λ h. elim (Bool-cases (contains_raw_payload (obj context))) [
    | inl e ↦
        let (u, i, t) = found-Finds has_raw (obj context) (sym (raw-found (obj context)) ∙ e) in
        let (d, j, raw) = raw-dict (obj context) u t i in cc (sym raw ∙ h d j)
    | inr e ↦ ap not e
  ],
)

module _ (searches : String → String → Bool) where
  abbrev pub is_secret : String → Bool
  is_secret s = any (λ pattern. searches pattern s) secret_patterns

  has_secret : Value → Bool
  has_secret (str s) = is_secret s
  has_secret _ = false

  mutual
    unfolding found has_secret contains_secret_literal

    secret-found : (v : Value) → contains_secret_literal searches v ≡ found has_secret v
    secret-found (arr xs) = secret-found_items xs
    secret-found (obj fs) = secret-found_fields fs
    secret-found null = refl
    secret-found (bool b) = refl
    secret-found (int n) = refl
    secret-found (float t) = refl
    secret-found (str s) = refl

    secret-found_items : (xs : Items) → secret_in_items searches xs ≡ found_in_items has_secret xs
    secret-found_items nil = refl
    secret-found_items (item v xs) = ground (arith, secret-found v, secret-found_items xs)

    secret-found_fields :
        (fs : Fields) → secret_in_fields searches fs ≡ found_in_fields has_secret fs
    secret-found_fields end = refl
    secret-found_fields (field k v fs) = ground (arith, secret-found v, secret-found_fields fs)

  secret-text :
      (context u : Value)
      → has_secret u ≡ true
      → Within u context
      → (s : String) × Within (str s) context × (is_secret s ≡ true)
  unfolding has_secret
  secret-text context (str s) h i = (s, i, h)
  secret-text context (obj d) h i = cc
  secret-text context (arr xs) h i = cc
  secret-text context null h i = cc
  secret-text context (bool b) h i = cc
  secret-text context (int n) h i = cc
  secret-text context (float t) h i = cc

  no_secret_literal_iff :
      (context : Fields)
      → (no_secret_literal searches context ≡ true)
        ↔ ((s : String) → Within (str s) (obj context) → is_secret s ≡ false)
  unfolding no_secret_literal has_secret
  no_secret_literal_iff context = (
    λ h s i. elim (Bool-cases (is_secret s)) [
      | inl e ↦
          let secret = secret-found (obj context) ∙ Within-found has_secret i e in
          ground (arith, h, secret)
      | inr e ↦ e
    ],
    λ h. elim (Bool-cases (contains_secret_literal searches (obj context))) [
      | inl e ↦
          let (u, i, t) =
            found-Finds has_secret (obj context) (sym (secret-found (obj context)) ∙ e) in
          let (s, j, secret) = secret-text (obj context) u t i in cc (sym secret ∙ h s j)
      | inr e ↦ ap not e
    ],
  )

  -- A context passes both gates exactly if, at every depth, no dict has a key of a raw payload and no
  -- text that is the value of a key or an item of a list matches the pattern of a secret; the keys
  -- themselves are not matched.
  pub payload_gates_iff :
      (context : Fields)
      → ((no_raw_payload context ≡ true) × (no_secret_literal searches context ≡ true)) ↔ (
          ((d : Fields) → Within (obj d) (obj context) → has_raw_key d ≡ false)
          × ((s : String) → Within (str s) (obj context) → is_secret s ≡ false))
  payload_gates_iff context =
      let raw = no_raw_payload_iff context in
      let secret = no_secret_literal_iff context in
      (λ h. (raw.0 h.0, secret.0 h.1), λ h. (raw.1 h.0, secret.1 h.1))
