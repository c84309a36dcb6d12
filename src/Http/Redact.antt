-- ===== src/Http/Redact.antt =====
-- redact of internal/httpapi/middleware.go, which takes secrets out of a request's body before it is
-- logged, on the values that encoding/json decodes to. `fold` is strings.EqualFold.
use frp_easy.Prelude.{
  ◌≡◌, refl, Bool, true, false, ◌||◌, List, [], ◌∷◌, String, if◌then◌else◌, arith, Bool-cases, inl,
  inr,
}

mutual
  pub data Json : Type 0 where
    null : Json
    bool : Bool → Json
    number string : String → Json
    array : Items → Json
    object : Fields → Json

  pub data Items : Type 0 where
    no_items : Items
    item : Json → Items → Items

  pub data Fields : Type 0 where
    no_fields : Fields
    field : String → Json → Fields → Fields

abbrev pub redact_keys : List String
redact_keys = "password" ∷ "oldPassword" ∷ "newPassword" ∷ "authToken" ∷ "token" ∷ []

module _ (fold : String → String → Bool) where
  unfoldable pub contains_fold : List String → String → Bool
  contains_fold [] k = false
  contains_fold (x ∷ ks) k = fold x k || contains_fold ks k

  unfoldable mutual
    pub redact_value : List String → Json → Json
    redact_value ks null = null
    redact_value ks (bool b) = bool b
    redact_value ks (number n) = number n
    redact_value ks (string s) = string s
    redact_value ks (array xs) = array (redact_items ks xs)
    redact_value ks (object fs) = object (redact_fields ks fs)

    pub redact_items : List String → Items → Items
    redact_items ks no_items = no_items
    redact_items ks (item x xs) = item (redact_value ks x) (redact_items ks xs)

    pub redact_fields : List String → Fields → Fields
    redact_fields ks no_fields = no_fields
    redact_fields ks (field k v fs) =
        let kept = redact_value ks v in
        let rest = redact_fields ks fs in
        field k (if contains_fold ks k then string "***" else kept) rest

  -- every value under a secret key is masked, at any depth
  abbrev mutual
    pub Masked : List String → Json → Type 0
    Masked ks (array xs) = MaskedItems ks xs
    Masked ks (object fs) = MaskedFields ks fs
    Masked ks _ = Unit

    pub MaskedItems : List String → Items → Type 0
    MaskedItems ks no_items = Unit
    MaskedItems ks (item x xs) = Masked ks x × MaskedItems ks xs

    pub MaskedFields : List String → Fields → Type 0
    MaskedFields ks no_fields = Unit
    MaskedFields ks (field k v fs) =
        (contains_fold ks k ≡ true → v ≡ string "***") × Masked ks v × MaskedFields ks fs

  mutual
    unfolding redact_value

    redacted_value : (ks : List String) (v : Json) → Masked ks (redact_value ks v)
    redacted_value ks null = tt
    redacted_value ks (bool b) = tt
    redacted_value ks (number n) = tt
    redacted_value ks (string t) = tt
    redacted_value ks (array xs) = redacted_items ks xs
    redacted_value ks (object fs) = redacted_fields ks fs

    redacted_items : (ks : List String) (xs : Items) → MaskedItems ks (redact_items ks xs)
    redacted_items ks no_items = tt
    redacted_items ks (item x xs) = (redacted_value ks x, redacted_items ks xs)

    redacted_fields : (ks : List String) (fs : Fields) → MaskedFields ks (redact_fields ks fs)
    redacted_fields ks no_fields = tt
    redacted_fields ks (field k v fs) = elim (Bool-cases (contains_fold ks k)) [
      | inl e ↦ rw e (λ _. refl, tt, redacted_fields ks fs)
      | inr e ↦ rw e (λ x. absurd (ground (arith, x)), redacted_value ks v, redacted_fields ks fs)
    ]
