-- ===== src/Logger/Redaction.antt =====
-- Which of the secrets in the arguments of a call reach the log.
use fastapi_template.Prelude.{
  String as Text, ◌≡◌, refl, ap, ◌∙◌, Bool, true, false, ◌&&◌, ◌||◌, if◌then◌else◌, ◌==◌, string_eq,
  Bool-cases, inl, inr, not, arith,
}
use fastapi_template.Logger.{
  Value, Items, Fields, nil, cons, text, number, boolean, nothing, items, dict, model, other, end,
  field, is_secret, str_items, redact_open, redact_fields, redact_value,
}

abbrev is_mask : Value → Bool
is_mask (text s) = s == "********"
is_mask other_value = false

module _ (lower : Text → Text) (reveals : Text → Bool) where
  -- No text within a logged value reveals a secret, and no secret key, however deep, stands before
  -- anything but the mask.
  mutual
    pub hides : Value → Bool
    hides (text s) = not (reveals s)
    hides (number n) = true
    hides (boolean b) = true
    hides nothing = true
    hides (items vs) = hides_items vs
    hides (dict fs) = hides_fields fs
    hides (model fs) = hides_fields fs
    hides (other s) = not (reveals s)

    pub hides_items : Items → Bool
    hides_items nil = true
    hides_items (cons v vs) = hides v && hides_items vs

    pub hides_fields : Fields → Bool
    hides_fields end = true
    hides_fields (field k v fs) =
        (if is_secret lower k then is_mask v else hides v) && hides_fields fs

  -- Outside of what a secret key masks, the lists and the models of a value have no secrets of their
  -- own, and no text of it reveals one.
  mutual
    unfolding hides

    pub clean : Value → Bool
    clean (text s) = not (reveals s)
    clean (number n) = true
    clean (boolean b) = true
    clean nothing = true
    clean (items vs) = hides_items vs
    clean (dict fs) = clean_fields fs
    clean (model fs) = hides_fields fs
    clean (other s) = not (reveals s)

    pub clean_fields : Fields → Bool
    clean_fields end = true
    clean_fields (field k v fs) = (is_secret lower k || clean v) && clean_fields fs

  module _ (str : Value → Text) (prints : (v : Value) → reveals (str v) ≡ not (hides v)) where
    hides-str_items : (vs : Items) → hides_items (str_items lower str vs) ≡ hides_items vs
    unfolding str_items hides
    hides-str_items nil = refl
    hides-str_items (cons v vs) = ground (arith, prints v, hides-str_items vs)

    mutual
      unfolding redact_open hides clean

      hides-redact_open : (v : Value) → hides (redact_open lower str v) ≡ clean v
      hides-redact_open (text s) = refl
      hides-redact_open (number n) = refl
      hides-redact_open (boolean b) = refl
      hides-redact_open nothing = refl
      hides-redact_open (items vs) = hides-str_items vs
      hides-redact_open (dict fs) = hides-redact_fields fs
      hides-redact_open (model fs) = refl
      hides-redact_open (other s) = refl

      hides-redact_fields :
          (fs : Fields) → hides_fields (redact_fields lower str fs) ≡ clean_fields fs
      hides-redact_fields end = refl
      hides-redact_fields (field k v fs) = elim (Bool-cases (is_secret lower k)) [
        | inl hidden ↦ rw hidden (hides-redact_fields fs)
        | inr shown ↦ rw shown (
            ap (λ b. b && hides_fields (redact_fields lower str fs)) (hides-redact_open v)
            ∙ ap (λ b. clean v && b) (hides-redact_fields fs))
      ]

    pub hides-redact_value :
        reveals "********" ≡ false
        → (key : Text) (v : Value)
        → hides (redact_value lower str key v) ≡ (is_secret lower key || clean v)
    unfolding redact_value hides
    hides-redact_value masked key v = elim (Bool-cases (is_secret lower key)) [
      | inl hidden ↦ rw hidden (ap not masked)
      | inr shown ↦ rw shown (hides-redact_open v)
    ]
