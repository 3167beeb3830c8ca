-- ===== src/Security/Data/Trimmed.antt =====
-- What `sanitize_dict` leaves.
use fastapi_template.Prelude.{ℕ, String as Text, Bool, true, ◌&&◌, leb, ◌≡◌, refl, ap, arith}
use fastapi_template.Logger.{
  Value, text, number, boolean, nothing, items, dict, model, other, Items, nil, cons, Fields, end,
  field,
}
use fastapi_template.Security.Identifier.{size, truncate, size-truncate, truncate-short}
use fastapi_template.Security.Data.{sanitize_dict, sanitize_value, sanitize_items, sanitize_item}

-- Every text within is at most this long, the texts of models and of lists within lists aside.
mutual
  fits_dict : ℕ → Fields → Bool
  fits_dict n end = true
  fits_dict n (field k v fs) = fits_value n v && fits_dict n fs

  fits_value : ℕ → Value → Bool
  fits_value n (text s) = leb (size s) n
  fits_value n (items vs) = fits_items n vs
  fits_value n (dict fs) = fits_dict n fs
  fits_value n (number m) = true
  fits_value n (boolean b) = true
  fits_value n nothing = true
  fits_value n (model fs) = true
  fits_value n (other s) = true

  fits_items : ℕ → Items → Bool
  fits_items n nil = true
  fits_items n (cons v vs) = fits_item n v && fits_items n vs

  fits_item : ℕ → Value → Bool
  fits_item n (text s) = leb (size s) n
  fits_item n (dict fs) = fits_dict n fs
  fits_item n (items vs) = true
  fits_item n (number m) = true
  fits_item n (boolean b) = true
  fits_item n nothing = true
  fits_item n (model fs) = true
  fits_item n (other s) = true

fits-truncate : (n : ℕ) (s : Text) → leb (size (truncate n s)) n ≡ true
fits-truncate n s = ground (arith, size-truncate n s)

mutual
  unfolding sanitize_dict fits_dict

  fits-sanitize_dict : (n : ℕ) (fs : Fields) → fits_dict n (sanitize_dict n fs) ≡ true
  fits-sanitize_dict n end = refl
  fits-sanitize_dict n (field k v fs) = rw (fits-sanitize_value n v, fits-sanitize_dict n fs) refl

  fits-sanitize_value : (n : ℕ) (v : Value) → fits_value n (sanitize_value n v) ≡ true
  fits-sanitize_value n (text s) = fits-truncate n s
  fits-sanitize_value n (items vs) = fits-sanitize_items n vs
  fits-sanitize_value n (dict fs) = fits-sanitize_dict n fs
  fits-sanitize_value n (number m) = refl
  fits-sanitize_value n (boolean b) = refl
  fits-sanitize_value n nothing = refl
  fits-sanitize_value n (model fs) = refl
  fits-sanitize_value n (other s) = refl

  fits-sanitize_items : (n : ℕ) (vs : Items) → fits_items n (sanitize_items n vs) ≡ true
  fits-sanitize_items n nil = refl
  fits-sanitize_items n (cons v vs) = rw (fits-sanitize_item n v, fits-sanitize_items n vs) refl

  fits-sanitize_item : (n : ℕ) (v : Value) → fits_item n (sanitize_item n v) ≡ true
  fits-sanitize_item n (text s) = fits-truncate n s
  fits-sanitize_item n (dict fs) = fits-sanitize_dict n fs
  fits-sanitize_item n (items vs) = refl
  fits-sanitize_item n (number m) = refl
  fits-sanitize_item n (boolean b) = refl
  fits-sanitize_item n nothing = refl
  fits-sanitize_item n (model fs) = refl
  fits-sanitize_item n (other s) = refl

left : (a b : Bool) → (a && b) ≡ true → a ≡ true
left a b h = ground arith

right : (a b : Bool) → (a && b) ≡ true → b ≡ true
right a b h = ground arith

truncate-fits : (n : ℕ) (s : Text) → leb (size s) n ≡ true → truncate n s ≡ s
truncate-fits n s h = truncate-short n s (ground arith)

mutual
  unfolding sanitize_dict fits_dict

  same_dict : (n : ℕ) (fs : Fields) → fits_dict n fs ≡ true → sanitize_dict n fs ≡ fs
  same_dict n end h = refl
  same_dict n (field k v fs) h =
      rw
        (
          same_value n v (left (fits_value n v) (fits_dict n fs) h),
          same_dict n fs (right (fits_value n v) (fits_dict n fs) h),
        )
        refl

  same_value : (n : ℕ) (v : Value) → fits_value n v ≡ true → sanitize_value n v ≡ v
  same_value n (text s) h = ap text (truncate-fits n s h)
  same_value n (items vs) h = ap items (same_items n vs h)
  same_value n (dict fs) h = ap dict (same_dict n fs h)
  same_value n (number m) h = refl
  same_value n (boolean b) h = refl
  same_value n nothing h = refl
  same_value n (model fs) h = refl
  same_value n (other s) h = refl

  same_items : (n : ℕ) (vs : Items) → fits_items n vs ≡ true → sanitize_items n vs ≡ vs
  same_items n nil h = refl
  same_items n (cons v vs) h =
      rw
        (
          same_item n v (left (fits_item n v) (fits_items n vs) h),
          same_items n vs (right (fits_item n v) (fits_items n vs) h),
        )
        refl

  same_item : (n : ℕ) (v : Value) → fits_item n v ≡ true → sanitize_item n v ≡ v
  same_item n (text s) h = ap text (truncate-fits n s h)
  same_item n (dict fs) h = ap dict (same_dict n fs h)
  same_item n (items vs) h = refl
  same_item n (number m) h = refl
  same_item n (boolean b) h = refl
  same_item n nothing h = refl
  same_item n (model fs) h = refl
  same_item n (other s) h = refl

-- Trimming cuts every text that it reaches to the bound, leaves a dictionary that is within the bound as
-- it is, and so changes nothing the second time.
sanitize_dict-trimmed :
    (n : ℕ) (fs : Fields)
    → (fits_dict n (sanitize_dict n fs) ≡ true)
      × (fits_dict n fs ≡ true → sanitize_dict n fs ≡ fs)
      × (sanitize_dict n (sanitize_dict n fs) ≡ sanitize_dict n fs)
sanitize_dict-trimmed n fs = (
  fits-sanitize_dict n fs,
  same_dict n fs,
  same_dict n (sanitize_dict n fs) (fits-sanitize_dict n fs),
)
