-- ===== src/Security/Data/Filenames.antt =====
-- The names that `safe_filename` returns.
use Prim.Native.String.{[], ◌∷◌}
use Prim.Native.Char.{Char}
use fastapi_template.Prelude.{
  ℕ, suc, ◌+◌, ◌-◌, ◌≤◌, String as Text, Bool, true, ◌&&◌, ◌≡◌, refl, arith, Bool-cases, inl, inr,
  Option, some, none,
}
use fastapi_template.Security.Identifier.{size, every, truncate, size-truncate, every-truncate}
use fastapi_template.Security.Data.{
  is_dot, is_edge, snoc_edge, rstrip_edges, lstrip_edges, strip_edges, or_file, before_dot,
  rpartition_dot, join, slice_to, is_name_char, replace_others, cut_plain, cut_filename,
  bound_filename, safe_filename, without_traversal,
}

size-snoc_edge : (c : Char) (s : Text) → size (snoc_edge c s) ≤ suc (size s)
unfolding size snoc_edge
size-snoc_edge c [] = elim (Bool-cases (is_edge c)) [
  | inl edge ↦ rw edge (omega arith)
  | inr inner ↦ rw inner (omega arith)
]
size-snoc_edge c (d ∷ s) = omega arith

size-rstrip_edges : (s : Text) → size (rstrip_edges s) ≤ size s
unfolding size rstrip_edges
size-rstrip_edges [] = omega arith
size-rstrip_edges (c ∷ s) = omega (arith, size-snoc_edge c (rstrip_edges s), size-rstrip_edges s)

size-lstrip_edges : (s : Text) → size (lstrip_edges s) ≤ size s
unfolding size lstrip_edges
size-lstrip_edges [] = omega arith
size-lstrip_edges (c ∷ s) = ground (arith, size-lstrip_edges s)

size-strip_edges : (s : Text) → size (strip_edges s) ≤ size s
unfolding strip_edges
size-strip_edges s = omega (arith, size-lstrip_edges (rstrip_edges s), size-rstrip_edges s)

size-or_file : (s : Text) (n : ℕ) → size s ≤ n → 4 ≤ n → size (or_file s) ≤ n
unfolding size
size-or_file [] n h k = k
size-or_file (c ∷ s) n h k = h

size-join : (s t : Text) → size (join s t) ≡ size s + size t
unfolding size join
size-join [] t = omega arith
size-join (c ∷ s) t = omega (arith, size-join s t)

size-slice_to : (a b : ℕ) (s : Text) → b ≤ a → size (slice_to a b s) ≤ a - b
unfolding slice_to
size-slice_to a b s h = ground (arith, size-truncate (a - b) s)

size-cut_plain : (n : ℕ) (s : Text) → size (cut_plain n s) ≤ n
unfolding cut_plain
size-cut_plain n s = omega (arith, size-strip_edges (truncate n s), size-truncate n s)

size-cut_stem :
    (n : ℕ) (stem ext : Text)
    → 15 ≤ n
    → size ext ≤ 10
    → size (join (or_file (strip_edges (slice_to n (size ext + 1) stem))) ("." ∷ ext)) ≤ n
size-cut_stem n stem ext h short =
    let cut = slice_to n (size ext + 1) stem in
    let bound : size (strip_edges cut) ≤ n - (size ext + 1) =
      omega (arith, size-strip_edges cut, size-slice_to n (size ext + 1) stem (omega arith)) in
    let bound' : size (or_file (strip_edges cut)) ≤ n - (size ext + 1) =
      size-or_file (strip_edges cut) (n - (size ext + 1)) bound (omega arith) in
    unfold size in omega (arith, size-join (or_file (strip_edges cut)) ("." ∷ ext))

size-cut_filename :
    (n : ℕ) (value : Text) (parts : Option (Text × Text))
    → 15 ≤ n
    → size (cut_filename n value parts) ≤ n
unfolding cut_filename
size-cut_filename n value none h = size-cut_plain n value
size-cut_filename n value (some (stem, ext)) h =
    ground (arith, size-cut_plain n value, size-cut_stem n stem ext h)

size-bound_filename : (n : ℕ) (value : Text) → 15 ≤ n → size (bound_filename n value) ≤ n
unfolding bound_filename
size-bound_filename n value h = ground (arith, size-cut_filename n value (rpartition_dot value) h)

every-snoc_edge :
    (p : Char → Bool) (c : Char) (s : Text)
    → p c ≡ true
    → every p s ≡ true
    → every p (snoc_edge c s) ≡ true
unfolding every snoc_edge
every-snoc_edge p c [] h k = elim (Bool-cases (is_edge c)) [
  | inl edge ↦ rw edge refl
  | inr inner ↦ rw inner (ground arith)
]
every-snoc_edge p c (d ∷ s) h k = ground arith

every-rstrip_edges :
    (p : Char → Bool) (s : Text) → every p s ≡ true → every p (rstrip_edges s) ≡ true
unfolding rstrip_edges
every-rstrip_edges p [] h = h
every-rstrip_edges p (c ∷ s) h =
    let first : p c ≡ true = unfold every in ground arith in
    let rest : every p s ≡ true = unfold every in ground arith in
    every-snoc_edge p c (rstrip_edges s) first (every-rstrip_edges p s rest)

every-lstrip_edges :
    (p : Char → Bool) (s : Text) → every p s ≡ true → every p (lstrip_edges s) ≡ true
unfolding every lstrip_edges
every-lstrip_edges p [] h = h
every-lstrip_edges p (c ∷ s) h = ground (arith, every-lstrip_edges p s)

every-strip_edges : (p : Char → Bool) (s : Text) → every p s ≡ true → every p (strip_edges s) ≡ true
unfolding strip_edges
every-strip_edges p s h = every-lstrip_edges p (rstrip_edges s) (every-rstrip_edges p s h)

every-or_file :
    (p : Char → Bool) (s : Text)
    → every p "file" ≡ true
    → every p s ≡ true
    → every p (or_file s) ≡ true
every-or_file p [] file h = file
every-or_file p (c ∷ s) file h = h

every-join :
    (p : Char → Bool) (s t : Text) → every p s ≡ true → every p t ≡ true → every p (join s t) ≡ true
unfolding every join
every-join p [] t h k = k
every-join p (c ∷ s) t h k = ground (arith, every-join p s t)

every-slice_to :
    (p : Char → Bool) (a b : ℕ) (s : Text) → every p s ≡ true → every p (slice_to a b s) ≡ true
unfolding slice_to
every-slice_to p a b s h =
    ground (arith, every-truncate p (a - b) s, every-truncate p (size s - (b - a)) s)

every-cut_plain :
    (p : Char → Bool) (n : ℕ) (s : Text) → every p s ≡ true → every p (cut_plain n s) ≡ true
unfolding cut_plain
every-cut_plain p n s h = every-strip_edges p (truncate n s) (every-truncate p n s h)

-- The characters of both parts.
every-parts : (p : Char → Bool) → Option (Text × Text) → Bool
every-parts p none = true
every-parts p (some (stem, ext)) = every p stem && every p ext

every-replace_others :
    (w : Char → Bool) (s : Text) → w "_" ≡ true → every (is_name_char w) (replace_others w s) ≡ true
unfolding every replace_others is_name_char
every-replace_others w [] h = refl
every-replace_others w (c ∷ s) h = ground (arith, every-replace_others w s h)

every-before_dot :
    (p : Char → Bool) (c : Char) (s : Text) (parts : Option (Text × Text))
    → every p (c ∷ s) ≡ true
    → every-parts p parts ≡ true
    → every-parts p (before_dot c s parts) ≡ true
unfolding every every-parts
every-before_dot p c s none h k = elim (Bool-cases (is_dot c)) [
  | inl dot ↦ rw dot (ground arith)
  | inr inner ↦ rw inner refl
]
every-before_dot p c s (some (stem, ext)) h k = ground arith

every-rpartition_dot :
    (p : Char → Bool) (s : Text) → every p s ≡ true → every-parts p (rpartition_dot s) ≡ true
unfolding rpartition_dot
every-rpartition_dot p [] h = unfold every-parts in refl
every-rpartition_dot p (c ∷ s) h =
    let rest : every p s ≡ true = unfold every in ground arith in
    every-before_dot p c s (rpartition_dot s) h (every-rpartition_dot p s rest)

every-cut_stem :
    (p : Char → Bool) (n : ℕ) (stem ext : Text)
    → every p "file" ≡ true
    → p "." ≡ true
    → every p stem ≡ true
    → every p ext ≡ true
    → every p (join (or_file (strip_edges (slice_to n (size ext + 1) stem))) ("." ∷ ext)) ≡ true
every-cut_stem p n stem ext file dot h k =
    let cut = slice_to n (size ext + 1) stem in
    every-join p (or_file (strip_edges cut)) ("." ∷ ext)
      (every-or_file p (strip_edges cut) file
        (every-strip_edges p cut (every-slice_to p n (size ext + 1) stem h)))
      (unfold every in ground arith)

every-cut_filename :
    (p : Char → Bool) (n : ℕ) (value : Text) (parts : Option (Text × Text))
    → every p "file" ≡ true
    → p "." ≡ true
    → every p value ≡ true
    → every-parts p parts ≡ true
    → every p (cut_filename n value parts) ≡ true
unfolding cut_filename every-parts
every-cut_filename p n value none file dot h k = every-cut_plain p n value h
every-cut_filename p n value (some (stem, ext)) file dot h k =
    ground (arith, every-cut_plain p n value h, every-cut_stem p n stem ext file dot)

every-bound_filename :
    (p : Char → Bool) (n : ℕ) (value : Text)
    → every p "file" ≡ true
    → p "." ≡ true
    → every p value ≡ true
    → every p (bound_filename n value) ≡ true
unfolding bound_filename
every-bound_filename p n value file dot h = ground (
  arith,
  every-cut_filename p n value (rpartition_dot value) file dot h (every-rpartition_dot p value h),
)

word-name : (w : Char → Bool) (s : Text) → every w s ≡ true → every (is_name_char w) s ≡ true
unfolding every is_name_char
word-name w [] h = refl
word-name w (c ∷ s) h = ground (arith, word-name w s)

-- Where letters and the underscore are word characters, the name has only word characters, dots and
-- dashes, so no separator of a path, and for a bound of at least 15 no more than the bound.
safe_filename_lem :
    (is_word : Char → Bool) (max_len : ℕ) (value : Text)
    → every is_word "file_" ≡ true
    → (every (is_name_char is_word) (safe_filename is_word max_len value) ≡ true)
      × (15 ≤ max_len → size (safe_filename is_word max_len value) ≤ max_len)
unfolding safe_filename
safe_filename_lem is_word max_len value h =
    let file : every is_word "file" ≡ true = unfold every in ground arith in
    let line : is_word "_" ≡ true = unfold every in ground arith in
    let dot : is_name_char is_word "." ≡ true = unfold is_name_char in ground arith in
    let replaced = replace_others is_word (without_traversal 0 value) in
    let name = or_file (strip_edges replaced) in
    let p = is_name_char is_word in
    (
      every-bound_filename p max_len name (word-name is_word "file" file) dot (
          every-or_file p (strip_edges replaced) (word-name is_word "file" file) (
            every-strip_edges p replaced
              (every-replace_others is_word (without_traversal 0 value) line))),
      λ enough. size-bound_filename max_len name enough,
    )
