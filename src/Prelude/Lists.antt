-- ===== src/Prelude/Lists.antt =====
-- Lists measured and indexed by native numbers, under the library's names.
use Prim.Native.Nat.{ℕ, zero, suc, ◌+◌, ◌-◌, ◌/◌, ◌≤◌, ◌<◌, min}
use mathlib.Core.Path.{◌≡◌, refl, sym, ap, ◌∙◌}
use mathlib.Core.List.{List, [], ◌∷◌, ◌++◌, map}
use mathlib.Core.Option.{Option, none, some}
use native.Mathlib.Omega.{arith}

module _ {ℓ} {A : Type ℓ} where
  abbrev pub length : List A → ℕ
  length [] = 0
  length (x ∷ xs) = suc (length xs)

  abbrev pub get_elem? : List A → ℕ → Option A
  get_elem? [] i = none
  get_elem? (x ∷ xs) zero = some x
  get_elem? (x ∷ xs) (suc i) = get_elem? xs i

  abbrev pub get_or : List A → ℕ → A → A
  get_or [] i d = d
  get_or (x ∷ xs) zero d = x
  get_or (x ∷ xs) (suc i) d = get_or xs i d

  -- A write out of bounds changes nothing.
  abbrev pub set : List A → ℕ → A → List A
  set [] i v = []
  set (x ∷ xs) zero v = v ∷ xs
  set (x ∷ xs) (suc i) v = x ∷ set xs i v

  abbrev pub take : ℕ → List A → List A
  take zero xs = []
  take (suc n) [] = []
  take (suc n) (x ∷ xs) = x ∷ take n xs

  abbrev pub drop : ℕ → List A → List A
  drop zero xs = xs
  drop (suc n) [] = []
  drop (suc n) (x ∷ xs) = drop n xs

  abbrev pub replicate : ℕ → A → List A
  replicate zero a = []
  replicate (suc n) a = a ∷ replicate n a

  pub length-append : (xs ys : List A) → length (xs ++ ys) ≡ length xs + length ys
  length-append [] ys = omega arith
  length-append (x ∷ xs) ys = omega (arith, length-append xs ys)

module _ {ℓ} {A : Type ℓ} where
  -- The slice `xs[a..b]`, for `a ≤ b`.
  abbrev pub slice : ℕ → ℕ → List A → List A
  slice a b xs = take (b - a) (drop a xs)

  -- `xs[a..a + ys.len()].copy_from_slice(ys)`
  abbrev pub copy_at : List A → ℕ → List A → List A
  copy_at xs a ys = take a xs ++ (ys ++ drop (length ys) (drop a xs))

  pub take-append-drop : (n : ℕ) (xs : List A) → take n xs ++ drop n xs ≡ xs
  take-append-drop zero xs = refl
  take-append-drop (suc n) [] = refl
  take-append-drop (suc n) (x ∷ xs) = ap (◌∷◌ x) (take-append-drop n xs)

  pub length-take : (n : ℕ) (xs : List A) → length (take n xs) ≡ min n (length xs)
  length-take zero xs = omega arith
  length-take (suc n) [] = omega arith
  length-take (suc n) (x ∷ xs) = omega (arith, length-take n xs)

  pub length-drop : (n : ℕ) (xs : List A) → length (drop n xs) ≡ length xs - n
  length-drop zero xs = omega arith
  length-drop (suc n) [] = omega arith
  length-drop (suc n) (x ∷ xs) = omega (arith, length-drop n xs)

  pub length-replicate : (n : ℕ) (a : A) → length (replicate n a) ≡ n
  length-replicate zero a = refl
  length-replicate (suc n) a = ap suc (length-replicate n a)

  pub take-append : (n : ℕ) (xs ys : List A) → length xs ≡ n → take n (xs ++ ys) ≡ xs
  take-append zero [] ys h = refl
  take-append (suc n) [] ys h = absurd (omega arith)
  take-append zero (x ∷ xs) ys h = absurd (omega arith)
  take-append (suc n) (x ∷ xs) ys h = ap (◌∷◌ x) (take-append n xs ys (omega arith))

  pub drop-append : (n : ℕ) (xs ys : List A) → length xs ≡ n → drop n (xs ++ ys) ≡ ys
  drop-append zero [] ys h = refl
  drop-append (suc n) [] ys h = absurd (omega arith)
  drop-append zero (x ∷ xs) ys h = absurd (omega arith)
  drop-append (suc n) (x ∷ xs) ys h = drop-append n xs ys (omega arith)

  pub take_all : (n : ℕ) (xs : List A) → length xs ≤ n → take n xs ≡ xs
  take_all zero [] h = refl
  take_all (suc n) [] h = refl
  take_all zero (x ∷ xs) h = absurd (omega arith)
  take_all (suc n) (x ∷ xs) h = ap (◌∷◌ x) (take_all n xs (omega arith))

  pub drop_all : (n : ℕ) (xs : List A) → length xs ≤ n → drop n xs ≡ []
  drop_all zero [] h = refl
  drop_all (suc n) [] h = refl
  drop_all zero (x ∷ xs) h = absurd (omega arith)
  drop_all (suc n) (x ∷ xs) h = drop_all n xs (omega arith)

module _ {ℓ κ} {A : Type ℓ} where
  abbrev pub All : (A → Type κ) → List A → Type κ
  All P [] = Unit
  All P (x ∷ xs) = P x × All P xs

module _ {ℓ κ} {A : Type ℓ} where
  pub All-append : (P : A → Type κ) (xs ys : List A) → All P xs → All P ys → All P (xs ++ ys)
  All-append P [] ys h k = k
  All-append P (x ∷ xs) ys (p, h) k = (p, All-append P xs ys h k)

  pub All-take : (P : A → Type κ) (n : ℕ) (xs : List A) → All P xs → All P (take n xs)
  All-take P zero xs h = tt
  All-take P (suc n) [] h = tt
  All-take P (suc n) (x ∷ xs) (p, h) = (p, All-take P n xs h)

  pub All-drop : (P : A → Type κ) (n : ℕ) (xs : List A) → All P xs → All P (drop n xs)
  All-drop P zero xs h = h
  All-drop P (suc n) [] h = tt
  All-drop P (suc n) (x ∷ xs) (p, h) = All-drop P n xs h

module _ {ℓ} {A : Type ℓ} where
  abbrev pub chunks : ℕ → ℕ → List A → List (List A)
  chunks zero size xs = []
  chunks (suc k) size xs = take size xs ∷ chunks k size (drop size xs)

  -- `xs.chunks_exact(size)`, without the remainder.
  abbrev pub chunks_exact : ℕ → List A → List (List A)
  chunks_exact size xs = chunks (length xs / size) size xs

  pub length-copy_at :
      (xs : List A) (a : ℕ) (ys : List A)
      → a + length ys ≤ length xs
      → length (copy_at xs a ys) ≡ length xs
  length-copy_at xs a ys h = omega (
    arith,
    length-append (take a xs) (ys ++ drop (length ys) (drop a xs)),
    length-append ys (drop (length ys) (drop a xs)),
    length-drop (length ys) (drop a xs),
    length-drop a xs,
    length-take a xs,
  )

  -- A write is read back, and leaves what lies before and behind it.
  pub slice-copy_at :
      (xs : List A) (a n : ℕ) (ys : List A)
      → a + length ys ≤ length xs
      → length ys ≡ n
      → take n (drop a (copy_at xs a ys)) ≡ ys
  slice-copy_at xs a n ys h e =
      ap (take n) (drop-append a (take a xs) _ (omega (arith, length-take a xs)))
      ∙ take-append n ys _ e

  pub slice-copy_at_before :
      (xs : List A) (a b n : ℕ) (ys : List A)
      → a + length ys ≤ length xs
      → b + n ≤ a
      → take n (drop b (copy_at xs a ys)) ≡ take n (drop b xs)
  slice-copy_at_before xs a b zero ys h k = refl
  slice-copy_at_before xs zero b (suc n) ys h k = absurd (omega arith)
  slice-copy_at_before [] (suc a) b (suc n) ys h k = absurd (omega arith)
  slice-copy_at_before (x ∷ xs) (suc a) zero (suc n) ys h k =
      ap (◌∷◌ x) (slice-copy_at_before xs a zero n ys (omega arith) (omega arith))
  slice-copy_at_before (x ∷ xs) (suc a) (suc b) (suc n) ys h k =
      slice-copy_at_before xs a b (suc n) ys (omega arith) (omega arith)

  drop-splice :
      (xs ys : List A) (b : ℕ)
      → length ys ≤ length xs
      → length ys ≤ b
      → drop b (ys ++ drop (length ys) xs) ≡ drop b xs
  drop-splice xs [] b h k = refl
  drop-splice [] (y ∷ ys) b h k = absurd (omega arith)
  drop-splice (x ∷ xs) (y ∷ ys) zero h k = absurd (omega arith)
  drop-splice (x ∷ xs) (y ∷ ys) (suc b) h k = drop-splice xs ys b (omega arith) (omega arith)

  pub drop-copy_at_after :
      (xs : List A) (a b : ℕ) (ys : List A)
      → a + length ys ≤ length xs
      → a + length ys ≤ b
      → drop b (copy_at xs a ys) ≡ drop b xs
  drop-copy_at_after xs zero b ys h k = drop-splice xs ys b (omega arith) (omega arith)
  drop-copy_at_after [] (suc a) b ys h k = absurd (omega arith)
  drop-copy_at_after (x ∷ xs) (suc a) zero ys h k = absurd (omega arith)
  drop-copy_at_after (x ∷ xs) (suc a) (suc b) ys h k =
      drop-copy_at_after xs a b ys (omega arith) (omega arith)

  pub length-map {κ} : {B : Type κ} (f : A → B) (xs : List A) → length (map f xs) ≡ length xs
  length-map f [] = refl
  length-map f (x ∷ xs) = ap suc (length-map f xs)

  pub replicate-append : (m n : ℕ) (a : A) → replicate m a ++ replicate n a ≡ replicate (m + n) a
  replicate-append zero n a = ap (λ (k : ℕ). replicate k a) (omega arith)
  replicate-append (suc m) n a =
      ap (◌∷◌ a) (replicate-append m n a)
      ∙ ap (λ (k : ℕ). replicate k a) {x = suc (m + n)} (omega arith)

  pub take-append_le : (n : ℕ) (xs ys : List A) → n ≤ length xs → take n (xs ++ ys) ≡ take n xs
  take-append_le zero xs ys h = refl
  take-append_le (suc n) [] ys h = absurd (omega arith)
  take-append_le (suc n) (x ∷ xs) ys h = ap (◌∷◌ x) (take-append_le n xs ys (omega arith))

  pub drop-append_le :
      (n : ℕ) (xs ys : List A) → n ≤ length xs → drop n (xs ++ ys) ≡ drop n xs ++ ys
  drop-append_le zero xs ys h = refl
  drop-append_le (suc n) [] ys h = absurd (omega arith)
  drop-append_le (suc n) (x ∷ xs) ys h = drop-append_le n xs ys (omega arith)

  pub length-set : (xs : List A) (i : ℕ) (v : A) → length (set xs i v) ≡ length xs
  length-set [] i v = refl
  length-set (x ∷ xs) zero v = refl
  length-set (x ∷ xs) (suc i) v = omega (arith, length-set xs i v)

  pub take-set :
      (xs : List A) (i : ℕ) (v : A)
      → i < length xs
      → take (suc i) (set xs i v) ≡ take i xs ++ (v ∷ [])
  take-set [] i v h = absurd (omega arith)
  take-set (x ∷ xs) zero v h = refl
  take-set (x ∷ xs) (suc i) v h = ap (◌∷◌ x) (take-set xs i v (omega arith))

  pub drop-set : (xs : List A) (i : ℕ) (v : A) → drop (suc i) (set xs i v) ≡ drop (suc i) xs
  drop-set [] i v = refl
  drop-set (x ∷ xs) zero v = refl
  drop-set (x ∷ xs) (suc i) v = drop-set xs i v

  -- The element at the front of what is dropped.
  pub take-drop_front :
      (xs : List A) (i : ℕ) (x : A) (ys : List A)
      → drop i xs ≡ x ∷ ys
      → (take (suc i) xs ≡ take i xs ++ (x ∷ [])) × (drop (suc i) xs ≡ ys)
  take-drop_front [] zero x ys h = absurd (omega (arith, ap length h))
  take-drop_front [] (suc i) x ys h = absurd (omega (arith, ap length h))
  take-drop_front (y ∷ xs) zero x ys h = (cc, cc)
  take-drop_front (y ∷ xs) (suc i) x ys h =
      let (t, d) = take-drop_front xs i x ys h in (ap (◌∷◌ y) t, d)

  pub drop-add : (m n : ℕ) (xs : List A) → drop (m + n) xs ≡ drop n (drop m xs)
  drop-add zero n xs = ap (λ (k : ℕ). drop k xs) (omega arith)
  drop-add (suc m) n [] =
      ap (λ (k : ℕ). drop k []) {x = suc m + n} {y = suc (m + n)} (omega arith)
      ∙ sym (drop_all n [] (omega arith))
  drop-add (suc m) n (x ∷ xs) =
      ap (λ (k : ℕ). drop k (x ∷ xs)) {x = suc m + n} {y = suc (m + n)} (omega arith)
      ∙ drop-add m n xs

  pub take-add : (m n : ℕ) (xs : List A) → take (m + n) xs ≡ take m xs ++ take n (drop m xs)
  take-add zero n xs = ap (λ (k : ℕ). take k xs) (omega arith)
  take-add (suc m) n [] =
      ap (λ (k : ℕ). take k []) {x = suc m + n} {y = suc (m + n)} (omega arith)
      ∙ sym (take_all n [] (omega arith))
  take-add (suc m) n (x ∷ xs) =
      ap (λ (k : ℕ). take k (x ∷ xs)) {x = suc m + n} {y = suc (m + n)} (omega arith)
      ∙ ap (◌∷◌ x) (take-add m n xs)
