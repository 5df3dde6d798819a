-- ===== src/RemoteMessage/Bytes.antt =====
-- The bytes of the values in an array.
use gservices.Base.{ℕ, zero, suc, ◌≡◌, refl, ap, List, [], ◌∷◌, ◌++◌, some, length, get_elem?}

-- The bytes of values, one after the other.
abbrev pub all_bytes : {A : Type 0} → (A → List ℕ) → List A → List (List ℕ)
all_bytes f [] = []
all_bytes f (x ∷ xs) = f x ∷ all_bytes f xs

module _ {A : Type 0} (f : A → List ℕ) where
  pub length-all_bytes : (xs : List A) → length (all_bytes f xs) ≡ length xs
  length-all_bytes [] = refl
  length-all_bytes (x ∷ xs) = ap suc (length-all_bytes xs)

  pub all_bytes-append :
      (xs : List A) (x : A) → all_bytes f (xs ++ x ∷ []) ≡ all_bytes f xs ++ f x ∷ []
  all_bytes-append [] x = refl
  all_bytes-append (y ∷ xs) x = ap (◌∷◌ (f y)) (all_bytes-append xs x)

  pub get_elem?-all_bytes :
      (xs : List A) (i : ℕ) (x : A)
      → get_elem? xs i ≡ some x
      → get_elem? (all_bytes f xs) i ≡ some (f x)
  get_elem?-all_bytes [] i x h = absurd (cc)
  get_elem?-all_bytes (y ∷ xs) zero x h = let e : y ≡ x = cc in ap (λ (z : A). some (f z)) e
  get_elem?-all_bytes (y ∷ xs) (suc i) x h = get_elem?-all_bytes xs i x h
