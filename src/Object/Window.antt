-- ===== src/Object/Window.antt =====
-- Reads and writes of windows of memory.
use gservices.Base.{
  ℕ, zero, suc, ◌+◌, ◌-◌, ◌≡◌, ◌≤◌, ◌⊎◌, refl, ap, ◌∙◌, sym, List, [], ◌∷◌, ◌++◌, arith, length,
  take, drop, length-append, length-take, length-drop, take_all, drop_all, take-append_le,
  drop-append_le, drop-append_ge, append_assoc, drop-nil, take-nil, take_ge, drop_all, subst, inl,
  inr,
}
use gservices.Object.{put, window}

module _ {ℓ} {A : Type ℓ} where
  take-drop-take :
      (p k o : ℕ) (m : List A) → p + k ≤ o → take k (drop p (take o m)) ≡ take k (drop p m)
  take-drop-take p k o [] h = ground (arith, take-nil {A = A} o, drop-nil {A = A} p)
  take-drop-take zero zero o (x ∷ m) h = refl
  take-drop-take zero (suc k) zero (x ∷ m) h = absurd (omega arith)
  take-drop-take zero (suc k) (suc o) (x ∷ m) h =
      ap (◌∷◌ x) (take-drop-take zero k o m (omega arith))
  take-drop-take (suc p) k zero (x ∷ m) h = absurd (omega arith)
  take-drop-take (suc p) k (suc o) (x ∷ m) h = take-drop-take p k o m (omega arith)

  pub drop-drop : (p q : ℕ) (m : List A) → drop q (drop p m) ≡ drop (p + q) m
  drop-drop zero q m = ap (λ (n : ℕ). drop n m) (omega arith)
  drop-drop (suc p) q [] = ground (arith, drop-nil {A = A} q, drop-nil {A = A} (suc p + q))
  drop-drop (suc p) q (x ∷ m) =
      let e : suc p + q ≡ suc (p + q) = omega arith in rw e (drop-drop p q m)

module _ (m : List ℕ) (o : ℕ) (b : List ℕ) (fits : o + length b ≤ length m) where
  pub length-put : length (put m o b) ≡ length m
  unfolding put
  length-put = omega (
    arith,
    fits,
    length-append (take o m) (b ++ drop (o + length b) m),
    length-append b (drop (o + length b) m),
    length-take o m,
    length-drop (o + length b) m,
  )

  pub window-put_self : window o (length b) (put m o b) ≡ b
  unfolding put
  window-put_self =
      let cut : length (take o m) ≡ o = omega (arith, fits, length-take o m) in
      let start : o - length (take o m) ≡ 0 = omega arith in
      let behind : drop o (put m o b) ≡ b ++ drop (o + length b) m =
        drop-append_ge o (take o m) (b ++ drop (o + length b) m) (omega arith)
        ∙ ap (λ (n : ℕ). drop n (b ++ drop (o + length b) m)) start in
      rw behind (take_all b (drop (o + length b) m))

  pub window-put_ne :
      (p k : ℕ) → (p + k ≤ o) ⊎ (o + length b ≤ p) → window p k (put m o b) ≡ window p k m
  unfolding put
  window-put_ne p k (inl before) =
      let cut : length (take o m) ≡ o = omega (arith, fits, length-take o m) in
      let rest : List ℕ = b ++ drop (o + length b) m in
      let first : drop p (take o m ++ rest) ≡ drop p (take o m) ++ rest =
        drop-append_le p (take o m) rest (omega arith) in
      rw first (
        take-append_le k (drop p (take o m)) rest (omega (arith, length-drop p (take o m)))
        ∙ take-drop-take p k o m before)
  window-put_ne p k (inr behind) =
      let cut : length (take o m) ≡ o = omega (arith, fits, length-take o m) in
      let tail : List ℕ = drop (o + length b) m in
      ap (take k) (
        drop-append_ge p (take o m) (b ++ tail) (omega arith)
        ∙ drop-append_ge (p - length (take o m)) b tail (omega arith)
        ∙ drop-drop (o + length b) (p - length (take o m) - length b) m
        ∙ ap (λ (n : ℕ). drop n m) (omega arith))

module _ {ℓ} {A : Type ℓ} where
  pub take_front : (n : ℕ) (xs ys : List A) → length xs ≡ n → take n (xs ++ ys) ≡ xs
  take_front n xs ys e = take-append_le n xs ys (omega arith) ∙ take_ge n xs (omega arith)

  pub drop_front : (n : ℕ) (xs ys : List A) → length xs ≡ n → drop n (xs ++ ys) ≡ ys
  drop_front n xs ys e = subst (λ (k : ℕ). drop k (xs ++ ys) ≡ ys) e (drop_all xs ys)

-- The two parts of a window.
pub window-append :
    (o n k : ℕ) (m a b : List ℕ)
    → length a ≡ n
    → length b ≡ k
    → window o (n + k) m ≡ a ++ b
    → (window o n m ≡ a) × (window (o + n) k m ≡ b)
window-append o n k m a b an bk e =
    let x : List ℕ = drop o m in
    (
      sym (take-drop-take 0 n (n + k) x (omega arith)) ∙ ap (take n) e ∙ take_front n a b an,
      ap (take k) (sym (drop-drop o n m))
          ∙ sym (take-drop-take n k (n + k) x (omega arith))
          ∙ ap (λ (y : List ℕ). take k (drop n y)) e
          ∙ ap (take k) (drop_front n a b an)
          ∙ take_ge k b (omega arith),
    )

-- Two writes, the second of them behind the first.
pub put-append :
    (m : List ℕ) (o : ℕ) (a b : List ℕ)
    → o + length a + length b ≤ length m
    → put (put m o a) (o + length a) b ≡ put m o (a ++ b)
unfolding put
put-append m o a b fits =
    let start : length (take o m) ≡ o = omega (arith, length-take o m) in
    let first : List ℕ = take o m ++ a in
    let tail : List ℕ = drop (o + length a) m in
    let joined : take o m ++ (a ++ tail) ≡ first ++ tail = sym (append_assoc (take o m) a tail) in
    let counted : length first ≡ o + length a = omega (arith, length-append (take o m) a) in
    let rest : drop (o + length a + length b) (first ++ tail) ≡ drop (o + length (a ++ b)) m =
      drop-append_ge (o + length a + length b) first tail (omega arith)
      ∙ drop-drop (o + length a) (o + length a + length b - length first) m
      ∙ ap (λ (n : ℕ). drop n m) (omega (arith, length-append a b)) in
    rw (joined, take_front (o + length a) first tail counted, rest)
      (append_assoc (take o m) a (b ++ drop (o + length (a ++ b)) m)
        ∙ ap (λ (y : List ℕ). take o m ++ y)
            (sym (append_assoc a b (drop (o + length (a ++ b)) m))))
