-- ===== src/Exec/RingBuffer/Lists.antt =====
-- Stretches of lists, for the two slices of a ring.
use sudo_rs.Prelude.{
  ℕ, zero, suc, ◌+◌, ◌-◌, ◌≤◌, List, [], ◌∷◌, ◌++◌, ◌≡◌, refl, sym, ap, ◌∙◌, arith,
}
use native.Mathlib.Decide.{dec_le}
use sudo_rs.Prelude.Lists.{length, take, drop}

module _ {A : Type 0} where
  drop-nil : (n : ℕ) → drop {A = A} n [] ≡ []
  drop-nil zero = refl
  drop-nil (suc n) = refl

  take-nil : (n : ℕ) → take {A = A} n [] ≡ []
  take-nil zero = refl
  take-nil (suc n) = refl

  pub drop-length : (xs : List A) (n : ℕ) → length xs ≤ n → drop n xs ≡ []
  drop-length [] zero h = refl
  drop-length [] (suc n) h = refl
  drop-length (x ∷ xs) zero h = absurd (omega arith)
  drop-length (x ∷ xs) (suc n) h = drop-length xs n (omega arith)

  pub take-length : (xs : List A) (n : ℕ) → length xs ≤ n → take n xs ≡ xs
  take-length [] zero h = refl
  take-length [] (suc n) h = refl
  take-length (x ∷ xs) zero h = absurd (omega arith)
  take-length (x ∷ xs) (suc n) h = ap (λ k. x ∷ k) (take-length xs n (omega arith))

  pub take-append_le : (xs ys : List A) (n : ℕ) → n ≤ length xs → take n (xs ++ ys) ≡ take n xs
  take-append_le xs ys zero h = refl
  take-append_le [] ys (suc n) h = absurd (omega arith)
  take-append_le (x ∷ xs) ys (suc n) h = ap (λ k. x ∷ k) (take-append_le xs ys n (omega arith))

  pub take-append_ge :
      (xs ys : List A) (n : ℕ) → length xs ≤ n → take n (xs ++ ys) ≡ xs ++ take (n - length xs) ys
  take-append_ge [] ys n h = ap (λ k. take k ys) (omega arith)
  take-append_ge (x ∷ xs) ys zero h = absurd (omega arith)
  take-append_ge (x ∷ xs) ys (suc n) h =
      ap (λ k. x ∷ k)
        (take-append_ge xs ys n (omega arith) ∙ ap (λ k. xs ++ take k ys) (omega arith))

  pub drop-append_le :
      (xs ys : List A) (n : ℕ) → n ≤ length xs → drop n (xs ++ ys) ≡ drop n xs ++ ys
  drop-append_le xs ys zero h = refl
  drop-append_le [] ys (suc n) h = absurd (omega arith)
  drop-append_le (x ∷ xs) ys (suc n) h = drop-append_le xs ys n (omega arith)

  pub drop-append_ge :
      (xs ys : List A) (n : ℕ) → length xs ≤ n → drop n (xs ++ ys) ≡ drop (n - length xs) ys
  drop-append_ge [] ys n h = ap (λ k. drop k ys) (omega arith)
  drop-append_ge (x ∷ xs) ys zero h = absurd (omega arith)
  drop-append_ge (x ∷ xs) ys (suc n) h =
      drop-append_ge xs ys n (omega arith) ∙ ap (λ k. drop k ys) (omega arith)

  pub drop-drop : (a b : ℕ) (xs : List A) → drop a (drop b xs) ≡ drop (b + a) xs
  drop-drop a zero xs = ap (λ k. drop k xs) (omega arith)
  drop-drop a (suc b) [] = drop-nil a ∙ sym (drop-nil (suc b + a))
  drop-drop a (suc b) (x ∷ xs) =
      drop-drop a b xs
      ∙ ap (λ k. drop k (x ∷ xs)) (let e : suc (b + a) ≡ suc b + a = omega arith in e)

  pub take-take : (a b : ℕ) (xs : List A) → a ≤ b → take a (take b xs) ≡ take a xs
  take-take zero b xs h = refl
  take-take (suc a) zero xs h = absurd (omega arith)
  take-take (suc a) (suc b) [] h = refl
  take-take (suc a) (suc b) (x ∷ xs) h = ap (λ k. x ∷ k) (take-take a b xs (omega arith))

  pub drop-take : (n m : ℕ) (xs : List A) → drop n (take m xs) ≡ take (m - n) (drop n xs)
  drop-take zero m xs = ap (λ k. take k xs) (omega arith)
  drop-take (suc n) zero xs =
      let e : 0 ≡ 0 - suc n = omega arith in ap (λ k. take k (drop (suc n) xs)) e
  drop-take (suc n) (suc m) [] = sym (take-nil (suc m - suc n))
  drop-take (suc n) (suc m) (x ∷ xs) = drop-take n m xs ∙ ap (λ k. take k (drop n xs)) (omega arith)

  pub take-append_exact : (xs ys : List A) (n : ℕ) → length xs ≡ n → take n (xs ++ ys) ≡ xs
  take-append_exact xs ys n h =
      take-append_le xs ys n (omega arith) ∙ take-length xs n (omega arith)

  pub drop-append_exact : (xs ys : List A) (n : ℕ) → length xs ≡ n → drop n (xs ++ ys) ≡ ys
  drop-append_exact xs ys n h =
      drop-append_le xs ys n (omega arith) ∙ ap (λ k. k ++ ys) (drop-length xs n (omega arith))

  pub take-append_add :
      (xs ys : List A) (n m : ℕ) → length xs ≡ n → take (n + m) (xs ++ ys) ≡ xs ++ take m ys
  take-append_add xs ys n m h =
      let e : n + m - length xs ≡ m = omega arith in
      take-append_ge xs ys (n + m) (omega arith) ∙ ap (λ k. xs ++ take k ys) e

  -- A long enough stretch of the tail is as good as all of it.
  pub take-append-take :
      (xs ys : List A) (n m k : ℕ)
      → n ≤ length xs + m
      → m ≤ k
      → take n (xs ++ take k ys) ≡ take n (xs ++ take m ys)
  take-append-take xs ys n m k h l = elim (dec_le n (length xs)) [
    | yes p ↦ take-append_le xs (take k ys) n p ∙ sym (take-append_le xs (take m ys) n p)
    | no p ↦
        let q : length xs ≤ n = omega arith in
        take-append_ge xs (take k ys) n q
        ∙ ap (λ z. xs ++ z)
            (take-take (n - length xs) k ys (omega arith)
              ∙ sym (take-take (n - length xs) m ys (omega arith)))
        ∙ sym (take-append_ge xs (take m ys) n q)
  ]
