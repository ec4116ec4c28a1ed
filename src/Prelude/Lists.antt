-- ===== src/Prelude/Lists.antt =====
-- Lists measured and indexed by native numbers, under the library's names, and the tests on
-- lists that the modelled code makes (`iter().any`, `starts_with`, `contains`).
use Prim.Native.Nat.{ℕ, zero, suc, ◌+◌, ◌-◌, min}
use mathlib.Core.Path.{◌≡◌, refl, ap}
use mathlib.Core.Logic.{◌⊎◌, ◌↔◌, inl, inr, ⊎_elim}
use mathlib.Core.Bool.{Bool, true, false, ◌&&◌, ◌||◌}
use mathlib.Core.List.{List, [], ◌∷◌, ◌++◌}
use mathlib.Core.Option.{Option, none, some}
use native.Mathlib.Omega.{arith}
use sudo_rs.Prelude.Tests.{Bool-cases}

module _ {ℓ} {A : Type ℓ} where
  abbrev pub length : List A → ℕ
  length [] = 0
  length (x ∷ xs) = suc (length xs)

  abbrev pub get_elem? : List A → ℕ → Option A
  get_elem? [] i = none
  get_elem? (x ∷ xs) zero = some x
  get_elem? (x ∷ xs) (suc i) = get_elem? xs i

  abbrev pub take : ℕ → List A → List A
  take zero xs = []
  take (suc n) [] = []
  take (suc n) (x ∷ xs) = x ∷ take n xs

  abbrev pub drop : ℕ → List A → List A
  drop zero xs = xs
  drop (suc n) [] = []
  drop (suc n) (x ∷ xs) = drop n xs

  abbrev pub replicate : ℕ → A → List A
  replicate zero a = []
  replicate (suc n) a = a ∷ replicate n a

  -- `iter().any(p)` and `iter().all(p)`.
  abbrev pub any : (A → Bool) → List A → Bool
  any p [] = false
  any p (x ∷ xs) = p x || any p xs

  abbrev pub all : (A → Bool) → List A → Bool
  all p [] = true
  all p (x ∷ xs) = p x && all p xs

  -- A predicate that holds of every element.
  abbrev pub All {κ} : (A → Type κ) → List A → Type κ
  All P [] = Unit
  All P (x ∷ xs) = P x × All P xs

  -- Some element has the property, with the element kept.
  pub data Any {κ} (P : A → Type κ) : List A → Type (ℓ ⊔ κ) where
    here : {x : A} {xs : List A} → P x → Any P (x ∷ xs)
    there : {x : A} {xs : List A} → Any P xs → Any P (x ∷ xs)

  pub length-append : (xs ys : List A) → length (xs ++ ys) ≡ length xs + length ys
  length-append [] ys = omega arith
  length-append (x ∷ xs) ys = omega (arith, length-append xs ys)

  pub length-replicate : (n : ℕ) (a : A) → length (replicate n a) ≡ n
  length-replicate zero a = refl
  length-replicate (suc n) a = ap suc (length-replicate n a)

  pub length-take : (n : ℕ) (xs : List A) → length (take n xs) ≡ min n (length xs)
  length-take zero xs = omega arith
  length-take (suc n) [] = omega arith
  length-take (suc n) (x ∷ xs) = omega (arith, length-take n xs)

  pub length-drop : (n : ℕ) (xs : List A) → length (drop n xs) ≡ length xs - n
  length-drop zero xs = omega arith
  length-drop (suc n) [] = omega arith
  length-drop (suc n) (x ∷ xs) = omega (arith, length-drop n xs)

  pub take-append-drop : (n : ℕ) (xs : List A) → take n xs ++ drop n xs ≡ xs
  take-append-drop zero xs = refl
  take-append-drop (suc n) [] = refl
  take-append-drop (suc n) (x ∷ xs) = rw (take-append-drop n xs)

module _ {ℓ} {A : Type ℓ} where
  pub take-append_self : (xs ys : List A) → take (length xs) (xs ++ ys) ≡ xs
  take-append_self [] ys = refl
  take-append_self (x ∷ xs) ys = rw (take-append_self xs ys)

  pub drop-append_self : (xs ys : List A) → drop (length xs) (xs ++ ys) ≡ ys
  drop-append_self [] ys = refl
  drop-append_self (x ∷ xs) ys = drop-append_self xs ys

module _ {ℓ κ} {A : Type ℓ} {P : A → Type κ} where
  pub Any-append : (xs : List A) {ys : List A} → Any P (xs ++ ys) → Any P xs ⊎ Any P ys
  Any-append [] h = inr h
  Any-append (x ∷ xs) (here p) = inl (here p)
  Any-append (x ∷ xs) (there h) = ⊎_elim (λ l. inl (there l)) inr (Any-append xs h)

  pub All→not-Any : (xs : List A) → All (λ x. ¬ P x) xs → ¬ Any P xs
  All→not-Any (x ∷ xs) h (here p) = h.0 p
  All→not-Any (x ∷ xs) h (there a) = All→not-Any xs h.1 a
  All→not-Any [] h a = elim a [ ]

module _ {ℓ κ} {A : Type ℓ} (P : A → Type κ) where
  pub All-append : (xs ys : List A) → All P (xs ++ ys) → All P xs × All P ys
  All-append [] ys v = (tt, v)
  All-append (x ∷ xs) ys v = let (a, b) = All-append xs ys v.1 in ((v.0, a), b)

  pub All-append_both : (xs ys : List A) → All P xs → All P ys → All P (xs ++ ys)
  All-append_both [] ys v w = w
  All-append_both (x ∷ xs) ys v w = (v.0, All-append_both xs ys v.1 w)

pub Any-map {ℓ κ μ} :
    {A : Type ℓ} {P : A → Type κ} {Q : A → Type μ} {xs : List A}
    → ((x : A) → P x → Q x)
    → Any P xs
    → Any Q xs
Any-map f (here {x} p) = here (f x p)
Any-map f (there h) = there (Any-map f h)

-- A test finds an element exactly if one has what the test decides.
pub any_iff :
    {A : Type 0} {P : A → Type 0} {f : A → Bool} (xs : List A)
    → ((x : A) → (f x ≡ true) ↔ P x)
    → (any f xs ≡ true) ↔ Any P xs
any_iff [] p = (λ h. cc, λ h. elim h [ ])
any_iff {f = f} (x ∷ xs) p = (
  λ h. elim (Bool-cases (f x)) [
    | inl e ↦ here ((p x).0 e)
    | inr e ↦ there ((any_iff xs p).0 (ground (arith, h, e)))
  ],
  λ h. elim h [ here q ↦ ground (arith, (p x).1 q) | there k ↦ ground (arith, (any_iff xs p).1 k) ],
)
