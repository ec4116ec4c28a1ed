-- ===== src/Env/Wildcard/Correct.antt =====
-- src/sudo/env/wildcard_match.rs against a relation of patterns and texts.
use sudo_rs.Prelude.{
  ℕ, zero, suc, ◌+◌, ◌*◌, ◌≤◌, ◌<◌, Bool, true, false, Option, none, some, [], ◌∷◌, arith,
}
use sudo_rs.Prelude.{◌≡◌, ◌≢◌, refl, ◌↔◌, ◌⊎◌, inl, inr}
use mathlib.Core.Logic.{⊎_elim}
use mathlib.Core.Path.{subst}
use sudo_rs.Prelude.Tests.{◌==◌, ==_iff, Bool-cases}
use sudo_rs.Prelude.Lists.{length, drop}
use sudo_rs.Prelude.Text.{Text}
use sudo_rs.Env.Wildcard.{LastStar, star, go_back, loop, fuel_of, wildcard_match}

-- The pattern matches the whole text: a star stands for any run of bytes, and any other byte for
-- itself.
pub data Matches : Text → Text → Type 0 where
  done : Matches [] []
  byte : {c : ℕ} {p t : Text} → c ≢ star → Matches p t → Matches (c ∷ p) (c ∷ t)
  skip : {c : ℕ} {p t : Text} → c ≡ star → Matches p t → Matches (c ∷ p) t
  eat : {c d : ℕ} {p t : Text} → c ≡ star → Matches (c ∷ p) t → Matches (c ∷ p) (d ∷ t)

-- The pattern matches some suffix of the text.
data Somewhere (p : Text) : Text → Type 0 where
  now : {t : Text} → Matches p t → Somewhere p t
  on : {d : ℕ} {t : Text} → Somewhere p t → Somewhere p (d ∷ t)

star→Somewhere : {c : ℕ} {p t : Text} → c ≡ star → Matches (c ∷ p) t → Somewhere p t
star→Somewhere e (byte n m) = absurd (n e)
star→Somewhere e (skip _ m) = now m
star→Somewhere e (eat _ m) = on (star→Somewhere e m)

Somewhere→star : {c : ℕ} {p t : Text} → c ≡ star → Somewhere p t → Matches (c ∷ p) t
Somewhere→star e (now m) = skip e m
Somewhere→star e (on h) = eat e (Somewhere→star e h)

stars_collapse : {c : ℕ} {p t : Text} → c ≡ star → Somewhere (c ∷ p) t → Somewhere p t
stars_collapse e (now m) = star→Somewhere e m
stars_collapse e (on h) = on (stars_collapse e h)

Somewhere-tail : {c : ℕ} {p t : Text} → c ≢ star → Somewhere (c ∷ p) t → Somewhere p t
Somewhere-tail n (now (byte _ m)) = on (now m)
Somewhere-tail n (now (skip e m)) = absurd (n e)
Somewhere-tail n (now (eat e m)) = absurd (n e)
Somewhere-tail n (on h) = on (Somewhere-tail n h)

-- Where a byte can be matched at once, nothing is lost by doing so.
Somewhere-byte : {c d : ℕ} {p t : Text} → c ≢ star → Somewhere (c ∷ p) (d ∷ t) → Somewhere p t
Somewhere-byte n (now (byte _ m)) = now m
Somewhere-byte n (now (skip e m)) = absurd (n e)
Somewhere-byte n (now (eat e m)) = absurd (n e)
Somewhere-byte n (on h) = Somewhere-tail n h

byte_inv : {c d : ℕ} {p t : Text} → c ≢ star → Matches (c ∷ p) (d ∷ t) → (c ≡ d) × Matches p t
byte_inv n (byte _ m) = (refl, m)
byte_inv n (skip e m) = absurd (n e)
byte_inv n (eat e m) = absurd (n e)

not-Matches-end : {c : ℕ} {p : Text} → c ≢ star → ¬ Matches (c ∷ p) []
not-Matches-end n (skip e m) = n e

Somewhere-end : {p : Text} → Somewhere p [] → Matches p []
Somewhere-end (now m) = m

-- The loop has an answer, and it is right about `G`.
abbrev Answers : Type 0 → Option Bool → Type 0
Answers G none = ⊥
Answers G (some true) = G
Answers G (some false) = ¬ G

Answers-map : {G H : Type 0} → (G → H) → (H → G) → (r : Option Bool) → Answers G r → Answers H r
Answers-map f g none a = a
Answers-map f g (some true) a = f a
Answers-map f g (some false) a = λ h. a (g h)

-- What going back can still find: the last star takes at least one more byte.
abbrev Later : LastStar → Type 0
Later none = ⊥
Later (some (t, p)) = Somewhere p (drop 1 t)

-- `k` bounds the patterns and `m` the text that is left to try from the last star on.
abbrev Fits : ℕ → ℕ → LastStar → Text → Type 0
Fits k m none t = length t ≤ m
Fits k m (some (u, p)) t = (length t ≤ length u) × (length u ≤ m) × (length p < k)

Somewhere-drop : {p : Text} (u : Text) → Somewhere p (drop 1 u) → Somewhere p u
Somewhere-drop [] h = h
Somewhere-drop (d ∷ u) h = on h

Somewhere-split : {p u : Text} → Somewhere p u → Matches p u ⊎ Somewhere p (drop 1 u)
Somewhere-split (now m) = inl m
Somewhere-split (on h) = inr h

byte_here : {c d : ℕ} {p t : Text} → c ≢ star → c ≡ d → Matches p t → Matches (c ∷ p) (d ∷ t)
byte_here {c} {p} {t} n e m = subst (λ x. Matches (c ∷ p) (x ∷ t)) e (byte n m)

Fits-bound : (k m : ℕ) (last : LastStar) (t : Text) → Fits k m last t → length t ≤ m
Fits-bound k m none t h = h
Fits-bound k m (some (u, q)) t h = omega arith

Fits-tail : (k m d : ℕ) (t : Text) (last : LastStar) → Fits k m last (d ∷ t) → Fits k m last t
Fits-tail k m d t none h = omega arith
Fits-tail k m d t (some (u, q)) h = omega arith

module _ (k : ℕ) where
  -- What the loop promises from a state in which going back never finds more than going on from
  -- here with a star would.
  abbrev Promise : ℕ → Type 0
  Promise f =
      (m : ℕ) (p t : Text) (last : LastStar)
      → (Later last → Somewhere p t)
      → Fits k m last t
      → length p < k
      → m * k + length p < f
      → Answers (Matches p t ⊎ Later last) (loop f p t last)

  go_back-Answers :
      (f m d : ℕ) (p t : Text) (last : LastStar)
      → Promise f
      → ¬ Matches p (d ∷ t)
      → Fits k m last (d ∷ t)
      → m * k + length p < suc f
      → Answers (Matches p (d ∷ t) ⊎ Later last) (go_back last (loop f))
  go_back-Answers f m d p t none ih no_match fits fuel = λ h. ⊎_elim no_match (λ x. x) h
  go_back-Answers f zero d p t (some (u, q)) ih no_match fits fuel = absurd (omega arith)
  go_back-Answers f (suc m) d p t (some ([], q)) ih no_match fits fuel = absurd (omega arith)
  go_back-Answers f (suc m) d p t (some (x ∷ u, q)) ih no_match fits fuel =
      Answers-map (⊎_elim (λ h. inr (now h)) (λ h. inr (Somewhere-drop u h)))
        (⊎_elim (λ h. absurd (no_match h)) Somewhere-split) (loop f q u (some (u, q)))
        (ih m q u (some (u, q)) (Somewhere-drop u) (omega arith) fits.2 (omega arith))

  loop-Answers : (f : ℕ) → Promise f
  unfolding loop
  loop-Answers zero m p t last h fits short fuel = absurd (omega arith)
  loop-Answers (suc f) m [] [] last h fits short fuel = inl done
  loop-Answers (suc f) m [] (d ∷ t) last h fits short fuel =
      go_back-Answers f m d [] t last (loop-Answers f) (λ x. elim x [ ]) fits fuel
  loop-Answers (suc f) m (c ∷ p) [] last h fits short fuel = elim (Bool-cases (c == star)) [
    | inl e ↦
        let e' : c ≡ star = (==_iff c star).0 e in
        rw e (
          Answers-map (⊎_elim (λ a. inl (skip e' a)) inr)
            (⊎_elim (λ a. inl (Somewhere-end (star→Somewhere e' a))) inr) (loop f p [] last)
            (loop-Answers f m p [] last (λ l. stars_collapse e' (h l)) fits (omega arith)
              (omega arith)))
    | inr e ↦
        let n : c ≢ star = λ x. cc ((==_iff c star).1 x) in
        rw e (⊎_elim (not-Matches-end n) (λ l. not-Matches-end n (Somewhere-end (h l))))
  ]
  loop-Answers (suc f) m (c ∷ p) (d ∷ t) last h fits short fuel = elim (Bool-cases (c == star)) [
    | inl e ↦
        let e' : c ≡ star = (==_iff c star).0 e in
        rw e (
          Answers-map (⊎_elim (λ a. inl (skip e' a)) (λ a. inl (Somewhere→star e' (on a))))
            (λ a. Somewhere-split (⊎_elim (star→Somewhere e') (λ l. stars_collapse e' (h l)) a))
            (loop f p (d ∷ t) (some (d ∷ t, p)))
            (loop-Answers f m p (d ∷ t) (some (d ∷ t, p)) on
              (omega arith, Fits-bound k m last (d ∷ t) fits, omega arith) (omega arith)
              (omega arith)))
    | inr e ↦
        let n : c ≢ star = λ x. cc ((==_iff c star).1 x) in
        elim (Bool-cases (c == d)) [
          | inl e₂ ↦
              rw (e, e₂)
                (Answers-map (⊎_elim (λ a. inl (byte_here n ((==_iff c d).0 e₂) a)) inr)
                  (⊎_elim (λ a. inl (byte_inv n a).1) inr) (loop f p t last)
                  (loop-Answers f m p t last (λ l. Somewhere-byte n (h l))
                    (Fits-tail k m d t last fits) (omega arith) (omega arith)))
          | inr e₂ ↦
              rw (e, e₂)
                (go_back-Answers f m d (c ∷ p) t last (loop-Answers f)
                  (λ a. cc ((==_iff c d).1 (byte_inv n a).0)) fits fuel)
        ]
  ]

Answers→iff :
    (G : Type 0) (r : Option Bool)
    → Answers (G ⊎ ⊥) r
    → ((elim r as (λ _. Bool) [ some b ↦ b | none ↦ false ]) ≡ true) ↔ G
Answers→iff G none a = absurd a
Answers→iff G (some true) a = (λ e. ⊎_elim (λ g. g) absurd a, λ g. refl)
Answers→iff G (some false) a = (λ e. absurd (cc), λ g. absurd (a (inl g)))

-- `wildcard_match` says yes exactly if the pattern matches the whole of the text, though it goes
-- back to the last star only. Its fuel is enough for every text and pattern.
pub wildcard_match_iff :
    (test pattern : Text) → (wildcard_match test pattern ≡ true) ↔ Matches pattern test
unfolding wildcard_match
wildcard_match_iff test pattern =
    Answers→iff (Matches pattern test) (loop (fuel_of test pattern) pattern test none) (
      loop-Answers (length pattern + 1) (fuel_of test pattern) (length test) pattern test none
        absurd (omega arith) (omega arith) (omega arith))
