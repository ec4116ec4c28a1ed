-- ===== src/Env/Keep/Listed.antt =====
-- src/sudo/env/environment.rs: what it means that a variable is listed in a table of patterns, told
-- without `in_table`.
use sudo_rs.Prelude.{ℕ, true, false, ◌&&◌, none, some, List, [], ◌∷◌, ◌++◌, arith}
use sudo_rs.Prelude.{◌≡◌, refl, sym, ap, ◌∙◌, inl, inr, ◌↔◌}
use sudo_rs.Prelude.Tests.{◌==◌, Bool-cases, Option-cases}
use sudo_rs.Prelude.Lists.{any, Any, any_iff}
use sudo_rs.Prelude.Text.{Text}
use sudo_rs.Env.Wildcard.{wildcard_match}
use sudo_rs.Env.Wildcard.Correct.{Matches, wildcard_match_iff}
use sudo_rs.Env.Keep.{split_once, matches_pattern, in_table}

pub split_once-inv :
    (sep : ℕ) (s a b : Text)
    → split_once sep s ≡ some (a, b)
    → (s ≡ a ++ sep ∷ b) × (any (λ c. c == sep) a ≡ false)
unfolding split_once
split_once-inv sep [] a b h = absurd (cc)
split_once-inv sep (c ∷ s) a b h = elim (Bool-cases (c == sep)) [
  | inl e ↦
      let here_sep : c ≡ sep = ground (arith, e) in
      let same : some ([], s) ≡ some (a, b) = rw (e, split_once) at h in
      let first : [] ≡ a = cc in
      let second : s ≡ b = cc in (rw (sym first, sym second, here_sep) refl, rw (sym first) refl)
  | inr e ↦ elim (Option-cases (split_once sep s)) [
    | inl n ↦ absurd (cc (rw (e, n, split_once) at h))
    | inr ((a', b'), k) ↦
        let same : some (c ∷ a', b') ≡ some (a, b) = rw (e, k, split_once) at h in
        let first : c ∷ a' ≡ a = cc in
        let second : b' ≡ b = cc in
        let (p, q) = split_once-inv sep s a' b' k in
        (rw (sym first, sym second) (ap (λ k. c ∷ k) p), rw (sym first) (rw e q))
  ]
]

pub split_once-append :
    (sep : ℕ) (a b : Text)
    → any (λ c. c == sep) a ≡ false
    → split_once sep (a ++ sep ∷ b) ≡ some (a, b)
unfolding split_once
split_once-append sep [] b h = let e : (sep == sep) ≡ true = ground arith in rw (e, split_once) refl
split_once-append sep (c ∷ a) b h =
    let e : (c == sep) ≡ false = ground (arith, h) in
    rw (e, split_once-append sep a b (ground (arith, h)), split_once) refl

-- The pattern has no equals sign and matches the name, or what is before its first equals sign
-- matches the name and what is after it the value.
pub data Covers (key value pattern : Text) : Type 0 where
  name_only : any (λ c. c == b'=') pattern ≡ false → Matches pattern key → Covers key value pattern
  name_and_value :
      (k v : Text)
      → pattern ≡ k ++ b'=' ∷ v
      → any (λ c. c == b'=') k ≡ false
      → Matches k key
      → Matches v value
      → Covers key value pattern

abbrev pub Listed : Text → Text → List Text → Type 0
Listed key value table = Any (Covers key value) table

split_once-none : (sep : ℕ) (s : Text) → split_once sep s ≡ none → any (λ c. c == sep) s ≡ false
unfolding split_once
split_once-none sep [] h = refl
split_once-none sep (c ∷ s) h = elim (Bool-cases (c == sep)) [
  | inl e ↦ absurd (cc (rw (e, split_once) at h))
  | inr e ↦ elim (Option-cases (split_once sep s)) [
    | inl n ↦ rw (e, split_once-none sep s n) refl
    | inr ((a, b), k) ↦ absurd (cc (rw (e, k, split_once) at h))
  ]
]

none-split_once : (sep : ℕ) (s : Text) → any (λ c. c == sep) s ≡ false → split_once sep s ≡ none
unfolding split_once
none-split_once sep [] h = refl
none-split_once sep (c ∷ s) h =
    let e : (c == sep) ≡ false = ground (arith, h) in
    rw (e, none-split_once sep s (ground (arith, h)), split_once) refl

matches_pattern_iff :
    (key value pattern : Text)
    → (matches_pattern key value pattern ≡ true) ↔ Covers key value pattern
unfolding matches_pattern
matches_pattern_iff key value pattern = (
  λ h. elim (Option-cases (split_once b'=' pattern)) [
    | inl e ↦
        name_only (split_once-none b'=' pattern e)
          ((wildcard_match_iff key pattern).0 (rw (e, matches_pattern) at h))
    | inr ((k, v), e) ↦
        let (p, q) = split_once-inv b'=' pattern k v e in
        let both : (wildcard_match key k && wildcard_match value v) ≡ true =
          rw (e, matches_pattern) at h in
        name_and_value k v p q ((wildcard_match_iff key k).0 (ground (arith, both)))
          ((wildcard_match_iff value v).0 (ground (arith, both)))
  ],
  λ h. elim h [
    | name_only n m ↦
        rw (none-split_once b'=' pattern n, matches_pattern) ((wildcard_match_iff key pattern).1 m)
    | name_and_value k v p q m m' ↦
        let e : split_once b'=' pattern ≡ some (k, v) =
          ap (split_once b'=') p ∙ split_once-append b'=' k v q in
        rw (e, matches_pattern)
          (ground (arith, (wildcard_match_iff key k).1 m, (wildcard_match_iff value v).1 m'))
  ],
)

pub in_table_iff :
    (key value : Text) (table : List Text)
    → (in_table key value table ≡ true) ↔ Listed key value table
unfolding in_table
in_table_iff key value table =
    any_iff {f = matches_pattern key value} table (matches_pattern_iff key value)
