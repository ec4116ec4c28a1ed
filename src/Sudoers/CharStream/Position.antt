-- ===== src/Sudoers/CharStream/Position.antt =====
-- The positions that src/sudoers/char_stream.rs keeps, against the text that was consumed.
use sudo_rs.Prelude.{ℕ, zero, suc, ◌+◌, true, false, Option, none, some, [], ◌∷◌, ◌++◌, arith}
use sudo_rs.Prelude.{◌≡◌, refl, sym, ◌∙◌, ap, ◌⊎◌, inl, inr}
use mathlib.Core.Path.{subst}
use sudo_rs.Prelude.Tests.{if◌then◌else◌, ◌==◌, Bool-cases, Option-cases}
use sudo_rs.Prelude.Lists.{length, take, drop, All}
use sudo_rs.Prelude.Text.{Text}
use sudo_rs.Sudoers.CharStream.{
  CharStream, newline, step, next_if, next_if_from, skip_from, skip_to_newline, peek, advance,
}

-- How many newlines a text has.
pub newlines : Text → ℕ
newlines [] = 0
newlines (c ∷ s) = if c == newline then suc (newlines s) else newlines s

-- What follows the last newline, if there is one.
pub after_newline : Text → Option Text
after_newline [] = none
after_newline (c ∷ s) = elim (after_newline s) [
  | some r ↦ some r
  | none ↦ if c == newline then some s else none
]

-- The column after a text that starts in the column `c`.
pub column_after : ℕ → Text → ℕ
unfolding after_newline
column_after c s = elim (after_newline s) [ none ↦ c + length s | some r ↦ 1 + length r ]

column_after-newline :
    (c d : ℕ) (s : Text) → (d == newline) ≡ true → column_after c (d ∷ s) ≡ column_after 1 s
unfolding column_after after_newline
column_after-newline c d s h = elim (Option-cases (after_newline s)) [
  | inl e ↦ rw (e, h, column_after, after_newline) refl
  | inr (r, e) ↦ rw (e, column_after, after_newline) refl
]

column_after-other :
    (c d : ℕ) (s : Text) → (d == newline) ≡ false → column_after c (d ∷ s) ≡ column_after (c + 1) s
unfolding column_after after_newline
column_after-other c d s h = elim (Option-cases (after_newline s)) [
  | inl e ↦ rw (e, h, column_after, after_newline) (omega arith)
  | inr (r, e) ↦ rw (e, column_after, after_newline) refl
]

record Moved (s s' : CharStream) (consumed : Text) : Type 0 where
  line : s'.line ≡ s.line + newlines consumed
  col : s'.col ≡ column_after s.col consumed

Moved-step :
    (c : ℕ) (rest : Text) (s s' : CharStream) (consumed : Text)
    → Moved (step c rest s) s' consumed
    → Moved s s' (c ∷ consumed)
unfolding step newlines
Moved-step c rest s s' consumed m = elim (Bool-cases (c == newline)) [
  | inl e ↦
      let l : s'.line ≡ s.line + 1 + newlines consumed = rw (e, step) at m.line in
      let k : s'.col ≡ column_after 1 consumed = rw (e, step) at m.col in
      record {
        line = rw (e, newlines) (omega arith);
        col = k ∙ sym (column_after-newline s.col c consumed e);
      }
  | inr e ↦
      let l : s'.line ≡ s.line + newlines consumed = rw (e, step) at m.line in
      let k : s'.col ≡ column_after (s.col + 1) consumed = rw (e, step) at m.col in
      record { line = rw (e, newlines) l; col = k ∙ sym (column_after-other s.col c consumed e) }
]

Moved-nil : (s : CharStream) → Moved s s []
unfolding newlines column_after after_newline
Moved-nil s = record { line = omega arith; col = omega arith }

take-nil : (n : ℕ) → take {A = ℕ} n [] ≡ []
take-nil zero = refl
take-nil (suc n) = refl

drop-nil : (n : ℕ) → drop {A = ℕ} n [] ≡ []
drop-nil zero = refl
drop-nil (suc n) = refl

abbrev at : Text → ℕ → ℕ → CharStream
at t l c = record { iter = t; line = l; col = c }

advance-at :
    (n : ℕ) (t : Text) (l k : ℕ)
    → ((advance n (at t l k)).iter ≡ drop n t) × Moved (at t l k) (advance n (at t l k)) (take n t)
unfolding advance next_if next_if_from step
advance-at zero t l k = (refl, Moved-nil (at t l k))
advance-at (suc n) [] l k =
    let (i, m) = advance-at n [] l k in
    (i ∙ drop-nil n, subst (Moved (at [] l k) (advance n (at [] l k))) (take-nil n) m)
advance-at (suc n) (c ∷ t) l k =
    let (i, m) = advance-at n t (step c t (at (c ∷ t) l k)).line (step c t (at (c ∷ t) l k)).col in
    (i, Moved-step c t (at (c ∷ t) l k) (advance n (step c t (at (c ∷ t) l k))) (take n t) m)

-- After `advance` by `n` the first `n` characters are gone, or all if there are fewer; the line has
-- grown by the newlines among them, and the column counts from the last of these, or goes on from
-- the column before if there is none.
pub advance_lem :
    (n : ℕ) (s : CharStream)
    → ((advance n s).iter ≡ drop n s.iter)
      × ((advance n s).line ≡ s.line + newlines (take n s.iter))
      × ((advance n s).col ≡ column_after s.col (take n s.iter))
advance_lem n s = let (i, m) = advance-at n s.iter s.line s.col in (i, m.line, m.col)

-- What `skip_to_newline` does from `s` to `s'`.
pub record Skipped (s s' : CharStream) : Type 0 where
  pub consumed : Text
  pub split : s.iter ≡ consumed ++ s'.iter
  pub inside : All (λ c. (c == newline) ≡ false) consumed
  pub stopped : (peek s' ≡ none) ⊎ (peek s' ≡ some newline)
  pub line : s'.line ≡ s.line
  pub col : s'.col ≡ s.col + length consumed

skip_at-Skipped : (t : Text) (l k : ℕ) → Skipped (at t l k) (skip_from t (at t l k))
unfolding skip_from step
skip_at-Skipped [] l k = record {
  consumed = [];
  split = refl;
  inside = tt;
  stopped = inl refl;
  line = refl;
  col = omega arith;
}
skip_at-Skipped (c ∷ t) l k = elim (Bool-cases (c == newline)) [
  | inl h ↦
      rw (h, skip_from)
        (record {
          consumed = [];
          split = refl;
          inside = tt;
          stopped = inr (ap some (ground arith));
          line = refl;
          col = omega arith;
        })
  | inr h ↦
      let r = skip_at-Skipped t l (k + 1) in
      rw (h, skip_from)
        (record {
          consumed = c ∷ r.consumed;
          split = ap (λ x. c ∷ x) r.split;
          inside = (h, r.inside);
          stopped = r.stopped;
          line = r.line;
          col = omega (arith, r.col);
        })
]

-- `skip_to_newline` consumes characters other than a newline only, on one line, until a newline or
-- the end of the text comes next.
pub skip_to_newline-Skipped : (s : CharStream) → Skipped s (skip_to_newline s)
unfolding skip_to_newline
skip_to_newline-Skipped s = skip_at-Skipped s.iter s.line s.col
