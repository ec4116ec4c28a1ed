-- ===== src/Sudoers/CharStream.antt =====
-- src/sudoers/char_stream.rs: the characters of a sudoers file with the position of the next one.
pub mod Position
mod Tests
use sudo_rs.Prelude.{ℕ, zero, suc, ◌+◌, Bool, true, false, not, Option, none, some, List, [], ◌∷◌}
use sudo_rs.Prelude.Tests.{if◌then◌else◌, ◌==◌}
use sudo_rs.Prelude.Text.{Text}
use sudo_rs.Sudoers.FindItem.{is_some}

pub record CharStream : Type 0 where
  pub iter : Text
  pub line : ℕ
  pub col : ℕ

abbrev pub new_with_pos : Text → ℕ × ℕ → CharStream
new_with_pos src (l, c) = record { iter = src; line = l; col = c }

abbrev pub from_start : Text → CharStream
from_start src = new_with_pos src (1, 1)

abbrev pub newline : ℕ
newline = 10

-- The position after the character `c`, and what is left.
unfoldable pub step : ℕ → Text → CharStream → CharStream
step c rest s = record {
  iter = rest;
  line = if c == newline then s.line + 1 else s.line;
  col = if c == newline then 1 else s.col + 1;
}

unfoldable pub next_if_from : (ℕ → Bool) → Text → CharStream → CharStream × Option ℕ
unfolding step
next_if_from f [] s = (s, none)
next_if_from f (c ∷ rest) s = if f c then (step c rest s, some c) else (s, none)

unfoldable pub next_if : (ℕ → Bool) → CharStream → CharStream × Option ℕ
unfolding next_if_from
next_if f s = next_if_from f s.iter s

unfoldable pub eat_char : ℕ → CharStream → CharStream × Bool
unfolding next_if
eat_char expect_char s = let (s', item) = next_if (λ c. c == expect_char) s in (s', is_some item)

-- The loop ends with the characters: it runs on the text that is left.
unfoldable pub skip_from : Text → CharStream → CharStream
unfolding next_if_from
skip_from [] s = s
skip_from (c ∷ rest) s = if c == newline then s else skip_from rest (step c rest s)

unfoldable pub skip_to_newline : CharStream → CharStream
unfolding skip_from
skip_to_newline s = skip_from s.iter s

abbrev pub peek : CharStream → Option ℕ
peek s = elim s.iter [ [] ↦ none | c ∷ rest ↦ some c ]

abbrev pub get_pos : CharStream → ℕ × ℕ
get_pos s = (s.line, s.col)

unfoldable pub advance : ℕ → CharStream → CharStream
unfolding next_if
advance zero s = s
advance (suc n) s = advance n (next_if (λ c. true) s).0
