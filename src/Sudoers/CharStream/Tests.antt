-- ===== src/Sudoers/CharStream/Tests.antt =====
-- Positions in a text of two lines.
use sudo_rs.Prelude.{◌+◌, ◌≡◌, refl}
use sudo_rs.Prelude.Lists.{take, drop}
use sudo_rs.Prelude.Text.{codes}
use sudo_rs.Sudoers.CharStream.{CharStream, from_start, get_pos, advance, skip_to_newline}
use sudo_rs.Sudoers.CharStream.Position.{
  newlines, column_after, Skipped, advance_lem, skip_to_newline-Skipped,
}

abbrev two_lines : CharStream
two_lines = from_start (codes "root ALL\nbob")

advance-two_lines : get_pos (advance 10 two_lines) ≡ (2, 2)
unfolding advance
advance-two_lines = refl

advance_lem_example :
    ((advance 10 two_lines).iter ≡ drop 10 two_lines.iter)
    × ((advance 10 two_lines).line ≡ two_lines.line + newlines (take 10 two_lines.iter))
    × ((advance 10 two_lines).col ≡ column_after two_lines.col (take 10 two_lines.iter))
advance_lem_example = advance_lem 10 two_lines

skip_to_newline-Skipped_example : Skipped two_lines (skip_to_newline two_lines)
skip_to_newline-Skipped_example = skip_to_newline-Skipped two_lines
