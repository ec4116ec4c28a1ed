-- ===== src/Env/Wildcard.antt =====
-- src/sudo/env/wildcard_match.rs. An index into a slice is the suffix that it selects; the loop
-- runs on fuel, of which `Wildcard/Correct` is about the amount too.
pub mod Correct
use sudo_rs.Prelude.{ℕ, zero, suc, ◌+◌, ◌*◌, Bool, true, false, Option, none, some, List, [], ◌∷◌}
use sudo_rs.Prelude.Tests.{if◌then◌else◌, ◌==◌}
use sudo_rs.Prelude.Lists.{length, drop}
use sudo_rs.Prelude.Text.{Text}

-- `last_star`: the rest of the test and of the pattern.
abbrev pub LastStar : Type 0
LastStar = Option (Text × Text)

abbrev pub star : ℕ
star = b'*'

-- The branches that go back to the last star, which then takes one more byte.
abbrev pub go_back : LastStar → (Text → Text → LastStar → Option Bool) → Option Bool
go_back none next = some false
go_back (some (t, p)) next = next p (drop 1 t) (some (drop 1 t, p))

-- `none`: the fuel ran out.
unfoldable pub loop : ℕ → Text → Text → LastStar → Option Bool
loop zero p t last = none
loop (suc f) [] [] last = some true
loop (suc f) [] (d ∷ t) last = go_back last (loop f)
loop (suc f) (c ∷ p) [] last = let next = loop f p [] last in if c == star then next else some false
loop (suc f) (c ∷ p) (d ∷ t) last =
    let after_star = loop f p (d ∷ t) (some (d ∷ t, p)) in
    let onward = loop f p t last in
    let back = go_back last (loop f) in
    if c == star then after_star else if c == d then onward else back

abbrev pub fuel_of : Text → Text → ℕ
fuel_of test pattern = (length test + 1) * (length pattern + 1)

unfoldable pub wildcard_match : Text → Text → Bool
unfolding loop
wildcard_match test pattern = elim (loop (fuel_of test pattern) pattern test none) [
  | some b ↦ b
  | none ↦ false
]
