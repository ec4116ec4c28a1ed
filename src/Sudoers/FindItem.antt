-- ===== src/Sudoers/FindItem.antt =====
-- `find_item` of src/sudoers/mod.rs: the last item of a list that says something decides.
pub mod Last
use sudo_rs.Prelude.{Bool, true, false, not, Option, none, some, List, [], ◌∷◌}
use sudo_rs.Prelude.Tests.{if◌then◌else◌}
use sudo_rs.Prelude.Text.{Dict, lookup}
use sudo_rs.Sudoers.Ast.{allow, forbid, Meta, all, only, alias, Spec, Tag, Command}

-- Maps an alias to what it says of the object: membership affirmed or denied.
abbrev pub FoundAliases : Type 0
FoundAliases = Dict Bool

-- The trait `WithInfo`: a list item holds a `Spec` and satellite data.
pub record WithInfo (I A B : Type 0) : Type 0 where
  pub as_inner : I → Spec A
  pub into_info : I → B

abbrev pub plain : {A : Type 0} → WithInfo (Spec A) A (Unit {0})
plain = record { as_inner = λ s. s; into_info = λ _. tt }

abbrev pub tagged : WithInfo (Tag × Spec Command) Command Tag
tagged = record { as_inner = λ s. s.1; into_info = λ s. s.0 }

-- `bool::then`
abbrev pub then_some : {B : Type 0} → Bool → B → Option B
then_some true b = some b
then_some false b = none

abbrev pub is_some : {B : Type 0} → Option B → Bool
is_some none = false
is_some (some b) = true

module _ {I A B : Type 0} (w : WithInfo I A B) (matches : A → Bool) (aliases : FoundAliases) where
  -- The `match who` of the loop: the new value of `result`.
  unfoldable pub judge : Bool → Meta A → B → Option B → Option B
  judge judgement all info result = then_some judgement info
  judge judgement (only x) info result = if matches x then then_some judgement info else result
  judge judgement (alias name) info result = elim (lookup name aliases) [
    | none ↦ result
    | some positive ↦ if positive then then_some judgement info else then_some (not judgement) info
  ]

  unfoldable pub judge_item : I → Option B → Option B
  unfolding judge
  judge_item item result = elim (w.as_inner item) [
    | forbid who ↦ judge false who (w.into_info item) result
    | allow who ↦ judge true who (w.into_info item) result
  ]

  unfoldable pub find_from : Option B → List I → Option B
  find_from result [] = result
  find_from result (item ∷ items) = find_from (judge_item item result) items

  unfoldable pub find_item : List I → Option B
  find_item items = find_from none items
