-- ===== src/Sudoers/AliasOrder.antt =====
-- `sanitize_alias_table` of src/sudoers/mod.rs: a depth-first sort of alias definitions, so that
-- each comes after those that it uses, with complaints about the ones that cannot be sorted.
-- A visit goes at most as deep as there are definitions, each being entered once; it runs on one
-- more unit of fuel than that, and a run that used it up would complain of it.
pub mod Built
pub mod Fuel
mod Tests
use sudo_rs.Prelude.{ℕ, zero, suc, ◌+◌, Bool, true, false, Option, none, some, List, [], ◌∷◌, ◌++◌}
use sudo_rs.Prelude.Tests.{if◌then◌else◌, ◌==◌}
use sudo_rs.Prelude.Lists.{length, get_elem?, any}
use sudo_rs.Prelude.Text.{Text, text_eq}
use sudo_rs.Sudoers.Ast.{Qualified, allow, forbid, Meta, all, only, alias, Spec, SpecList, Def}

pub data Complaint : Type 0 where
  undefined_alias : Text → Complaint
  recursive_alias : Text → Complaint
  multiple_occurrences : Text → Complaint
  out_of_fuel : Complaint

pub record Visitor : Type 0 where
  pub seen : List ℕ
  pub order : List ℕ
  pub diagnostics : List Complaint

unfoldable pub contains : List ℕ → ℕ → Bool
contains xs n = any (λ x. x == n) xs

unfoldable pub complain : Complaint → Visitor → Visitor
complain c v = record v { diagnostics = v.diagnostics ++ c ∷ [] }

unfoldable pub remqualify : {A : Type 0} → Qualified A → A
remqualify (allow x) = x
remqualify (forbid x) = x

-- `table.iter().position(|Def(id, _)| id == name)`
unfoldable pub position_from : {A : Type 0} → Text → ℕ → List (Def A) → Option ℕ
position_from name i [] = none
position_from name i (d ∷ ds) = if text_eq d.id name then some i else position_from name (i + 1) ds

abbrev pub position : {A : Type 0} → Text → List (Def A) → Option ℕ
position name table = position_from name 0 table

unfoldable pub push : ℕ → Visitor → Visitor
push pos v = record v { order = v.order ++ pos ∷ [] }

unfoldable pub mark : ℕ → Visitor → Visitor
mark pos v = record v { seen = pos ∷ v.seen }

module _ {A : Type 0} (table : List (Def A)) where
  -- One element of the loop over the members, `visit` being the recursive call.
  unfoldable pub visit_member : (ℕ → Visitor → Visitor) → Meta A → Visitor → Visitor
  unfolding complain position_from
  visit_member visit all v = v
  visit_member visit (only x) v = v
  visit_member visit (alias name) v = elim (position name table) [
    | none ↦ complain (undefined_alias name) v
    | some dependency ↦ visit dependency v
  ]

  unfoldable pub visit_members : (ℕ → Visitor → Visitor) → SpecList A → Visitor → Visitor
  unfolding visit_member remqualify
  visit_members visit [] v = v
  visit_members visit (elem ∷ members) v =
      visit_members visit members (visit_member visit (remqualify elem) v)

  -- `Def(id, _)` at an index that is always in range.
  abbrev pub name_at : ℕ → Text
  name_at pos = elim (get_elem? table pos) [ none ↦ [] | some d ↦ d.id ]

  abbrev pub members_at : ℕ → SpecList A
  members_at pos = elim (get_elem? table pos) [ none ↦ [] | some d ↦ d.members ]

  unfoldable pub visit : ℕ → ℕ → Visitor → Visitor
  unfolding visit_members push mark contains complain
  visit zero pos v = complain out_of_fuel v
  visit (suc f) pos v =
      let below = visit_members (visit f) (members_at pos) (mark pos v) in
      if contains v.seen pos
      then (if contains v.order pos then v else complain (recursive_alias (name_at pos)) v)
      else push pos below

  -- The loop over the table; `dupe` holds the names that came before.
  unfoldable pub visit_all : ℕ → List Text → List (Def A) → Visitor → Visitor
  unfolding visit
  visit_all i dupe [] v = v
  visit_all i dupe (d ∷ ds) v = visit_all (i + 1) (d.id ∷ dupe) ds (
      if any (λ n. text_eq n d.id) dupe
      then complain (multiple_occurrences d.id) v
      else visit (length table + 1) i v)

  -- The order, and the complaints that go to the diagnostics.
  unfoldable pub sanitize_alias_table : List ℕ × List Complaint
  unfolding visit_all
  sanitize_alias_table =
      let v = visit_all 0 [] table (record { seen = []; order = []; diagnostics = [] }) in
      (v.order, v.diagnostics)
