-- ===== src/Sudoers/Aliases.antt =====
-- `VecOrd`, `AliasTable` and `get_aliases` of src/sudoers/mod.rs.
pub mod Meaning
use sudo_rs.Prelude.{ℕ, Bool, true, false, Option, none, some, List, [], ◌∷◌}
use sudo_rs.Prelude.Tests.{if◌then◌else◌}
use sudo_rs.Prelude.Lists.{get_elem?}
use sudo_rs.Prelude.Text.{Text, insert}
use sudo_rs.Sudoers.Ast.{allow, all, Spec, Def, UserSpecifier, Command}
use sudo_rs.Sudoers.FindItem.{FoundAliases, plain, is_some, find_item}

-- A vector and the order in which its elements are processed.
pub record VecOrd (A : Type 0) : Type 0 where
  pub order : List ℕ
  pub items : List A

-- `VecOrd::default`
abbrev pub empty_vec_ord : {A : Type 0} → VecOrd A
empty_vec_ord = record { order = []; items = [] }

-- An index out of range, a panic in the source, is passed over: `AliasOrder` never makes one.
unfoldable pub pick : {A : Type 0} → List A → List ℕ → List A
pick items [] = []
pick items (i ∷ order) = elim (get_elem? items i) [
  | none ↦ pick items order
  | some x ↦ x ∷ pick items order
]

-- `VecOrd::iter`
abbrev pub iter : {A : Type 0} → VecOrd A → List A
iter v = pick v.items v.order

pub record AliasTable : Type 0 where
  pub user : VecOrd (Def UserSpecifier)
  pub host : VecOrd (Def Text)
  pub cmnd : VecOrd (Def Command)
  pub runas : VecOrd (Def UserSpecifier)

module _ {A : Type 0} (pred : A → Bool) where
  -- One round of the loop: the aliases found so far with what `d` says added, if it says anything.
  unfoldable pub add_alias : Def A → FoundAliases → FoundAliases
  add_alias d found =
      if is_some (find_item plain pred found d.members)
      then insert d.id true found
      else if is_some (find_item plain pred found (allow all ∷ d.members))
      then found
      else insert d.id false found

  unfoldable pub get_aliases_from : FoundAliases → List (Def A) → FoundAliases
  get_aliases_from found [] = found
  get_aliases_from found (d ∷ defs) = get_aliases_from (add_alias d found) defs

  unfoldable pub get_aliases : VecOrd (Def A) → FoundAliases
  get_aliases table = get_aliases_from [] (iter table)
