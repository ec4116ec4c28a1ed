-- ===== src/Sudoers/Aliases/Meaning.antt =====
-- What `get_aliases` of src/sudoers/mod.rs computes: an alias stands for its list.
use sudo_rs.Prelude.{Bool, true, false, Option, none, some, List, [], ◌∷◌, arith}
use sudo_rs.Prelude.{◌≡◌, ◌≢◌, refl, ◌∙◌, sym, ◌↔◌, inl, inr}
use sudo_rs.Prelude.Tests.{if◌then◌else◌}
use sudo_rs.Prelude.Lists.{All}
use sudo_rs.Prelude.Text.{Text, text_eq, text_eq_iff, text_eq_comm, lookup, insert, lookup-insert}
use sudo_rs.Prelude.Text.{lookup-insert_self, lookup-insert_ne}
use mathlib.Core.Path.{subst}
use sudo_rs.Sudoers.Ast.{allow, forbid, all, only, alias, Spec, SpecList, Def}
use sudo_rs.Sudoers.FindItem.{FoundAliases, plain, is_some, find_item, find_from, judge_item}
use sudo_rs.Sudoers.FindItem.Last.{
  LastSays, NoneSays, speakers, find_from-LastSays, find_from_silent,
}
use sudo_rs.Sudoers.Aliases.{VecOrd, iter, add_alias, get_aliases_from, get_aliases}

-- The name of the alias to which an entry refers.
unfoldable pub reference : {A : Type 0} → Spec A → Option Text
reference (allow (alias n)) = some n
reference (forbid (alias n)) = some n
reference (allow all) = none
reference (allow (only x)) = none
reference (forbid all) = none
reference (forbid (only x)) = none

-- No entry of the list refers to the alias `n`.
abbrev pub Avoids : {A : Type 0} → Text → SpecList A → Type 0
Avoids n = All (λ s. reference s ≢ some n)

-- No definition of the list has the name `n`.
abbrev pub Fresh : {A : Type 0} → Text → List (Def A) → Type 0
Fresh n = All (λ d. text_eq d.id n ≡ false)

-- In definitional order: a list refers neither to its own name nor to one that is defined later,
-- and no name is defined twice.
abbrev pub IsOrdered : {A : Type 0} → List (Def A) → Type 0
IsOrdered [] = Unit
IsOrdered (d ∷ defs) =
    Avoids d.id d.members × All (λ e. Avoids e.id d.members) defs × Fresh d.id defs × IsOrdered defs

module _ {A : Type 0} (pred : A → Bool) where
  judge_item-insert :
      (n : Text) (b : Bool) (found : FoundAliases) (s : Spec A) (r : Option (Unit {0}))
      → reference s ≢ some n
      → judge_item plain pred (insert n b found) s r ≡ judge_item plain pred found s r
  unfolding judge_item reference
  judge_item-insert n b found (allow all) r h = refl
  judge_item-insert n b found (forbid all) r h = refl
  judge_item-insert n b found (allow (only x)) r h = refl
  judge_item-insert n b found (forbid (only x)) r h = refl
  judge_item-insert n b found (allow (alias m)) r h =
      ground (arith, lookup-insert n m b found, text_eq_iff n m)
  judge_item-insert n b found (forbid (alias m)) r h =
      ground (arith, lookup-insert n m b found, text_eq_iff n m)

  find_from-insert :
      (n : Text) (b : Bool) (found : FoundAliases) (ss : SpecList A) (r : Option (Unit {0}))
      → Avoids n ss
      → find_from plain pred (insert n b found) r ss ≡ find_from plain pred found r ss
  unfolding find_from
  find_from-insert n b found [] r h = refl
  find_from-insert n b found (s ∷ ss) r h =
      rw (judge_item-insert n b found s r h.0)
        (find_from-insert n b found ss (judge_item plain pred found s r) h.1)

  -- The value that one round of `get_aliases` gives to an alias with these members.
  alias_value : FoundAliases → SpecList A → Option Bool
  alias_value found ms =
      if is_some (find_item plain pred found ms)
      then some true
      else if is_some (find_item plain pred found (allow all ∷ ms))
      then none
      else some false

  alias_value-insert :
      (n : Text) (b : Bool) (found : FoundAliases) (ms : SpecList A)
      → Avoids n ms
      → alias_value (insert n b found) ms ≡ alias_value found ms
  unfolding alias_value find_item find_from judge_item
  alias_value-insert n b found ms h =
      cc (find_from-insert n b found ms none h, find_from-insert n b found ms (some tt) h)

  alias_value-add_alias :
      (d : Def A) (found : FoundAliases) (ms : SpecList A)
      → Avoids d.id ms
      → alias_value (add_alias pred d found) ms ≡ alias_value found ms
  unfolding add_alias
  alias_value-add_alias d found ms h =
      ground
        (arith, alias_value-insert d.id true found ms h, alias_value-insert d.id false found ms h)

  alias_value-get_aliases_from :
      (defs : List (Def A)) (found : FoundAliases) (ms : SpecList A)
      → All (λ e. Avoids e.id ms) defs
      → alias_value (get_aliases_from pred found defs) ms ≡ alias_value found ms
  unfolding get_aliases_from
  alias_value-get_aliases_from [] found ms h = refl
  alias_value-get_aliases_from (d ∷ defs) found ms h =
      alias_value-get_aliases_from defs (add_alias pred d found) ms h.1
      ∙ alias_value-add_alias d found ms h.0

  lookup-add_alias_self :
      (d : Def A) (found : FoundAliases)
      → lookup d.id found ≡ none
      → lookup d.id (add_alias pred d found) ≡ alias_value found d.members
  unfolding add_alias alias_value
  lookup-add_alias_self d found h =
      ground (arith, lookup-insert_self d.id true found, lookup-insert_self d.id false found)

  lookup-add_alias_ne :
      (d : Def A) (n : Text) (found : FoundAliases)
      → text_eq d.id n ≡ false
      → lookup n (add_alias pred d found) ≡ lookup n found
  unfolding add_alias
  lookup-add_alias_ne d n found h =
      ground (arith, lookup-insert_ne d.id n true found h, lookup-insert_ne d.id n false found h)

  lookup-get_aliases_from_ne :
      (defs : List (Def A)) (n : Text) (found : FoundAliases)
      → Fresh n defs
      → lookup n (get_aliases_from pred found defs) ≡ lookup n found
  unfolding get_aliases_from
  lookup-get_aliases_from_ne [] n found h = refl
  lookup-get_aliases_from_ne (d ∷ defs) n found h =
      lookup-get_aliases_from_ne defs n (add_alias pred d found) h.1
      ∙ lookup-add_alias_ne d n found h.0

  alias_value_silent :
      (found : FoundAliases) (ms : SpecList A)
      → NoneSays plain pred found ms
      → alias_value found ms ≡ none
  unfolding alias_value find_item find_from judge_item
  alias_value_silent found ms quiet = ground (
    arith,
    find_from_silent plain pred found ms none quiet,
    find_from_silent plain pred found ms (some tt) quiet,
  )

  alias_value-LastSays :
      (found : FoundAliases) (ms : SpecList A) (i : Unit {0}) (b : Bool)
      → LastSays plain pred found ms i b
      → alias_value found ms ≡ some b
  unfolding alias_value find_item find_from judge_item
  alias_value-LastSays found ms i b h = ground (
    arith,
    find_from-LastSays plain pred found none h,
    find_from-LastSays plain pred found (some tt) h,
  )

  -- The value is what the last speaking member says.
  alias_value_iff :
      (found : FoundAliases) (ms : SpecList A) (b : Bool)
      → (alias_value found ms ≡ some b) ↔ LastSays plain pred found ms tt b
  alias_value_iff found ms b = (forth, alias_value-LastSays found ms tt b)
    where
      forth : alias_value found ms ≡ some b → LastSays plain pred found ms tt b
      forth e = elim (speakers plain pred found ms) [
        | inl quiet ↦ absurd (cc (alias_value_silent found ms quiet))
        | inr (i, c, h) ↦
            let p : c ≡ b = cc (alias_value-LastSays found ms i c h) in
            subst (λ k. LastSays plain pred found ms tt k) p h
      ]

  -- Each alias is found with the value of its list under the aliases that are found in the end.
  get_aliases_from-Fixed :
      (defs : List (Def A)) (found : FoundAliases)
      → IsOrdered defs
      → All (λ d. lookup d.id found ≡ none) defs
      → All
          (λ d.
            lookup d.id (get_aliases_from pred found defs)
            ≡ alias_value (get_aliases_from pred found defs) d.members)
          defs
  unfolding get_aliases_from
  get_aliases_from-Fixed [] found o h = tt
  get_aliases_from-Fixed (d ∷ defs) found o h = (
    lookup-get_aliases_from_ne defs d.id (add_alias pred d found) o.2
        ∙ lookup-add_alias_self d found h.0
        ∙ sym (alias_value-add_alias d found d.members o.0)
        ∙ sym (alias_value-get_aliases_from defs (add_alias pred d found) d.members o.1),
    get_aliases_from-Fixed defs (add_alias pred d found) o.3 (unseen defs o.2 h.1),
  )
    where
      unseen :
          (es : List (Def A))
          → Fresh d.id es
          → All (λ e. lookup e.id found ≡ none) es
          → All (λ e. lookup e.id (add_alias pred d found) ≡ none) es
      unseen [] f k = tt
      unseen (e ∷ es) f k =
          (lookup-add_alias_ne d e.id found (text_eq_comm d.id e.id ∙ f.0) ∙ k.0, unseen es f.1 k.1)

  All-empty : (defs : List (Def A)) → All (λ d. lookup {V = Bool} d.id [] ≡ none) defs
  unfolding lookup
  All-empty [] = tt
  All-empty (d ∷ defs) = (refl, All-empty defs)

  meaning :
      (found : FoundAliases) (defs : List (Def A))
      → All (λ d. lookup d.id found ≡ alias_value found d.members) defs
      → All
          (λ d.
            (b : Bool) → (lookup d.id found ≡ some b) ↔ LastSays plain pred found d.members tt b)
          defs
  meaning found [] h = tt
  meaning found (d ∷ defs) h =
      (λ b. rw h.0 (alias_value_iff found d.members b), meaning found defs h.1)

-- Over aliases in definitional order, an object is found in an alias exactly if the last member of
-- the alias's list that says anything of it says yes, and found excluded exactly if that says no:
-- aliases may nest, and each stands for its list.
pub get_aliases-LastSays :
    {A : Type 0} (pred : A → Bool) (table : VecOrd (Def A))
    → IsOrdered (iter table)
    → let found = get_aliases pred table in
      All
        (λ d. (b : Bool) → (lookup d.id found ≡ some b) ↔ LastSays plain pred found d.members tt b)
        (iter table)
unfolding get_aliases
get_aliases-LastSays pred table o =
    meaning pred (get_aliases_from pred [] (iter table)) (iter table)
      (get_aliases_from-Fixed pred (iter table) [] o (All-empty pred (iter table)))
