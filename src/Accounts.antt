-- ===== src/Accounts.antt =====
-- src/system/interface.rs and src/system/mod.rs: users and groups, and the questions that the
-- policy asks of them. The group database is outside of the program: `group_by_name` stands for
-- `Group::from_name` (getgrnam_r), where `none` is a missing group or an error.
use sudo_rs.Prelude.{ℕ, ◌≡◌, refl, Bool, true, false, ◌&&◌, Option, none, some, List, [], ◌∷◌}
use sudo_rs.Prelude.{◌↔◌, arith}
use sudo_rs.Prelude.Tests.{◌==◌}
use sudo_rs.Prelude.Lists.{any}
use sudo_rs.Prelude.Text.{Text, text_eq, text_eq_iff}

pub record User : Type 0 where
  pub uid : ℕ
  pub gid : ℕ
  pub name : Text
  pub home : Text
  pub shell : Text
  pub groups : List ℕ

pub record Group : Type 0 where
  pub gid : ℕ
  pub name : Option Text

-- `UserId::ROOT`
abbrev pub root_id : ℕ
root_id = 0

unfoldable pub ids_eq : List ℕ → List ℕ → Bool
ids_eq [] [] = true
ids_eq [] (y ∷ ys) = false
ids_eq (x ∷ xs) [] = false
ids_eq (x ∷ xs) (y ∷ ys) = (x == y) && ids_eq xs ys

-- The derived `PartialEq` of `User`: every field counts.
unfoldable pub user_eq : User → User → Bool
user_eq a b =
    (a.uid == b.uid)
    && (a.gid == b.gid)
    && text_eq a.name b.name
    && text_eq a.home b.home
    && text_eq a.shell b.shell
    && ids_eq a.groups b.groups

abbrev pub has_name : User → Text → Bool
has_name u n = text_eq u.name n

abbrev pub has_uid : User → ℕ → Bool
has_uid u n = u.uid == n

abbrev pub is_root : User → Bool
is_root u = has_uid u root_id

abbrev pub in_group_by_gid : User → ℕ → Bool
in_group_by_gid u g = any (λ x. x == g) u.groups

unfoldable pub in_group_by_name : (Text → Option Group) → User → Text → Bool
in_group_by_name group_by_name u n = elim (group_by_name n) [
  | some g ↦ in_group_by_gid u g.gid
  | none ↦ false
]

-- `User::group`: the primary group, without its name.
abbrev pub primary_group : User → Group
primary_group u = record { gid = u.gid; name = none }

ids_eq_iff : (xs ys : List ℕ) → (ids_eq xs ys ≡ true) ↔ (xs ≡ ys)
unfolding ids_eq
ids_eq_iff [] [] = (λ h. refl, λ h. refl)
ids_eq_iff [] (y ∷ ys) = (λ h. cc, λ h. cc)
ids_eq_iff (x ∷ xs) [] = (λ h. cc, λ h. cc)
ids_eq_iff (x ∷ xs) (y ∷ ys) = ground (arith, ids_eq_iff xs ys)

-- The derived equality test is equality of users.
pub user_eq_iff : (a b : User) → (user_eq a b ≡ true) ↔ (a ≡ b)
unfolding user_eq
user_eq_iff a b = ground (
  arith,
  text_eq_iff a.name b.name,
  text_eq_iff a.home b.home,
  text_eq_iff a.shell b.shell,
  ids_eq_iff a.groups b.groups,
)
