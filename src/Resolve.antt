-- ===== src/Resolve.antt =====
-- src/common/resolve.rs: which user and group the options -u and -g stand for. The user and group
-- databases are a parameter, `Database`, whose answers may be errors of the system.
pub mod Target
mod Tests
use sudo_rs.Prelude.{
  ℕ, ◌+◌, ◌-◌, ◌*◌, ◌^◌, Bool, true, false, ◌&&◌, Option, none, some, List, [], ◌∷◌,
}
use sudo_rs.Prelude.Tests.{if◌then◌else◌, ◌==◌, leb, ltb, ◌>>=◌}
use sudo_rs.Prelude.Text.{Text, codes}
use sudo_rs.Accounts.{User, Group}

pub data Error : Type 0 where
  io : ℕ → Error
  user_not_found : Text → Error
  group_not_found : Text → Error

pub data Result (A : Type 0) : Type 0 where
  ok : A → Result A
  err : Error → Result A

-- `?`
abbrev pub and_then : {A B : Type 0} → Result A → (A → Result B) → Result B
and_then (ok a) f = f a
and_then (err e) f = err e

pub record Database : Type 0 where
  pub user_from_name : Text → Result (Option User)
  pub user_from_uid : ℕ → Result (Option User)
  pub group_from_name : Text → Result (Option Group)
  -- `getgrgid_r`
  pub group_entry : ℕ → Result (Option Group)

pub data NameOrId : Type 0 where
  name : Text → NameOrId
  id : ℕ → NameOrId

unfoldable pub digits : ℕ → Text → Option ℕ
digits n [] = some n
digits n (c ∷ s) =
    let rest = digits (n * 10 + (c - 48)) s in if leb 48 c && leb c 57 then rest else none

-- `str::parse` to a number of 32 bits: an optional plus sign, then digits.
unfoldable pub parse_id : Text → Option ℕ
unfolding digits
parse_id [] = none
parse_id (c ∷ s) =
    (if c == 43 then elim s [ [] ↦ none | d ∷ ds ↦ digits 0 (d ∷ ds) ] else digits 0 (c ∷ s))
    >>= λ n. if ltb n (2 ^ 32) then some n else none

unfoldable pub parse : Text → Option NameOrId
unfolding parse_id
parse [] = none
parse (c ∷ s) = if c == 35 then (parse_id s >>= λ n. some (id n)) else some (name (c ∷ s))

unfoldable pub resolve_from_name_or_id :
    {A : Type 0}
    → Option Text
    → (Text → Result (Option A))
    → (ℕ → Result (Option A))
    → Result (Option A)
unfolding parse
resolve_from_name_or_id input from_name from_id = elim (input >>= parse) [
  | some (name n) ↦ from_name n
  | some (id n) ↦ from_id n
  | none ↦ ok none
]

abbrev pub unwrap_or_default : Option Text → Text
unwrap_or_default (some t) = t
unwrap_or_default none = []

module _ (db : Database) where
  -- `Group::from_gid_unchecked`, `Group::from_gid` and `User::primary_group` of src/system/mod.rs
  unfoldable pub from_gid_unchecked : ℕ → Result Group
  from_gid_unchecked gid = and_then (db.group_entry gid) (λ entry. elim entry [
    | none ↦ ok (record { gid = gid; name = none })
    | some group ↦ ok group
  ])

  unfoldable pub from_gid : ℕ → Result (Option Group)
  unfolding from_gid_unchecked
  from_gid gid =
      and_then (from_gid_unchecked gid)
        (λ group. elim group.name [ none ↦ ok none | some n ↦ ok (some group) ])

  unfoldable pub primary_group : User → Result Group
  unfolding from_gid_unchecked
  primary_group u = from_gid_unchecked u.gid

  -- The first `match`: the defaults for options that are not given.
  unfoldable pub with_defaults :
      Option Text
      → Option Text
      → User
      → Option User
      → Option Group
      → Result (Option User × Option Group)
  unfolding primary_group
  with_defaults none (some g) current_user user group = ok (some current_user, group)
  with_defaults (some u) none current_user (some user) group =
      and_then (primary_group user) (λ p. ok (some user, some p))
  with_defaults (some u) none current_user none group = ok (none, group)
  with_defaults none none current_user user group =
      and_then (db.user_from_name (codes "root"))
        (λ root. and_then (db.group_from_name (codes "root")) (λ root_group. ok (root, root_group)))
  with_defaults (some u) (some g) current_user user group = ok (user, group)

  -- The second `match`
  unfoldable pub found :
      Option Text → Option Text → Option User × Option Group → Result (User × Group)
  found u g (some user, some group) = ok (user, group)
  found u g (some user, none) = err (group_not_found (unwrap_or_default g))
  found u g (none, group) = err (user_not_found (unwrap_or_default u))

  unfoldable pub resolve_target_user_and_group :
      Option Text → Option Text → User → Result (User × Group)
  unfolding with_defaults found resolve_from_name_or_id from_gid
  resolve_target_user_and_group u g current_user =
      and_then (resolve_from_name_or_id u db.user_from_name db.user_from_uid) (λ user.
        and_then (resolve_from_name_or_id g db.group_from_name from_gid)
          (λ group. and_then (with_defaults u g current_user user group) (found u g)))
