-- ===== src/Resolve/Target.antt =====
-- Which user and group `resolve_target_user_and_group` of src/common/resolve.rs finds.
use sudo_rs.Prelude.{Option, none, some, ◌≡◌, refl, sym, ap, ◌∙◌, ◌⊎◌, inl, inr, ◌↔◌}
use mathlib.Core.Path.{subst}
use sudo_rs.Prelude.Text.{Text, codes}
use sudo_rs.Accounts.{User, Group}
use sudo_rs.Resolve.{
  Result, ok, err, and_then, Database, from_gid, from_gid_unchecked, primary_group,
  resolve_from_name_or_id, with_defaults, found, resolve_target_user_and_group,
}

and_then-ok :
    {A B : Type 0} (r : Result A) (f : A → Result B) (b : B)
    → and_then r f ≡ ok b
    → (a : A) × (r ≡ ok a) × (f a ≡ ok b)
and_then-ok (ok a) f b h = (a, refl, h)
and_then-ok (err e) f b h = absurd (cc)

module _ (db : Database) (current_user : User) where
  abbrev pub named_user : Option Text → Result (Option User)
  named_user u = resolve_from_name_or_id u db.user_from_name db.user_from_uid

  abbrev pub named_group : Option Text → Result (Option Group)
  named_group g = resolve_from_name_or_id g db.group_from_name (from_gid db)

  -- The entry of the user's group number, or the number alone if there is no entry.
  abbrev pub IsPrimary : User → Group → Type 0
  IsPrimary user group =
      (db.group_entry user.gid ≡ ok (some group))
      ⊎ ((db.group_entry user.gid ≡ ok none) × (group ≡ record { gid = user.gid; name = none }))

  primary_group-IsPrimary :
      (user : User) (group : Group) (r : Result (Option Group))
      → db.group_entry user.gid ≡ r
      → primary_group db user ≡ ok group
      → IsPrimary user group
  unfolding primary_group from_gid_unchecked
  primary_group-IsPrimary user group (ok (some g)) e h =
      let same : ok g ≡ ok group = rw (e, primary_group, from_gid_unchecked) at h in
      inl (e ∙ ap (λ k. ok (some k)) (let inner : g ≡ group = cc in inner))
  primary_group-IsPrimary user group (ok none) e h =
      let same : ok (record { gid = user.gid; name = none }) ≡ ok group =
        rw (e, primary_group, from_gid_unchecked) at h in
      inr (e, cc)
  primary_group-IsPrimary user group (err x) e h =
      absurd (cc (rw (e, primary_group, from_gid_unchecked) at h))

  primary_group-ok :
      (user : User) (group : Group) → IsPrimary user group → primary_group db user ≡ ok group
  unfolding primary_group from_gid_unchecked
  primary_group-ok user group (inl e) = rw (e, primary_group, from_gid_unchecked) refl
  primary_group-ok user group (inr (e, k)) =
      rw (e, primary_group, from_gid_unchecked) (ap ok (sym k))

  -- The user and the group that stand for -u and -g, each given or not.
  pub data Resolves : Option Text → Option Text → User × Group → Type 0 where
    both :
        {u g : Text} {user : User} {group : Group}
        → named_user (some u) ≡ ok (some user)
        → named_group (some g) ≡ ok (some group)
        → Resolves (some u) (some g) (user, group)
    user_only :
        {u : Text} {user : User} {group : Group}
        → named_user (some u) ≡ ok (some user)
        → IsPrimary user group
        → Resolves (some u) none (user, group)
    group_only :
        {g : Text} {group : Group}
        → named_group (some g) ≡ ok (some group)
        → Resolves none (some g) (current_user, group)
    neither :
        {user : User} {group : Group}
        → db.user_from_name (codes "root") ≡ ok (some user)
        → db.group_from_name (codes "root") ≡ ok (some group)
        → Resolves none none (user, group)

  found-ok :
      (u g : Option Text) (user : Option User) (group : Option Group) (x : User) (y : Group)
      → found db u g (user, group) ≡ ok (x, y)
      → (user ≡ some x) × (group ≡ some y)
  unfolding found
  found-ok u g (some user) (some group) x y h = (cc, cc)
  found-ok u g (some user) none x y h = absurd (cc)
  found-ok u g none group x y h = absurd (cc)

  ok-inj : {A : Type 0} {a b : A} → ok a ≡ ok b → a ≡ b
  ok-inj e = cc

  found-pair :
      (u g : Option Text) (p q : Option User × Option Group) (r : User × Group)
      → ok q ≡ ok p
      → found db u g p ≡ ok r
      → found db u g q ≡ ok r
  found-pair u g p q r e h = subst (λ k. found db u g k ≡ ok r) (sym (ok-inj e)) h

  resolves :
      (u g : Option Text) (user : Option User) (group : Option Group) (x : User) (y : Group)
      → named_user u ≡ ok user
      → named_group g ≡ ok group
      → and_then (with_defaults db u g current_user user group) (found db u g) ≡ ok (x, y)
      → Resolves u g (x, y)
  unfolding with_defaults
  resolves none (some g) user group x y a b h =
      let (k, l) = found-ok none (some g) (some current_user) group x y h in
      let e : current_user ≡ x = cc in
      let m : ok group ≡ ok (some y) = cc in
      subst (λ z. Resolves none (some g) (z, y)) e (group_only (b ∙ m))
  resolves (some u) none (some user) group x y a b h =
      let (p, e, h₁) =
        and_then-ok (and_then (primary_group db user) (λ p. ok (some user, some p)))
          (found db (some u) none) (x, y) h in
      let (p₂, e₂, h₂) = and_then-ok (primary_group db user) (λ p. ok (some user, some p)) p e in
      let (k, l) =
        found-ok (some u) none (some user) (some p₂) x y
          (found-pair (some u) none p (some user, some p₂) (x, y) h₂ h₁) in
      let m : ok (some user) ≡ ok (some x) = cc in
      let n : ok p₂ ≡ ok y = cc in
      let j : user ≡ x = cc in
      user_only (a ∙ m) (
        primary_group-IsPrimary x y (db.group_entry x.gid) refl
          (subst (λ z. primary_group db z ≡ ok y) j (e₂ ∙ n)))
  resolves (some u) none none group x y a b h =
      let (k, l) = found-ok (some u) none none group x y h in absurd (cc)
  resolves none none user group x y a b h =
      let (p, e, h₁) =
        and_then-ok
          (and_then (db.user_from_name (codes "root")) (λ root.
            and_then (db.group_from_name (codes "root")) (λ root_group. ok (root, root_group))))
          (found db none none) (x, y) h in
      let (root, e₂, h₂) =
        and_then-ok (db.user_from_name (codes "root"))
          (λ root.
            and_then (db.group_from_name (codes "root")) (λ root_group. ok (root, root_group)))
          p e in
      let (root_group, e₃, h₃) =
        and_then-ok (db.group_from_name (codes "root")) (λ root_group. ok (root, root_group)) p
          h₂ in
      let (k, l) =
        found-ok none none root root_group x y
          (found-pair none none p (root, root_group) (x, y) h₃ h₁) in
      let m : ok root ≡ ok (some x) = cc in
      let n : ok root_group ≡ ok (some y) = cc in neither (e₂ ∙ m) (e₃ ∙ n)
  resolves (some u) (some g) user group x y a b h =
      let (k, l) = found-ok (some u) (some g) user group x y h in
      let m : ok user ≡ ok (some x) = cc in
      let n : ok group ≡ ok (some y) = cc in both (a ∙ m) (b ∙ n)

  complete :
      {u g : Option Text} {r : User × Group}
      → Resolves u g r
      → resolve_target_user_and_group db u g current_user ≡ ok r
  unfolding resolve_target_user_and_group with_defaults found
  complete (both a b) = rw (a, b) refl
  complete (user_only {user = user} {group = group} a b) =
      rw (a, primary_group-ok user group b) refl
  complete (group_only a) = rw a refl
  complete (neither a b) = rw (a, b) refl

  -- The target is resolved to a user and a group exactly as follows. With both options, to those
  -- named; with -u only, to that user and the group of their group number, without a name if the
  -- database has no entry for it; with -g only, to the invoking user
  -- and that group; with neither, to the user and the group called root.
  pub resolve_target_user_and_group_iff :
      (u g : Option Text) (x : User) (y : Group)
      → (resolve_target_user_and_group db u g current_user ≡ ok (x, y)) ↔ Resolves u g (x, y)
  unfolding resolve_target_user_and_group
  resolve_target_user_and_group_iff u g x y = (
    λ h.
        let (user, a, h₁) = and_then-ok (named_user u) _ (x, y) h in
        let (group, b, h₂) = and_then-ok (named_group g) _ (x, y) h₁ in
        resolves u g user group x y a b h₂,
    complete,
  )
