-- ===== src/Sudoers/AliasOrder/Built.antt =====
-- What the order that `sanitize_alias_table` of src/sudoers/mod.rs gives says of the table.
use sudo_rs.Prelude.{ℕ, zero, suc, ◌+◌, ◌||◌, true, false, some, List, [], ◌∷◌, ◌++◌, arith}
use sudo_rs.Prelude.{◌≡◌, refl, sym, ◌∙◌, ap, inl, inr}
use sudo_rs.Prelude.Tests.{◌==◌, Bool-cases, Option-cases}
use sudo_rs.Prelude.Lists.{length, any, All}
use sudo_rs.Prelude.Text.{Text, text_eq}
use mathlib.Core.Path.{subst}
use sudo_rs.Sudoers.Ast.{Meta, all, only, alias, SpecList, Def}
use sudo_rs.Sudoers.AliasOrder.{
  Complaint, Visitor, contains, complain, remqualify, position, visit_member, visit_members,
  members_at, push, mark, visit, visit_all, sanitize_alias_table,
}

module _ {A : Type 0} (table : List (Def A)) where
  -- Every alias that an entry names is defined, at a place in `order`.
  abbrev pub IsGrounded : List ℕ → Meta A → Type 0
  IsGrounded order all = Unit
  IsGrounded order (only x) = Unit
  IsGrounded order (alias name) =
      (j : ℕ) × (position name table ≡ some j) × (contains order j ≡ true)

  abbrev pub AreGrounded : List ℕ → SpecList A → Type 0
  AreGrounded order = All (λ s. IsGrounded order (remqualify s))

  -- Orders that are built by appending one definition at a time, each after all that it uses.
  pub data Built : List ℕ → Type 0 where
    none_yet : Built []
    append :
        {order order' : List ℕ} (pos : ℕ)
        → Built order
        → AreGrounded order (members_at table pos)
        → order' ≡ order ++ pos ∷ []
        → Built order'

  IsQuiet : Visitor → Type 0
  IsQuiet v = v.diagnostics ≡ []

  complain_loud : (c : Complaint) (v : Visitor) → ¬ IsQuiet (complain c v)
  unfolding complain IsQuiet
  complain_loud c v h = go v.diagnostics h
    where
      go : (xs : List Complaint) → ¬ (xs ++ c ∷ [] ≡ [])
      go [] e = cc
      go (x ∷ xs) e = cc

  abbrev Keeps : (ℕ → Visitor → Visitor) → Type 0
  Keeps g = (pos : ℕ) (v : Visitor) → IsQuiet (g pos v) → IsQuiet v

  visit_member-IsQuiet :
      (g : ℕ → Visitor → Visitor)
      → Keeps g
      → (m : Meta A) (v : Visitor) → IsQuiet (visit_member table g m v)
      → IsQuiet v
  unfolding visit_member
  visit_member-IsQuiet g k all v h = h
  visit_member-IsQuiet g k (only x) v h = h
  visit_member-IsQuiet g k (alias n) v h = elim (Option-cases (position n table)) [
    | inl e ↦ absurd (complain_loud _ v (rw (e, visit_member) at h))
    | inr (j, e) ↦ k j v (rw (e, visit_member) at h)
  ]

  visit_members-IsQuiet :
      (g : ℕ → Visitor → Visitor)
      → Keeps g
      → (ms : SpecList A) (v : Visitor) → IsQuiet (visit_members table g ms v)
      → IsQuiet v
  unfolding visit_members
  visit_members-IsQuiet g k [] v h = h
  visit_members-IsQuiet g k (s ∷ ms) v h =
      visit_member-IsQuiet g k (remqualify s) v
        (visit_members-IsQuiet g k ms (visit_member table g (remqualify s) v) h)

  visit-IsQuiet : (f : ℕ) → Keeps (visit table f)
  unfolding visit push mark IsQuiet
  visit-IsQuiet zero pos v h = absurd (complain_loud _ v h)
  visit-IsQuiet (suc f) pos v h = elim (Bool-cases (contains v.seen pos)) [
    | inl e ↦ elim (Bool-cases (contains v.order pos)) [
      | inl e₂ ↦ rw (e, e₂, visit) at h
      | inr e₂ ↦ absurd (complain_loud _ v (rw (e, e₂, visit) at h))
    ]
    | inr e ↦
        visit_members-IsQuiet (visit table f) (visit-IsQuiet f) (members_at table pos) (mark pos v)
          (rw (e, visit) at h)
  ]

  Grows : List ℕ → List ℕ → Type 0
  Grows o o' = (j : ℕ) → contains o j ≡ true → contains o' j ≡ true

  contains-append : (o : List ℕ) (p j : ℕ) → contains (o ++ p ∷ []) j ≡ (contains o j || (p == j))
  unfolding contains
  contains-append [] p j = ground arith
  contains-append (x ∷ o) p j = ground (arith, contains-append o p j)

  record Progress (v v' : Visitor) : Type 0 where
    built : Built v'.order
    grows : Grows v.order v'.order

  abbrev Advances : (ℕ → Visitor → Visitor) → Type 0
  Advances g =
      (pos : ℕ) (v : Visitor)
      → IsQuiet (g pos v)
      → Built v.order
      → Progress v (g pos v) × (contains (g pos v).order pos ≡ true)

  visit_member-Advances :
      (g : ℕ → Visitor → Visitor)
      → Advances g
      → (m : Meta A) (v : Visitor) → IsQuiet (visit_member table g m v)
      → Built v.order
      → Progress v (visit_member table g m v) × IsGrounded (visit_member table g m v).order m
  unfolding visit_member Grows
  visit_member-Advances g k all v h b = (record { built = b; grows = λ j c. c }, tt)
  visit_member-Advances g k (only x) v h b = (record { built = b; grows = λ j c. c }, tt)
  visit_member-Advances g k (alias n) v h b = elim (Option-cases (position n table)) [
    | inl e ↦ absurd (complain_loud _ v (rw (e, visit_member) at h))
    | inr (j, e) ↦
        let (p, c) = k j v (rw (e, visit_member) at h) b in rw (e, visit_member) (p, (j, refl, c))
  ]

  IsGrounded-Grows : (m : Meta A) (o o' : List ℕ) → Grows o o' → IsGrounded o m → IsGrounded o' m
  unfolding Grows
  IsGrounded-Grows all o o' g h = tt
  IsGrounded-Grows (only x) o o' g h = tt
  IsGrounded-Grows (alias n) o o' g (j, e, c) = (j, e, g j c)

  visit_members-Advances :
      (g : ℕ → Visitor → Visitor)
      → Keeps g
      → Advances g
      → (ms : SpecList A) (v : Visitor) → IsQuiet (visit_members table g ms v)
      → Built v.order
      → Progress v (visit_members table g ms v) × AreGrounded (visit_members table g ms v).order ms
  unfolding visit_members Grows
  visit_members-Advances g q k [] v h b = (record { built = b; grows = λ j c. c }, tt)
  visit_members-Advances g q k (s ∷ ms) v h b =
      let v₁ = visit_member table g (remqualify s) v in
      let (p₁, c) =
        visit_member-Advances g k (remqualify s) v (visit_members-IsQuiet g q ms v₁ h) b in
      let (p₂, cs) = visit_members-Advances g q k ms v₁ h p₁.built in
      (
        record { built = p₂.built; grows = λ j e. p₂.grows j (p₁.grows j e) },
        (
          IsGrounded-Grows (remqualify s) v₁.order (visit_members table g ms v₁).order p₂.grows c,
          cs,
        ),
      )

  visit-Advances : (f : ℕ) → Advances (visit table f)
  unfolding visit push mark Grows IsQuiet
  visit-Advances zero pos v h b = absurd (complain_loud _ v h)
  visit-Advances (suc f) pos v h b = elim (Bool-cases (contains v.seen pos)) [
    | inl e ↦ elim (Bool-cases (contains v.order pos)) [
      | inl e₂ ↦ rw (e, e₂, visit) (record { built = b; grows = λ j c. c }, e₂)
      | inr e₂ ↦ absurd (complain_loud _ v (rw (e, e₂, visit) at h))
    ]
    | inr e ↦
        let below = visit_members table (visit table f) (members_at table pos) (mark pos v) in
        let (p, cs) =
          visit_members-Advances (visit table f) (visit-IsQuiet f) (visit-Advances f)
            (members_at table pos) (mark pos v) (rw (e, visit) at h) b in
        rw (e, visit)
          (
            record {
              built = append pos p.built cs refl;
              grows = λ j c. contains-append below.order pos j ∙ rw (p.grows j c) refl;
            },
            contains-append below.order pos pos ∙ ground arith,
          )
  ]

  visit_all-IsQuiet :
      (i : ℕ) (dupe : List Text) (ds : List (Def A)) (v : Visitor)
      → IsQuiet (visit_all table i dupe ds v)
      → IsQuiet v
  unfolding visit_all
  visit_all-IsQuiet i dupe [] v h = h
  visit_all-IsQuiet i dupe (d ∷ ds) v h = elim (Bool-cases (any (λ n. text_eq n d.id) dupe)) [
    | inl e ↦
        absurd (
          complain_loud _ v (visit_all-IsQuiet (i + 1) (d.id ∷ dupe) ds _ (rw (e, visit_all) at h)))
    | inr e ↦
        visit-IsQuiet (length table + 1) i v
          (visit_all-IsQuiet (i + 1) (d.id ∷ dupe) ds _ (rw (e, visit_all) at h))
  ]

  -- The positions from `i` on, as many as there are entries, are all in the order.
  abbrev pub Covers : List ℕ → ℕ → List (Def A) → Type 0
  Covers o i [] = Unit
  Covers o i (d ∷ ds) = (contains o i ≡ true) × Covers o (i + 1) ds

  visit_all-visit :
      (i : ℕ) (dupe : List Text) (d : Def A) (ds : List (Def A)) (v : Visitor)
      → any (λ n. text_eq n d.id) dupe ≡ false
      → visit_all table i dupe (d ∷ ds) v
        ≡ visit_all table (i + 1) (d.id ∷ dupe) ds (visit table (length table + 1) i v)
  unfolding visit_all
  visit_all-visit i dupe d ds v e = rw (e, visit_all) refl

  visit_all-Progress :
      (i : ℕ) (dupe : List Text) (ds : List (Def A)) (v : Visitor)
      → IsQuiet (visit_all table i dupe ds v)
      → Built v.order
      → Progress v (visit_all table i dupe ds v) × Covers (visit_all table i dupe ds v).order i ds
  unfolding visit_all Grows
  visit_all-Progress i dupe [] v h b = (record { built = b; grows = λ j c. c }, tt)
  visit_all-Progress i dupe (d ∷ ds) v h b = elim (Bool-cases (any (λ n. text_eq n d.id) dupe)) [
    | inl e ↦
        absurd (
          complain_loud _ v (visit_all-IsQuiet (i + 1) (d.id ∷ dupe) ds _ (rw (e, visit_all) at h)))
    | inr e ↦
        let v₁ = visit table (length table + 1) i v in
        let h' : IsQuiet (visit_all table (i + 1) (d.id ∷ dupe) ds v₁) = rw (e, visit_all) at h in
        let (p₁, c) =
          visit-Advances (length table + 1) i v (visit_all-IsQuiet (i + 1) (d.id ∷ dupe) ds v₁ h')
            b in
        let (p₂, cs) = visit_all-Progress (i + 1) (d.id ∷ dupe) ds v₁ h' p₁.built in
        subst (λ w. Progress v w × Covers w.order i (d ∷ ds))
          (sym (visit_all-visit i dupe d ds v e))
          (
            record { built = p₂.built; grows = λ j k. p₂.grows j (p₁.grows j k) },
            (p₂.grows i c, cs),
          )
  ]

  -- If the sort of an alias table gives no complaint, every definition of the table is in its
  -- order, and the order puts each after all the aliases that it uses, all of which are defined.
  pub sanitize_alias_table-Built :
      (order : List ℕ)
      → sanitize_alias_table table ≡ (order, [])
      → Built order × Covers order 0 table
  unfolding sanitize_alias_table IsQuiet
  sanitize_alias_table-Built order h =
      let v = visit_all table 0 [] table (record { seen = []; order = []; diagnostics = [] }) in
      let (p, c) =
        visit_all-Progress 0 [] table (record { seen = []; order = []; diagnostics = [] })
          (ap (λ (r : List ℕ × List Complaint). r.1) h) none_yet in
      subst (λ o. Built o × Covers o 0 table) (ap (λ (r : List ℕ × List Complaint). r.0) h)
        (p.built, c)
