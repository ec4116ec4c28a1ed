-- ===== src/Sudoers/AliasOrder/Fuel.antt =====
-- The fuel with which `visit` of src/sudoers/mod.rs is modelled, against the definitions that are
-- not entered yet.
use sudo_rs.Prelude.{ℕ, zero, suc, ◌+◌, ◌≤◌, ◌<◌, false, some, List, [], ◌∷◌, ◌++◌, arith}
use sudo_rs.Prelude.{◌≡◌, refl, inl, inr}
use sudo_rs.Prelude.Tests.{if◌then◌else◌, ◌==◌, Bool-cases, Option-cases}
use sudo_rs.Prelude.Lists.{length, any, All}
use sudo_rs.Prelude.Text.{Text, text_eq}
use sudo_rs.Sudoers.Ast.{Meta, all, only, alias, SpecList, Def}
use sudo_rs.Sudoers.AliasOrder.{
  Complaint, undefined_alias, recursive_alias, multiple_occurrences, out_of_fuel, Visitor, contains,
  complain, remqualify, position_from, position, members_at, name_at, push, mark, visit_member,
  visit_members, visit, visit_all, sanitize_alias_table,
}

-- A complaint of the program.
abbrev pub IsGenuine : Complaint → Type 0
IsGenuine c = ¬ (c ≡ out_of_fuel)

-- How many of the numbers below `n` are not in `seen`.
unseen : List ℕ → ℕ → ℕ
unseen seen zero = 0
unseen seen (suc n) = (if contains seen n then 0 else 1) + unseen seen n

unseen-nil : (n : ℕ) → unseen [] n ≤ n
unfolding unseen contains
unseen-nil zero = omega arith
unseen-nil (suc n) = let h = unseen-nil n in omega arith

unseen_outside : (seen : List ℕ) (p n : ℕ) → n ≤ p → unseen (p ∷ seen) n ≡ unseen seen n
unfolding unseen contains
unseen_outside seen p zero h = refl
unseen_outside seen p (suc n) h =
    let r = unseen_outside seen p n (omega arith) in
    let d : (p == n) ≡ false = ground arith in rw (d, r) refl

unseen_inside :
    (seen : List ℕ) (p n : ℕ)
    → p < n
    → contains seen p ≡ false
    → unseen (p ∷ seen) n + 1 ≡ unseen seen n
unfolding unseen contains
unseen_inside seen p zero l h = absurd (omega arith)
unseen_inside seen p (suc n) l h = elim (Bool-cases (p == n)) [
  | inl e ↦
      let k : p ≡ n = ground arith in
      let h' : contains seen n ≡ false = rw k at h in
      let r = unseen_outside seen p n (omega arith) in rw (e, h', r) (omega arith)
  | inr e ↦ let r = unseen_inside seen p n (ground arith) h in rw e (omega arith)
]

position_from-bound :
    {A : Type 0} (name : Text) (i : ℕ) (ds : List (Def A)) (j : ℕ)
    → position_from name i ds ≡ some j
    → j < i + length ds
unfolding position_from
position_from-bound name i [] j h = absurd (cc)
position_from-bound name i (d ∷ ds) j h = elim (Bool-cases (text_eq d.id name)) [
  | inl e ↦
      let k : some i ≡ some j = rw (e, position_from) at h in let k' : i ≡ j = cc in omega arith
  | inr e ↦
      let k = position_from-bound name (i + 1) ds j (rw (e, position_from) at h) in omega arith
]

All-snoc :
    (xs : List Complaint) (c : Complaint)
    → All IsGenuine xs
    → IsGenuine c
    → All IsGenuine (xs ++ c ∷ [])
All-snoc [] c h k = (k, tt)
All-snoc (x ∷ xs) c h k = (h.0, All-snoc xs c h.1 k)

module _ {A : Type 0} (table : List (Def A)) where
  abbrev left : Visitor → ℕ
  left v = unseen v.seen (length table)

  -- From `v` to `v'` no complaint of fuel was added, and no definition forgotten.
  record Calm (v v' : Visitor) : Type 0 where
    genuine : All IsGenuine v'.diagnostics
    bound : left v' ≤ left v

  Calm-complain :
      (c : Complaint) (v : Visitor)
      → All IsGenuine v.diagnostics
      → IsGenuine c
      → Calm v (complain c v)
  unfolding complain
  Calm-complain c v h k = record { genuine = All-snoc v.diagnostics c h k; bound = omega arith }

  Calm-self : (v : Visitor) → All IsGenuine v.diagnostics → Calm v v
  Calm-self v h = record { genuine = h; bound = omega arith }

  -- What a visit on the fuel `f` does.
  abbrev Calms : ℕ → (ℕ → Visitor → Visitor) → Type 0
  Calms f g =
      (pos : ℕ) (v : Visitor)
      → pos < length table
      → left v < f
      → All IsGenuine v.diagnostics
      → Calm v (g pos v)

  module _ (f : ℕ) (g : ℕ → Visitor → Visitor) (calms : Calms f g) where
    visit_member-Calm :
        (m : Meta A) (v : Visitor)
        → left v < f
        → All IsGenuine v.diagnostics
        → Calm v (visit_member table g m v)
    unfolding visit_member
    visit_member-Calm all v l h = Calm-self v h
    visit_member-Calm (only x) v l h = Calm-self v h
    visit_member-Calm (alias n) v l h = elim (Option-cases (position n table)) [
      | inl e ↦ rw (e, visit_member) (Calm-complain (undefined_alias n) v h (λ k. cc))
      | inr (j, e) ↦
          let b = position_from-bound n 0 table j e in
          rw (e, visit_member) (calms j v (omega arith) l h)
    ]

    visit_members-Calm :
        (ms : SpecList A) (v : Visitor)
        → left v < f
        → All IsGenuine v.diagnostics
        → Calm v (visit_members table g ms v)
    unfolding visit_members
    visit_members-Calm [] v l h = Calm-self v h
    visit_members-Calm (s ∷ ms) v l h =
        let c = visit_member-Calm (remqualify s) v l h in
        let v₁ = visit_member table g (remqualify s) v in
        let k = c.bound in
        let d = visit_members-Calm ms v₁ (omega arith) c.genuine in
        let e = d.bound in record { genuine = d.genuine; bound = omega arith }

  visit-Calm : (f : ℕ) → Calms f (visit table f)
  unfolding visit push mark
  visit-Calm zero pos v p l h = absurd (omega arith)
  visit-Calm (suc f) pos v p l h = elim (Bool-cases (contains v.seen pos)) [
    | inl e ↦ elim (Bool-cases (contains v.order pos)) [
      | inl e₂ ↦ rw (e, e₂, visit) (Calm-self v h)
      | inr e₂ ↦
          rw (e, e₂, visit) (Calm-complain (recursive_alias (name_at table pos)) v h (λ k. cc))
    ]
    | inr e ↦
        let u = unseen_inside v.seen pos (length table) p e in
        let c =
          visit_members-Calm f (visit table f) (visit-Calm f) (members_at table pos) (mark pos v)
            (omega arith) h in
        let b = c.bound in rw (e, visit) (record { genuine = c.genuine; bound = omega arith })
  ]

  visit_all-IsGenuine :
      (i : ℕ) (dupe : List Text) (ds : List (Def A)) (v : Visitor)
      → i + length ds ≡ length table
      → left v < length table + 1
      → All IsGenuine v.diagnostics
      → All IsGenuine (visit_all table i dupe ds v).diagnostics
  unfolding visit_all
  visit_all-IsGenuine i dupe [] v n l h = h
  visit_all-IsGenuine i dupe (d ∷ ds) v n l h = elim (Bool-cases (any (λ x. text_eq x d.id) dupe)) [
    | inl e ↦
        let c = Calm-complain (multiple_occurrences d.id) v h (λ k. cc) in
        let b = c.bound in
        rw (e, visit_all)
          (visit_all-IsGenuine (i + 1) (d.id ∷ dupe) ds _ (omega arith) (omega arith) c.genuine)
    | inr e ↦
        let c = visit-Calm (length table + 1) i v (omega arith) l h in
        let b = c.bound in
        rw (e, visit_all)
          (visit_all-IsGenuine (i + 1) (d.id ∷ dupe) ds _ (omega arith) (omega arith) c.genuine)
  ]

  -- The sort of an alias table never runs out of fuel: all its complaints are the program's.
  pub sanitize_alias_table-IsGenuine : All IsGenuine (sanitize_alias_table table).1
  unfolding sanitize_alias_table
  sanitize_alias_table-IsGenuine =
      let b = unseen-nil (length table) in
      visit_all-IsGenuine 0 [] table (record { seen = []; order = []; diagnostics = [] })
        (omega arith) (omega arith) tt
