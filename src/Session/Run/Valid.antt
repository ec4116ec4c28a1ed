-- ===== src/Session/Run/Valid.antt =====
-- src/system/timestamp.rs: the numbers of the records that an operation leaves.
use sudo_rs.Prelude.{ℕ, Bool, true, List, [], ◌∷◌, ◌++◌}
use sudo_rs.Prelude.{inl, inr}
use mathlib.Core.Path.{subst}
use sudo_rs.Prelude.Tests.{Bool-cases, Option-cases}
use sudo_rs.Prelude.Lists.{All, All-append, All-append_both}
use sudo_rs.Session.Time.{SystemTime, Duration, checked_sub}
use sudo_rs.Session.Time.Codec.{IsNormal}
use sudo_rs.Session.Record.{RecordScope, SessionRecord, matches, scope_eq, written_between}
use sudo_rs.Session.Record.Codec.{IsRecord}
use sudo_rs.Session.Records.{
  absent, present, Divide-cases, chosen_by_touch, touched, created_in, disabled_one, disabled,
}
use sudo_rs.Session.Run.{
  Operation, opening, touching, creating, disabling, resetting, performed, IsOperation,
}

replaced-IsRecord :
    (before : List SessionRecord) (r : SessionRecord) (after : List SessionRecord) (t : SystemTime)
    (b : Bool)
    → All IsRecord (before ++ (r ∷ after))
    → IsNormal t
    → All IsRecord (before ++ (record r { timestamp = t; enabled = b } ∷ after))
replaced-IsRecord before r after t b v n =
    let (v₀, v₁) = All-append IsRecord before (r ∷ after) v in
    let w : IsRecord (record r { timestamp = t; enabled = b }) = record {
      scope = v₁.0.scope;
      auth_user = v₁.0.auth_user;
      timestamp = n;
    } in
    All-append_both IsRecord before _ v₀ (w, v₁.1)

touched-IsRecord :
    (now new_time : SystemTime) (timeout : Duration) (scope : RecordScope) (auth_user : ℕ)
    (rs : List SessionRecord)
    → IsNormal new_time
    → All IsRecord rs
    → All IsRecord (touched now new_time timeout scope auth_user rs).0
unfolding touched
touched-IsRecord now new_time timeout scope auth_user rs n v =
    elim (Divide-cases (chosen_by_touch scope auth_user) rs) [
      | absent s _ ↦ rw (s, touched) v
      | present before r after s q _ _ ↦ elim (Option-cases (checked_sub now timeout)) [
        | inl over ↦ rw (s, over, touched) v
        | inr (early, some_early) ↦ elim (Bool-cases (written_between r early now)) [
          | inl recent ↦
              rw (s, some_early, recent, touched)
                (replaced-IsRecord before r after new_time r.enabled (subst (All IsRecord) q v) n)
          | inr old ↦ rw (s, some_early, old, touched) v
        ]
      ]
    ]

created_in-IsRecord :
    (new_time : SystemTime) (scope : RecordScope) (auth_user : ℕ) (rs : List SessionRecord)
    → IsOperation (creating new_time scope auth_user)
    → All IsRecord rs
    → All IsRecord (created_in new_time scope auth_user rs).0
unfolding created_in
created_in-IsRecord new_time scope auth_user rs (n, s, u) v =
    elim (Divide-cases (λ r. matches r scope auth_user) rs) [
      | absent a _ ↦
          rw (a, created_in)
            (All-append_both IsRecord rs _ v
              (record { scope = s; auth_user = u; timestamp = n }, tt))
      | present before r after p q _ _ ↦
          rw (p, created_in)
            (replaced-IsRecord before r after new_time true (subst (All IsRecord) q v) n)
    ]

disabled-IsRecord :
    (scope : RecordScope) (rs : List SessionRecord)
    → All IsRecord rs
    → All IsRecord (disabled scope rs)
unfolding disabled_one
disabled-IsRecord scope [] v = tt
disabled-IsRecord scope (r ∷ rs) v =
    let one : IsRecord (disabled_one scope r) = elim (Bool-cases (scope_eq r.scope scope)) [
      | inl same ↦
          rw (same, disabled_one)
            (record { scope = v.0.scope; auth_user = v.0.auth_user; timestamp = v.0.timestamp })
      | inr other ↦ rw (other, disabled_one) v.0
    ] in
    (one, disabled-IsRecord scope rs v.1)

pub performed-IsRecord :
    (op : Operation) (rs : List SessionRecord)
    → IsOperation op
    → All IsRecord rs
    → All IsRecord (performed op rs).0
unfolding performed
performed-IsRecord opening rs n v = v
performed-IsRecord (touching now new_time timeout scope auth_user) rs n v =
    touched-IsRecord now new_time timeout scope auth_user rs n v
performed-IsRecord (creating new_time scope auth_user) rs n v =
    created_in-IsRecord new_time scope auth_user rs n v
performed-IsRecord (disabling scope) rs n v = disabled-IsRecord scope rs v
performed-IsRecord resetting rs n v = tt
