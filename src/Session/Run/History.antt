-- ===== src/Session/Run/History.antt =====
-- src/system/timestamp.rs: what the operations on a list of records leave true of its records.
use sudo_rs.Prelude.{ℕ, Bool, true, false, List, [], ◌∷◌, ◌++◌}
use sudo_rs.Prelude.{◌≡◌, ◌∙◌, inl, inr}
use mathlib.Core.Path.{subst}
use sudo_rs.Prelude.Tests.{Bool-cases, Option-cases}
use sudo_rs.Prelude.Lists.{All, All-append, All-append_both}
use sudo_rs.Session.Time.{SystemTime, Duration, checked_sub}
use sudo_rs.Session.Record.{RecordScope, SessionRecord, matches, scope_eq, written_between}
use sudo_rs.Session.Record.Scope.{matches_self}
use sudo_rs.Session.Records.{
  Rejected, absent, present, Divide-cases, chosen_by_touch, with_time, touched, created_in,
  disabled_one, disabled,
}
use sudo_rs.Session.Run.{
  Operation, opening, touching, creating, disabling, resetting, performed, runs,
}

-- A test on records that no operation makes true, but one that creates.
pub record IsStable (test : SessionRecord → Bool) : Type 0 where
  pub of_time : (r : SessionRecord) (t : SystemTime) → test (with_time t r) ≡ test r
  pub of_disabled :
      (r : SessionRecord) → test r ≡ false → test (record r { enabled = false }) ≡ false

-- What a creation has to be for the test to stay false.
abbrev pub Harmless : (SessionRecord → Bool) → Operation → Type 0
Harmless test (creating new_time scope auth_user) =
    (r : SessionRecord)
    → matches r scope auth_user ≡ true
    → test (record r { timestamp = new_time; enabled = true }) ≡ false
Harmless test opening = Unit
Harmless test (touching now new_time timeout scope auth_user) = Unit
Harmless test (disabling scope) = Unit
Harmless test resetting = Unit

replace-Rejected :
    (test : SessionRecord → Bool) (before : List SessionRecord) (r r' : SessionRecord)
    (after : List SessionRecord)
    → Rejected test (before ++ (r ∷ after))
    → test r' ≡ false
    → Rejected test (before ++ (r' ∷ after))
replace-Rejected test before r r' after v n =
    let P : SessionRecord → Type 0 = λ s. test s ≡ false in
    let (v₀, v₁) = All-append P before (r ∷ after) v in All-append_both P before _ v₀ (n, v₁.1)

module _ (test : SessionRecord → Bool) (stable : IsStable test) where
  touched-Rejected :
      (now new_time : SystemTime) (timeout : Duration) (scope : RecordScope) (auth_user : ℕ)
      (rs : List SessionRecord)
      → Rejected test rs
      → Rejected test (touched now new_time timeout scope auth_user rs).0
  unfolding touched
  touched-Rejected now new_time timeout scope auth_user rs v =
      elim (Divide-cases (chosen_by_touch scope auth_user) rs) [
        | absent s _ ↦ rw (s, touched) v
        | present before r after s q _ _ ↦ elim (Option-cases (checked_sub now timeout)) [
          | inl over ↦ rw (s, over, touched) v
          | inr (early, some_early) ↦ elim (Bool-cases (written_between r early now)) [
            | inl recent ↦
                let v' = subst (Rejected test) q v in
                let n = (All-append (λ s. test s ≡ false) before (r ∷ after) v').1.0 in
                rw (s, some_early, recent, touched)
                  (replace-Rejected test before r (with_time new_time r) after v'
                    (stable.of_time r new_time ∙ n))
            | inr old ↦ rw (s, some_early, old, touched) v
          ]
        ]
      ]

  created_in-Rejected :
      (new_time : SystemTime) (scope : RecordScope) (auth_user : ℕ) (rs : List SessionRecord)
      → Harmless test (creating new_time scope auth_user)
      → matches
          (record { scope = scope; auth_user = auth_user; timestamp = new_time; enabled = true })
          scope
          auth_user
        ≡ true
      → Rejected test rs
      → Rejected test (created_in new_time scope auth_user rs).0
  unfolding created_in
  created_in-Rejected new_time scope auth_user rs h m v =
      elim (Divide-cases (λ r. matches r scope auth_user) rs) [
        | absent a _ ↦ rw (a, created_in) (All-append_both (λ s. test s ≡ false) rs _ v (h _ m, tt))
        | present before r after p q _ y ↦
            rw (p, created_in)
              (replace-Rejected test before r _ after (subst (Rejected test) q v) (h r y))
      ]

  disabled-Rejected :
      (scope : RecordScope) (rs : List SessionRecord)
      → Rejected test rs
      → Rejected test (disabled scope rs)
  unfolding disabled_one
  disabled-Rejected scope [] v = tt
  disabled-Rejected scope (r ∷ rs) v =
      let one : test (disabled_one scope r) ≡ false = elim (Bool-cases (scope_eq r.scope scope)) [
        | inl same ↦ rw (same, disabled_one) (stable.of_disabled r v.0)
        | inr other ↦ rw (other, disabled_one) v.0
      ] in
      (one, disabled-Rejected scope rs v.1)

  performed-Rejected :
      (op : Operation) (rs : List SessionRecord)
      → Harmless test op
      → Rejected test rs
      → Rejected test (performed op rs).0
  unfolding performed
  performed-Rejected opening rs h v = v
  performed-Rejected (touching now new_time timeout scope auth_user) rs h v =
      touched-Rejected now new_time timeout scope auth_user rs v
  performed-Rejected (creating new_time scope auth_user) rs h v =
      created_in-Rejected new_time scope auth_user rs h (matches_self scope auth_user new_time true)
        v
  performed-Rejected (disabling scope) rs h v = disabled-Rejected scope rs v
  performed-Rejected resetting rs h v = tt

  -- A test that is false of all records stays so.
  pub runs-Rejected :
      (ops : List Operation) (rs : List SessionRecord)
      → All (Harmless test) ops
      → Rejected test rs
      → Rejected test (runs ops rs).0
  unfolding runs
  runs-Rejected [] rs h v = v
  runs-Rejected (op ∷ ops) rs h v =
      runs-Rejected ops (performed op rs).0 h.1 (performed-Rejected op rs h.0 v)
