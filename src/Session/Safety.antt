-- ===== src/Session/Safety.antt =====
-- src/system/timestamp.rs: when `touch` finds a record, by the operations before it.
pub mod Found
use sudo_rs.Prelude.{
  ℕ, Bool, true, false, ◌&&◌, Option, none, some, List, [], ◌∷◌, ◌++◌, map, arith,
}
use sudo_rs.Prelude.{◌≡◌, refl, sym, ap, ◌∙◌, append-nil, inl, inr}
use mathlib.Core.Path.{subst}
use sudo_rs.Prelude.Tests.{if◌then◌else◌, ◌==◌, Bool-cases}
use sudo_rs.Prelude.Lists.{All, All-append}
use sudo_rs.Session.Time.{SystemTime, Duration}
use sudo_rs.Session.Record.{RecordScope, SessionRecord, scope_eq, matches}
use sudo_rs.Session.Record.Codec.{IsRecord}
use sudo_rs.Session.Record.Scope.{scope_eq→eq}
use sudo_rs.Session.Store.{File, returned, seek}
use sudo_rs.Session.Store.Layout.{header, frames, file_bytes}
use sudo_rs.Session.Store.Header.{init-blank}
use sudo_rs.Session.Operations.{not_found, touch}
use sudo_rs.Session.Records.{
  divide, absent, present, Divide-cases, Rejected, chosen_by_touch, touched, disabled_one, disabled,
}
use sudo_rs.Session.Refinement.Touch.{touch-Implements}
use sudo_rs.Session.Run.{
  Operation, opening, touching, creating, disabling, resetting, perform, run, runs, performed,
  IsOperation,
}
use sudo_rs.Session.Run.Simulation.{run_lem}
use sudo_rs.Session.Run.History.{IsStable, Harmless, runs-Rejected}

pub Rejected-map :
    (p q : SessionRecord → Bool)
    → ((r : SessionRecord) → p r ≡ false → q r ≡ false)
    → (rs : List SessionRecord) → Rejected p rs
    → Rejected q rs
Rejected-map p q f [] v = tt
Rejected-map p q f (r ∷ rs) v = (f r v.0, Rejected-map p q f rs v.1)

divide-Rejected :
    (choose : SessionRecord → Bool) (rs : List SessionRecord)
    → Rejected choose rs
    → divide choose rs ≡ none
divide-Rejected choose rs v = elim (Divide-cases choose rs) [
  | absent e _ ↦ e
  | present before r after e q _ y ↦
      let w =
        (All-append (λ s. choose s ≡ false) before (r ∷ after) (subst (Rejected choose) q v)).1.0 in
      absurd (cc)
]

-- A record of the scope that is enabled, and one of the scope and the user.
abbrev pub enabled_for : RecordScope → SessionRecord → Bool
enabled_for scope r = r.enabled && scope_eq r.scope scope

abbrev pub known_as : RecordScope → ℕ → SessionRecord → Bool
known_as scope auth_user r = matches r scope auth_user

enabled_for-IsStable : (scope : RecordScope) → IsStable (enabled_for scope)
enabled_for-IsStable scope = record { of_time = λ r t. refl; of_disabled = λ r n. refl }

known_as-IsStable : (scope : RecordScope) (auth_user : ℕ) → IsStable (known_as scope auth_user)
unfolding matches
known_as-IsStable scope auth_user = record { of_time = λ r t. refl; of_disabled = λ r n. n }

-- No creation for the scope, and none for the scope and the user.
abbrev pub CreatesOther : RecordScope → Operation → Type 0
CreatesOther scope (creating t s u) = scope_eq s scope ≡ false
CreatesOther scope opening = Unit
CreatesOther scope (touching now t timeout s u) = Unit
CreatesOther scope (disabling s) = Unit
CreatesOther scope resetting = Unit

abbrev pub CreatesNotFor : RecordScope → ℕ → Operation → Type 0
CreatesNotFor scope auth_user (creating t s u) = (scope_eq s scope && (u == auth_user)) ≡ false
CreatesNotFor scope auth_user opening = Unit
CreatesNotFor scope auth_user (touching now t timeout s u) = Unit
CreatesNotFor scope auth_user (disabling s) = Unit
CreatesNotFor scope auth_user resetting = Unit

CreatesOther-Harmless :
    (scope : RecordScope) (op : Operation) → CreatesOther scope op → Harmless (enabled_for scope) op
unfolding matches
CreatesOther-Harmless scope (creating t s u) h = λ r m.
    let same : r.scope ≡ s = scope_eq→eq r.scope s (ground arith) in
    ap (λ k. scope_eq k scope) same ∙ h
CreatesOther-Harmless scope opening h = tt
CreatesOther-Harmless scope (touching now t timeout s u) h = tt
CreatesOther-Harmless scope (disabling s) h = tt
CreatesOther-Harmless scope resetting h = tt

CreatesNotFor-Harmless :
    (scope : RecordScope) (auth_user : ℕ) (op : Operation)
    → CreatesNotFor scope auth_user op
    → Harmless (known_as scope auth_user) op
unfolding matches
CreatesNotFor-Harmless scope auth_user (creating t s u) h = λ r m.
    let same : r.scope ≡ s = scope_eq→eq r.scope s (ground arith) in
    let user : r.auth_user ≡ u = ground arith in
    ap (λ k. scope_eq k scope && (r.auth_user == auth_user)) same
    ∙ ap (λ k. scope_eq s scope && (k == auth_user)) user
    ∙ h
CreatesNotFor-Harmless scope auth_user opening h = tt
CreatesNotFor-Harmless scope auth_user (touching now t timeout s u) h = tt
CreatesNotFor-Harmless scope auth_user (disabling s) h = tt
CreatesNotFor-Harmless scope auth_user resetting h = tt

All-map :
    (P Q : Operation → Type 0)
    → ((op : Operation) → P op → Q op)
    → (ops : List Operation) → All P ops
    → All Q ops
All-map P Q f [] v = tt
All-map P Q f (op ∷ ops) v = (f op v.0, All-map P Q f ops v.1)

disabled-Rejected :
    (scope : RecordScope) (rs : List SessionRecord)
    → Rejected (enabled_for scope) (disabled scope rs)
unfolding disabled_one
disabled-Rejected scope [] = tt
disabled-Rejected scope (r ∷ rs) = (
  elim (Bool-cases (scope_eq r.scope scope)) [
    | inl same ↦ rw (same, disabled_one) refl
    | inr other ↦ rw (other, disabled_one) (ground arith)
  ],
  disabled-Rejected scope rs,
)

module _ (e : Bool) (now new_time : SystemTime) (timeout : Duration) (scope : RecordScope)
    (auth_user : ℕ) where
  touch_none :
      (rs : List SessionRecord) (f : File)
      → f.bytes ≡ file_bytes e rs
      → All IsRecord rs
      → Rejected (chosen_by_touch scope auth_user) rs
      → (touch e now new_time timeout scope auth_user f).1 ≡ returned not_found
  unfolding touched
  touch_none rs f b v n =
      let (_, q) = touch-Implements e now new_time timeout scope auth_user rs f b v in
      q ∙ rw (divide-Rejected (chosen_by_touch scope auth_user) rs n, touched) refl

  -- On a file that holds a list of records, after `disable` of a scope and any operations of which
  -- none creates a record for the scope, `touch` finds no record for the scope, whoever the user.
  pub touch-run_disabled :
      (ops : List Operation) (rs : List SessionRecord) (f : File)
      → f.bytes ≡ file_bytes e rs
      → All IsRecord rs
      → All IsOperation ops
      → All (CreatesOther scope) ops
      → (touch e now new_time timeout scope auth_user (run e (disabling scope ∷ ops) f).0).1
        ≡ returned not_found
  unfolding runs performed matches
  touch-run_disabled ops rs f b v o c =
      let ((p, _), w) = run_lem e (disabling scope ∷ ops) rs f b v (tt, o) in
      let n =
        runs-Rejected (enabled_for scope) (enabled_for-IsStable scope) ops (disabled scope rs)
          (All-map _ _ (CreatesOther-Harmless scope) ops c) (disabled-Rejected scope rs) in
      touch_none (runs (disabling scope ∷ ops) rs).0 (run e (disabling scope ∷ ops) f).0 p w (
        Rejected-map (enabled_for scope) (chosen_by_touch scope auth_user) (λ r h. ground arith)
          (runs ops (disabled scope rs)).0 n)

  -- On a file after a reset, whatever operations follow, `touch` finds no record if none of them
  -- creates one for the scope and the user.
  pub touch-run_reset :
      (ops : List Operation) (f : File)
      → All IsOperation ops
      → All (CreatesNotFor scope auth_user) ops
      → (touch e now new_time timeout scope auth_user (run e (resetting ∷ ops) f).0).1
        ≡ returned not_found
  unfolding run perform file_bytes frames matches
  touch-run_reset ops f o c =
      let z : (perform e resetting f).0.bytes ≡ file_bytes e [] =
        ap (λ k. k.bytes) (init-blank 0 f) ∙ sym (append-nil header) in
      let ((p, _), w) = run_lem e ops [] (perform e resetting f).0 z tt o in
      let n =
        runs-Rejected (known_as scope auth_user) (known_as-IsStable scope auth_user) ops []
          (All-map _ _ (CreatesNotFor-Harmless scope auth_user) ops c) tt in
      touch_none (runs ops []).0 (run e ops (perform e resetting f).0).0 p w (
        Rejected-map (known_as scope auth_user) (chosen_by_touch scope auth_user)
          (λ r h. ground arith) (runs ops []).0 n)
