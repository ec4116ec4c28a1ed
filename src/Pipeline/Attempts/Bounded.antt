-- ===== src/Pipeline/Attempts/Bounded.antt =====
-- src/sudo/pam.rs: how many attempts are made, and which one decides.
use sudo_rs.Prelude.{ℕ, zero, suc, ◌+◌, ◌<◌, Bool, false, arith}
use sudo_rs.Prelude.{◌≡◌, refl, sym, ◌≢◌, ◌⊎◌, inl, inr}
use mathlib.Core.Path.{subst}
use sudo_rs.Prelude.Tests.{◌==◌, leb, Bool-cases}
use sudo_rs.Prelude.Text.{Text}
use sudo_rs.Pam.{
  max_tries, auth_error, conversation_error, pam, PamResult, pam_ok, pam_failed, Library,
  authenticate,
}
use sudo_rs.Pipeline.Attempts.{
  AuthResult, success, Step, stop, again, after_error, after_attempt, attempt_from,
  attempt_authenticate, Retried, not_tried, retried,
}

Step-cases : (x : Step) → ((r : AuthResult) × (x ≡ stop r)) ⊎ (x ≡ again)
Step-cases (stop r) = inl (r, refl)
Step-cases again = inr refl

after_error-again : (b : Bool) (limit n : ℕ) → after_error b limit n ≡ again → n < limit
after_error-again b limit n h = elim (Bool-cases (leb limit n)) [
  | inl last ↦ absurd (cc (rw (last, after_error) at h))
  | inr more ↦ ground arith
]

after_attempt-again :
    (b : Bool) (limit n : ℕ) (r : PamResult (Unit {0}))
    → after_attempt b limit n r ≡ again
    → n < limit
after_attempt-again b limit n (pam_ok u) h = absurd (cc)
after_attempt-again b limit n (pam_failed (pam max_tries)) h = absurd (cc)
after_attempt-again b limit n (pam_failed (pam auth_error)) h = after_error-again b limit n h
after_attempt-again b limit n (pam_failed (pam conversation_error)) h =
    after_error-again b limit n h
after_attempt-again b limit n (pam_failed e) h = absurd (cc)

after_error-failure : (b : Bool) (limit n : ℕ) → after_error b limit n ≢ stop success
after_error-failure b limit n h = elim (Bool-cases (leb limit n)) [
  | inl last ↦ absurd (cc (rw (last, after_error) at h))
  | inr more ↦ ground arith
]

-- Only an attempt without an error is a success.
pub after_attempt-success :
    (b : Bool) (limit n : ℕ) (r : PamResult (Unit {0}))
    → after_attempt b limit n r ≡ stop success
    → r ≡ pam_ok tt
after_attempt-success b limit n (pam_ok u) h = refl
after_attempt-success b limit n (pam_failed (pam max_tries)) h = absurd (cc)
after_attempt-success b limit n (pam_failed (pam auth_error)) h =
    absurd (after_error-failure b limit n h)
after_attempt-success b limit n (pam_failed (pam conversation_error)) h =
    absurd (after_error-failure b limit n h)
after_attempt-success b limit n (pam_failed e) h = absurd (cc)

module _ {S : Type 0} (lib : Library S) (auth_user : Text) (non_interactive : Bool)
    (limit : ℕ) where
  -- One attempt decides, and fewer than the limit come before it.
  pub record Decided (start : S) (x : AuthResult × S) : Type 0 where
    pub attempts : ℕ
    pub last : S
    pub below : attempts < limit
    pub before : Retried lib auth_user non_interactive limit start attempts last
    pub result :
        after_attempt non_interactive limit (attempts + 1) (authenticate lib auth_user last).0
        ≡ stop x.0
    pub state : x.1 ≡ (authenticate lib auth_user last).1

  abbrev round : ℕ → ℕ → S → Step → AuthResult × S
  round fuel tries s' x = elim x [
    | stop r ↦ (r, s')
    | again ↦ attempt_from lib auth_user non_interactive limit fuel (tries + 1) s'
  ]

  attempt_from_lem :
      (fuel tries : ℕ) (start s : S)
      → tries + fuel ≡ limit
      → 0 < fuel
      → Retried lib auth_user non_interactive limit start tries s
      → Decided start (attempt_from lib auth_user non_interactive limit fuel tries s)
  unfolding attempt_from
  attempt_from_lem zero tries start s l p b = absurd (omega arith)
  attempt_from_lem (suc fuel) tries start s l p b =
      let a = authenticate lib auth_user s in
      let step = after_attempt non_interactive limit (tries + 1) a.0 in
      elim (Step-cases step) [
        | inl (r, e) ↦
            subst (λ k. Decided start (round fuel tries a.1 k)) (sym e)
              (record {
                attempts = tries;
                last = s;
                below = omega arith;
                before = b;
                result = e;
                state = refl;
              })
        | inr e ↦
            let more = after_attempt-again non_interactive limit (tries + 1) a.0 e in
            subst (λ k. Decided start (round fuel tries a.1 k)) (sym e)
              (attempt_from_lem fuel (tries + 1) start a.1 (omega arith) (omega arith)
                (retried b e))
      ]

  -- If an attempt is allowed, the loop ends: fewer attempts than allowed fail in a way after which
  -- one retries, and the result and the state are those of the next attempt.
  pub attempt_authenticate-Decided :
      (start : S)
      → 0 < limit
      → Decided start (attempt_authenticate lib auth_user non_interactive limit start)
  unfolding attempt_authenticate
  attempt_authenticate-Decided start p =
      let z : (limit == 0) ≡ false = ground arith in
      rw (z, attempt_authenticate) (attempt_from_lem limit 0 start start (omega arith) p not_tried)
