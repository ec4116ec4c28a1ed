-- ===== src/Session/Record/Scope.antt =====
-- src/system/timestamp.rs: the derived equality of `RecordScope`, and `SessionRecord::matches`.
use sudo_rs.Prelude.{ℕ, Bool, true, ◌&&◌, arith}
use sudo_rs.Prelude.{◌≡◌, refl, ap, ◌∙◌}
use sudo_rs.Prelude.Tests.{◌==◌, ==_iff}
use sudo_rs.Prelude.Int.{ℤ, pos, negsuc, eqb_ℤ}
use sudo_rs.Session.Time.{SystemTime, time_eq}
use sudo_rs.Session.Record.{RecordScope, tty, ppid, scope_eq, matches}

pub eqb_ℤ→eq : (a b : ℤ) → eqb_ℤ a b ≡ true → a ≡ b
eqb_ℤ→eq (pos a) (pos b) h = ap pos ((==_iff a b).0 h)
eqb_ℤ→eq (pos a) (negsuc b) h = absurd (cc)
eqb_ℤ→eq (negsuc a) (pos b) h = absurd (cc)
eqb_ℤ→eq (negsuc a) (negsuc b) h = ap negsuc ((==_iff a b).0 h)

eqb_ℤ-refl : (a : ℤ) → eqb_ℤ a a ≡ true
eqb_ℤ-refl (pos a) = ground arith
eqb_ℤ-refl (negsuc a) = ground arith

both : (a b : Bool) → (a && b) ≡ true → (a ≡ true) × (b ≡ true)
both a b h = (ground arith, ground arith)

time_eq→eq : (a b : SystemTime) → time_eq a b ≡ true → a ≡ b
unfolding time_eq
time_eq→eq a b h =
    let (p, q) = both (eqb_ℤ a.secs b.secs) (eqb_ℤ a.nsecs b.nsecs) h in
    ap (λ k. record { secs = k; nsecs = a.nsecs }) (eqb_ℤ→eq a.secs b.secs p)
    ∙ ap (λ k. record { secs = b.secs; nsecs = k }) (eqb_ℤ→eq a.nsecs b.nsecs q)

pub scope_eq→eq : (a b : RecordScope) → scope_eq a b ≡ true → a ≡ b
unfolding scope_eq
scope_eq→eq (tty d s t) (tty d' s' t') h =
    let (p, h') = both (d == d') (eqb_ℤ s s' && time_eq t t') h in
    let (q, r) = both (eqb_ℤ s s') (time_eq t t') h' in
    ap (λ k. tty k s t) ((==_iff d d').0 p)
    ∙ ap (λ k. tty d' k t) (eqb_ℤ→eq s s' q)
    ∙ ap (tty d' s') (time_eq→eq t t' r)
scope_eq→eq (tty d s t) (ppid g' s' t') h = absurd (cc)
scope_eq→eq (ppid g s t) (tty d' s' t') h = absurd (cc)
scope_eq→eq (ppid g s t) (ppid g' s' t') h =
    let (p, h') = both (eqb_ℤ g g') (eqb_ℤ s s' && time_eq t t') h in
    let (q, r) = both (eqb_ℤ s s') (time_eq t t') h' in
    ap (λ k. ppid k s t) (eqb_ℤ→eq g g' p)
    ∙ ap (λ k. ppid g' k t) (eqb_ℤ→eq s s' q)
    ∙ ap (ppid g' s') (time_eq→eq t t' r)

pub scope_eq_refl : (a : RecordScope) → scope_eq a a ≡ true
unfolding scope_eq time_eq
scope_eq_refl (tty d s t) = ground (arith, eqb_ℤ-refl s, eqb_ℤ-refl t.secs, eqb_ℤ-refl t.nsecs)
scope_eq_refl (ppid g s t) =
    ground (arith, eqb_ℤ-refl g, eqb_ℤ-refl s, eqb_ℤ-refl t.secs, eqb_ℤ-refl t.nsecs)

pub matches_self :
    (scope : RecordScope) (auth_user : ℕ) (t : SystemTime) (b : Bool)
    → matches
        (record { scope = scope; auth_user = auth_user; timestamp = t; enabled = b })
        scope
        auth_user
      ≡ true
unfolding matches
matches_self scope auth_user t b =
    let u : (auth_user == auth_user) ≡ true = ground arith in rw (scope_eq_refl scope, u) refl
