-- ===== src/Sudoers/Analyze/Ends.antt =====
-- `process` of src/sudoers/mod.rs: what the lines that include nothing do to the state.
use sudo_rs.Prelude.{ℕ, ◌≤◌, Option, some, List, [], ◌∷◌}
use sudo_rs.Prelude.{◌++◌, ◌≡◌, refl, sym, arith}
use mathlib.Core.Path.{subst}
use sudo_rs.Prelude.Lists.{All}
use sudo_rs.Prelude.Text.{Text}
use sudo_rs.Sudoers.Ast.{
  Span, SpecList, SimpleCommand, SettingsModifier, ConfigScope, PermissionSpec, Directive,
  user_alias, host_alias, cmnd_alias, runas_alias, defaults,
}
use sudo_rs.Sudoers.Rules.{Sudoers, Customiser, CustomiserTable}
use sudo_rs.Sudoers.Analyze.{
  State, Message, ignored_tag, report, add_ignored, add_permission, add_defaults, declare_directive,
}

-- Scopes that `match_scope` answers for.
abbrev pub IsAnswered : ConfigScope → Type 0
IsAnswered scope = (specs : SpecList SimpleCommand) → ¬ (scope ≡ ConfigScope.command specs)

abbrev pub AreAnswered : List (Customiser ConfigScope) → Type 0
AreAnswered = All (λ (c : Customiser ConfigScope). IsAnswered c.0)

abbrev pub IsGood : State → Type 0
IsGood st = (st.include_state ≤ 128) × AreAnswered st.cfg.customisers.non_cmnd

abbrev pub Ends : ℕ → Option State → Type 0
Ends n r = (st' : State) × (r ≡ some st') × (n ≤ st'.include_state) × IsGood st'

pub Ends-now : (st : State) → IsGood st → Ends st.include_state (some st)
Ends-now st g = (st, refl, omega arith, g)

module _ {κ} {A : Type 0} (P : A → Type κ) where
  pub All-snoc : (xs : List A) {x : A} → All P xs → P x → All P (xs ++ x ∷ [])
  All-snoc [] h p = (p, tt)
  All-snoc (y ∷ xs) (q, h) p = (q, All-snoc xs h p)

pub add_ignored-State :
    (cur : Text) (spans : List Span) (st : State)
    → (add_ignored cur spans st).include_state ≡ st.include_state
      × ((add_ignored cur spans st).cfg ≡ st.cfg)
unfolding add_ignored report
add_ignored-State cur [] st = (refl, refl)
add_ignored-State cur (s ∷ spans) st = add_ignored-State cur spans (report cur s ignored_tag st)

pub add_defaults-AreAnswered :
    (params : List SettingsModifier) (scope : ConfigScope) (t : CustomiserTable)
    → AreAnswered t.non_cmnd
    → AreAnswered (add_defaults params scope t).non_cmnd
unfolding add_defaults
add_defaults-AreAnswered params ConfigScope.generic t h = All-snoc _ t.non_cmnd h (λ s e. cc)
add_defaults-AreAnswered params (ConfigScope.host l) t h = All-snoc _ t.non_cmnd h (λ s e. cc)
add_defaults-AreAnswered params (ConfigScope.user_scope l) t h = All-snoc _ t.non_cmnd h (λ s e. cc)
add_defaults-AreAnswered params (ConfigScope.run_as l) t h = All-snoc _ t.non_cmnd h (λ s e. cc)
add_defaults-AreAnswered params (ConfigScope.command l) t h = h

pub declare_directive-Ends :
    (d : Directive) (st : State) → IsGood st → Ends st.include_state (some (declare_directive d st))
unfolding declare_directive
declare_directive-Ends (user_alias x) st g = Ends-now (declare_directive (user_alias x) st) g
declare_directive-Ends (host_alias x) st g = Ends-now (declare_directive (host_alias x) st) g
declare_directive-Ends (cmnd_alias x) st g = Ends-now (declare_directive (cmnd_alias x) st) g
declare_directive-Ends (runas_alias x) st g = Ends-now (declare_directive (runas_alias x) st) g
declare_directive-Ends (defaults params scope) st (b, g) =
    Ends-now (declare_directive (defaults params scope) st)
      (b, add_defaults-AreAnswered params scope st.cfg.customisers g)

pub add_permission-Ends :
    (p : PermissionSpec) (cur : Text) (spans : List Span) (st : State)
    → IsGood st
    → Ends st.include_state (some (add_permission p (add_ignored cur spans st)))
unfolding add_permission
add_permission-Ends p cur spans st (b, g) =
    let (e, c) = add_ignored-State cur spans st in
    (
      add_permission p (add_ignored cur spans st),
      refl,
      omega arith,
      (omega arith, subst (λ (k : Sudoers). AreAnswered k.customisers.non_cmnd) (sym c) g),
    )

pub report-Ends :
    (cur : Text) (span : Span) (m : Message) (st : State)
    → IsGood st
    → Ends st.include_state (some (report cur span m st))
unfolding report
report-Ends cur span m st g = Ends-now (report cur span m st) g
