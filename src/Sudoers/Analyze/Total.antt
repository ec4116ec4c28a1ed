-- ===== src/Sudoers/Analyze/Total.antt =====
-- Whether `analyze` of src/sudoers/mod.rs ends, on nested includes too.
use sudo_rs.Prelude.{ℕ, zero, suc, ◌+◌, ◌≤◌, ◌<◌, Option, some, List, [], ◌∷◌}
use sudo_rs.Prelude.{◌≡◌, refl, ◌⊎◌, inl, inr, none, arith}
use sudo_rs.Prelude.Tests.{leb, Bool-cases, Option-cases, ◌>>=◌}
use sudo_rs.Prelude.Lists.{Any, here, there}
use sudo_rs.Prelude.Text.{Text}
use sudo_rs.Sudoers.Ast.{Span, Sudo}
use sudo_rs.Sudoers.Rules.{Sudoers}
use sudo_rs.Sudoers.Analyze.{
  Files, State, Parsed, line, fatal, reject, OpenResult, opened, not_found, failed, Error,
  get_ignored_tags, resolve_relative, safe_files, has_host_escape, open_include, include,
  include_all, include_dir, process_item, process_items, process, sanitize, start, analyze,
}
use sudo_rs.Sudoers.Analyze.Ends.{
  AreAnswered, IsGood, Ends, Ends-now, add_permission-Ends, declare_directive-Ends, report-Ends,
}
use sudo_rs.Sudoers.Analyze.Culprits.{
  by_include, by_include_dir, Reads, first, included, rejected, no_parent, no_parent_dir, Culprit,
  resolve_relative-none,
}

module _ (files : Files) where
  module _ (path : Text) (items : List Parsed) where
    -- It ends, or there is a line to blame.
    abbrev Outcome : ℕ → Option State → Type 0
    Outcome n r = Ends n r ⊎ ((r ≡ none) × Culprit files path items)

    -- Where a file is opened, it is one that is read.
    abbrev Leads : Text → Type 0
    Leads p = (its : List Parsed) → files.open_sudoers p ≡ opened its → Reads files path items p its

    -- What the recursive call of `process` does from a state with a counter of at least `n`.
    abbrev Runs : ℕ → (Text → List Parsed → State → Option State) → Type 0
    Runs n run =
        (cur : Text) (its : List Parsed) (st : State)
        → Reads files path items cur its
        → IsGood st
        → n ≤ st.include_state
        → Outcome st.include_state (run cur its st)

    module _ (n : ℕ) (run : Text → List Parsed → State → Option State)
        (runs : Runs (suc n) run) where
      open_include-Outcome :
          (p parent : Text) (span : Span) (st : State)
          → Leads p
          → IsGood st
          → st.include_state < 128
          → n ≤ st.include_state
          → Outcome st.include_state (open_include files run p parent span st)
      unfolding open_include
      open_include-Outcome p parent span st r (b, g) l m = go (files.open_sudoers p) refl
        where
          up : State
          up = record st { include_state = st.include_state + 1 }

          weaken : {r : Option State} → Ends (st.include_state + 1) r → Ends st.include_state r
          weaken (s, e, k, h) = (s, e, omega arith, h)

          weaken_outcome :
              {r : Option State} → Outcome (st.include_state + 1) r → Outcome st.include_state r
          weaken_outcome (inl k) = inl (weaken k)
          weaken_outcome (inr k) = inr k

          go :
              (o : OpenResult)
              → files.open_sudoers p ≡ o
              → Outcome st.include_state (open_include files run p parent span st)
          go (opened its) e =
              rw (e, open_include)
                (weaken_outcome (runs p its up (r its e) (omega arith, g) (omega arith)))
          go not_found e =
              rw (e, open_include) (inl (weaken (report-Ends parent span _ up (omega arith, g))))
          go (failed x) e =
              rw (e, open_include) (inl (weaken (report-Ends parent span _ up (omega arith, g))))

      include-Outcome :
          (p parent : Text) (span : Span) (st : State)
          → Leads p
          → IsGood st
          → n ≤ st.include_state
          → Outcome st.include_state (include files run p parent span st)
      unfolding include
      include-Outcome p parent span st r g m = elim (Bool-cases (leb 128 st.include_state)) [
        | inl e ↦ rw (e, include) (inl (report-Ends parent span _ st g))
        | inr e ↦ rw (e, include) (open_include-Outcome p parent span st r g (ground arith) m)
      ]

      Outcome-then :
          {k : State → Option State} (i : ℕ) (r : Option State)
          → n ≤ i
          → Outcome i r
          → ((st : State) → IsGood st → n ≤ st.include_state → Outcome st.include_state (k st))
          → Outcome i (r >>= k)
      Outcome-then {k} i r m (inr (e, c)) f = rw e (inr (refl, c))
      Outcome-then {k} i r m (inl (st, e, l, g)) f = elim (f st g (omega arith)) [
        | inl (st', e', l', g') ↦ rw e (inl (st', e', omega arith, g'))
        | inr (e', c) ↦ rw e (inr (e', c))
      ]

      include_all-Outcome :
          (parent : Text) (span : Span) (ps : List Text) (st : State)
          → ((p : Text) → Any (λ x. x ≡ p) ps → Leads p)
          → IsGood st
          → n ≤ st.include_state
          → Outcome st.include_state (include_all files run parent span ps st)
      unfolding include_all
      include_all-Outcome parent span [] st r g m = inl (Ends-now st g)
      include_all-Outcome parent span (p ∷ ps) st r g m =
          Outcome-then st.include_state (include files run p parent span st) m
            (include-Outcome p parent span st (r p (here refl)) g m)
            (λ st' g' m'. include_all-Outcome parent span ps st' (λ q a. r q (there a)) g' m')

      module _ (cur : Text) (its : List Parsed) (reads : Reads files path items cur its) where
        abbrev Holds : Parsed → Type 0
        Holds item = Any (λ x. x ≡ item) its

        include_dir-Outcome :
            (q : Text) (span : Span) (st : State)
            → Holds (line (Sudo.include_dir q span))
            → IsGood st
            → n ≤ st.include_state
            → Outcome st.include_state (include_dir files run cur q span st)
        unfolding include_dir
        include_dir-Outcome q span st h g m = elim (Bool-cases (has_host_escape q)) [
          | inl e ↦ rw (e, include_dir) (inl (report-Ends cur span _ st g))
          | inr e ↦ elim (Option-cases (resolve_relative files cur q)) [
            | inl k ↦
                let (rel, orphan) = resolve_relative-none files cur q k in
                rw (e, k, include_dir)
                  (inr (refl, (cur, its, _, reads, h, no_parent_dir rel orphan)))
            | inr (dir, k) ↦ elim (Option-cases (files.read_dir dir)) [
              | inl e₂ ↦ rw (e, k, e₂, include_dir) (inl (report-Ends cur span _ st g))
              | inr (entries, e₂) ↦
                  rw (e, k, e₂, include_dir)
                    (include_all-Outcome cur span (files.sort (safe_files files entries)) st
                      (λ p a its' o. included reads h (by_include_dir k e₂ a) o) g m)
            ]
          ]
        ]

        process_item-Outcome :
            (item : Parsed) (st : State)
            → Holds item
            → IsGood st
            → n ≤ st.include_state
            → Outcome st.include_state (process_item files run cur item st)
        unfolding process_item
        process_item-Outcome (line Sudo.line_comment) st h g m = inl (Ends-now st g)
        process_item-Outcome (line (Sudo.spec s)) st h g m =
            inl (add_permission-Ends s cur (get_ignored_tags s) st g)
        process_item-Outcome (line (Sudo.decl d)) st h g m = inl (declare_directive-Ends d st g)
        process_item-Outcome (line (Sudo.include q span)) st h g m =
            elim (Option-cases (resolve_relative files cur q)) [
              | inl k ↦
                  let (rel, orphan) = resolve_relative-none files cur q k in
                  rw (k, process_item) (inr (refl, (cur, its, _, reads, h, no_parent rel orphan)))
              | inr (p, k) ↦
                  rw (k, process_item)
                    (include-Outcome p cur span st (λ its' o. included reads h (by_include k) o) g
                      m)
            ]
        process_item-Outcome (line (Sudo.include_dir q span)) st h g m =
            include_dir-Outcome q span st h g m
        process_item-Outcome (fatal span x) st h g m = inl (report-Ends cur span _ st g)
        process_item-Outcome reject st h g m = inr (refl, (cur, its, reject, reads, h, rejected))

        process_items-Outcome :
            (rest : List Parsed) (st : State)
            → ((item : Parsed) → Any (λ x. x ≡ item) rest → Holds item)
            → IsGood st
            → n ≤ st.include_state
            → Outcome st.include_state (process_items files run cur rest st)
        unfolding process_items
        process_items-Outcome [] st h g m = inl (Ends-now st g)
        process_items-Outcome (i ∷ rest) st h g m =
            Outcome-then st.include_state (process_item files run cur i st) m
              (process_item-Outcome i st (h i (here refl)) g m)
              (λ st' g' m'. process_items-Outcome rest st' (λ k a. h k (there a)) g' m')

    process-Outcome : (f n : ℕ) → 128 < f + n → Runs n (process files f)
    unfolding process
    process-Outcome zero n h cur its st r (b, g) m = absurd (omega arith)
    process-Outcome (suc f) n h cur its st r g m =
        process_items-Outcome n (process files f) (process-Outcome f (suc n) (omega arith)) cur its
          r its st (λ i a. a) g m

    -- The analysis of a sudoers file ends, whatever the files include, itself among them, and the
    -- settings with late binding that it collects have no scope for which `match_scope` would panic;
    -- or else it panics, and then a file that is read, the first one or one that a line of a file
    -- that is read includes, has a line to blame for it: one that was rejected without a fatal error,
    -- or a relative include where the path of the file has no parent.
    pub analyze_total :
        ((r : Sudoers × List Error) × (analyze files path items ≡ some r)
          × AreAnswered r.0.customisers.non_cmnd)
        ⊎ ((analyze files path items ≡ none) × Culprit files path items)
    unfolding analyze sanitize
    analyze_total =
        elim (process-Outcome 129 0 (omega arith) path items start first (omega arith, tt)
          (omega arith)) [
            | inl (st, e, l, g) ↦ inl (sanitize st, rw (e, analyze) refl, g.1)
            | inr (e, c) ↦ inr (rw (e, analyze) refl, c)
          ]
