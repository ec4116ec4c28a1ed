-- ===== src/Session/Refinement/Disable.antt =====
-- src/system/timestamp.rs: `SessionRecordFile::disable`.
use sudo_rs.Prelude.{ℕ, zero, suc, ◌+◌, ◌-◌, ◌<◌, Bool, true, false, List, [], ◌∷◌, ◌++◌, arith}
use sudo_rs.Prelude.{◌≡◌, refl, sym, ap, ◌∙◌, append_assoc, append-nil, inl, inr}
use sudo_rs.Prelude.Tests.{Bool-cases}
use sudo_rs.Prelude.Lists.{length, All, length-append}
use sudo_rs.Prelude.Text.{Text}
use sudo_rs.Session.Record.{RecordScope, SessionRecord, scope_eq}
use sudo_rs.Session.Record.Codec.{IsRecord}
use sudo_rs.Session.Store.{
  File, Outcome, returned, failed, seek, first_record_offset, Next, found, no_more, empty_record,
  next_record,
}
use sudo_rs.Session.Store.Layout.{
  header, frame, frames, file_bytes, next_record-found, next_record_end,
}
use sudo_rs.Session.Store.Scan.{header-length, records_fit}
use sudo_rs.Session.Store.Rewrite.{write_flag_lem, length-frame_with, length-frame_pos}
use sudo_rs.Session.Operations.{disable_record, disable_from, disable}
use sudo_rs.Session.Records.{disabled_one, disabled}
use sudo_rs.Session.Refinement.{Implements}

module _ (e : Bool) (scope : RecordScope) where
  length-disabled_one :
      (r : SessionRecord) → length (frame e (disabled_one scope r)) ≡ length (frame e r)
  unfolding disabled_one
  length-disabled_one r = elim (Bool-cases (scope_eq r.scope scope)) [
    | inl same ↦ rw (same, disabled_one) (length-frame_with e r r.timestamp false)
    | inr other ↦ rw (other, disabled_one) refl
  ]

  -- The record that the position is the end of is disabled if it has the scope.
  disable_record_lem :
      (A B : Text) (r : SessionRecord) (f : File)
      → f.bytes ≡ A ++ (frame e r ++ B)
      → f.position ≡ length A + length (frame e r)
      → disable_record e scope r f
        ≡ record { bytes = A ++ (frame e (disabled_one scope r) ++ B); position = f.position }
  unfolding disable_record disabled_one
  disable_record_lem A B r f b p = elim (Bool-cases (scope_eq r.scope scope)) [
    | inl same ↦
        let back : f.position - 1 + 1 ≡ f.position = omega (arith, length-frame_pos e r) in
        let w = write_flag_lem e A B r false (seek (f.position - 1) f) b (back ∙ p) in
        rw (same, disable_record, disabled_one)
          (w
            ∙ ap
                (λ k. record {
                  bytes = A ++ (frame e (record r { enabled = false }) ++ B);
                  position = k;
                })
                back)
    | inr other ↦
        rw (other, disable_record, disabled_one)
          (ap (λ k. record { bytes = k; position = f.position }) b)
  ]

  abbrev pub after_next : ℕ → File × Next → File × Outcome (Unit {0})
  after_next fuel x = elim x.1 [
    | empty_record ↦ (x.0, failed)
    | no_more ↦ (x.0, returned tt)
    | found r ↦ disable_from e fuel scope (disable_record e scope r x.0)
  ]

  pub disable_step :
      (fuel : ℕ) (f : File) (x : File × Next)
      → next_record e f ≡ x
      → disable_from e (suc fuel) scope f ≡ after_next fuel x
  unfolding disable_from
  disable_step fuel f x h = ap (after_next fuel) h

  disable_from_lem :
      (fuel : ℕ) (A : Text) (rs : List SessionRecord) (f : File)
      → f.bytes ≡ A ++ frames e rs
      → f.position ≡ length A
      → All IsRecord rs
      → length rs < fuel
      → ((disable_from e fuel scope f).0.bytes ≡ A ++ frames e (disabled scope rs))
        × ((disable_from e fuel scope f).1 ≡ returned tt)
  unfolding frames
  disable_from_lem zero A rs f b p v l = absurd (omega arith)
  disable_from_lem (suc fuel) A [] f b p v l =
      let q : f.position ≡ length f.bytes = p ∙ ap length (sym (b ∙ append-nil A)) in
      rw (disable_step fuel f _ (next_record_end e f q)) (b, refl)
  disable_from_lem (suc fuel) A (r ∷ rs) f b p v l =
      let f₁ = seek (f.position + length (frame e r)) f in
      let b₁ : f.bytes ≡ A ++ (frame e r ++ frames e rs) = b in
      let q₁ : f₁.position ≡ length A + length (frame e r) = ap (λ k. k + length (frame e r)) p in
      let w = disable_record_lem A (frames e rs) r f₁ b₁ q₁ in
      let F = frame e (disabled_one scope r) in
      let f₂ : File = record {
        bytes = A ++ (F ++ frames e rs);
        position = f.position + length (frame e r);
      } in
      let q₂ : f₂.position ≡ length (A ++ F) =
        omega (arith, length-append A F, length-disabled_one r) in
      let (rb, rr) =
        disable_from_lem fuel (A ++ F) rs f₂ (sym (append_assoc A F (frames e rs))) q₂ v.1
          (omega arith) in
      let s =
        disable_step fuel f _ (next_record-found e A (frames e rs) r f b₁ p v.0)
        ∙ ap (disable_from e fuel scope) w in
      rw s (rb ∙ append_assoc A F (frames e (disabled scope rs)), rr)

  pub disable-Implements :
      (rs : List SessionRecord) (f : File)
      → f.bytes ≡ file_bytes e rs
      → All IsRecord rs
      → Implements e (disable e scope f) (disabled scope rs, returned tt)
  unfolding disable file_bytes
  disable-Implements rs f b v =
      disable_from_lem (length f.bytes + 1) header rs (seek first_record_offset f) b
        (header-length e (λ _. true)) v (records_fit e (λ _. true) rs f b)
