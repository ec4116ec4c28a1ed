-- ===== src/Session/Run/Simulation.antt =====
-- src/system/timestamp.rs: a sequence of operations on a file beside the same one on the list of
-- records.
use sudo_rs.Prelude.{Bool, List, [], ◌∷◌, ◌++◌}
use sudo_rs.Prelude.{◌≡◌, refl, sym, ap, ◌∙◌, append-nil}
use sudo_rs.Prelude.Lists.{All}
use sudo_rs.Session.Record.{SessionRecord}
use sudo_rs.Session.Record.Codec.{IsRecord}
use sudo_rs.Session.Store.{File, seek, open_file}
use sudo_rs.Session.Store.Layout.{header, frames, file_bytes}
use sudo_rs.Session.Store.Header.{init-blank, open_file_kept}
use sudo_rs.Session.Refinement.Touch.{touch-Implements}
use sudo_rs.Session.Refinement.Create.{create-Implements}
use sudo_rs.Session.Refinement.Disable.{disable-Implements}
use sudo_rs.Session.Run.{
  Operation, opening, touching, creating, disabling, resetting, touch_reply, create_reply,
  disable_reply, perform, performed, run, runs, IsOperation,
}
use sudo_rs.Session.Run.Valid.{performed-IsRecord}

-- The same reply, and a file that holds the list.
abbrev Agrees : {A : Type 0} → Bool → File × A → List SessionRecord × A → Type 0
Agrees e x y = (x.0.bytes ≡ file_bytes e y.0) × (x.1 ≡ y.1)

perform-Agrees :
    (e : Bool) (op : Operation) (rs : List SessionRecord) (f : File)
    → f.bytes ≡ file_bytes e rs
    → All IsRecord rs
    → Agrees e (perform e op f) (performed op rs)
unfolding perform performed file_bytes frames
perform-Agrees e opening rs f b v =
    let o : open_file (seek 0 f) ≡ record { bytes = header ++ frames e rs; position = 4 } =
      ap (λ k. open_file (record { bytes = k; position = 0 })) b ∙ open_file_kept (frames e rs) in
    (ap (λ k. k.bytes) o, refl)
perform-Agrees e (touching now new_time timeout scope auth_user) rs f b v =
    let (p, q) = touch-Implements e now new_time timeout scope auth_user rs f b v in
    (p, ap touch_reply q)
perform-Agrees e (creating new_time scope auth_user) rs f b v =
    let (p, q) = create-Implements e new_time scope auth_user rs f b v in (p, ap create_reply q)
perform-Agrees e (disabling scope) rs f b v =
    let (p, q) = disable-Implements e scope rs f b v in (p, ap disable_reply q)
perform-Agrees e resetting rs f b v =
    (ap (λ k. k.bytes) (init-blank 0 f) ∙ sym (append-nil header), refl)

-- On a file that holds a list of records whose numbers fit their types, any sequence of operations
-- gives the replies that it gives on the list, and the file holds the resulting list, whose numbers
-- fit their types again.
pub run_lem :
    (e : Bool) (ops : List Operation) (rs : List SessionRecord) (f : File)
    → f.bytes ≡ file_bytes e rs
    → All IsRecord rs
    → All IsOperation ops
    → Agrees e (run e ops f) (runs ops rs) × All IsRecord (runs ops rs).0
unfolding run runs
run_lem e [] rs f b v o = ((b, refl), v)
run_lem e (op ∷ ops) rs f b v o =
    let (p, q) = perform-Agrees e op rs f b v in
    let ((p', q'), w) =
      run_lem e ops (performed op rs).0 (perform e op f).0 p (performed-IsRecord op rs o.0 v) o.1 in
    (
      (p', ap (λ k. k ∷ (run e ops (perform e op f).0).1) q ∙ ap (λ k. (performed op rs).1 ∷ k) q'),
      w,
    )
