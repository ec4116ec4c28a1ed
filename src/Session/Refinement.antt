-- ===== src/Session/Refinement.antt =====
-- src/system/timestamp.rs: the operations on a file of session records beside those on the list of
-- records that it holds.
pub mod Touch
pub mod Create
pub mod Disable
use sudo_rs.Prelude.{Bool, List, ◌≡◌}
use sudo_rs.Session.Record.{SessionRecord}
use sudo_rs.Session.Store.{File, Outcome}
use sudo_rs.Session.Store.Layout.{file_bytes}

-- An operation on a file ends with the same result as one on lists, and its file holds that list.
abbrev pub Implements :
    {A : Type 0} → Bool → File × Outcome A → List SessionRecord × Outcome A → Type 0
Implements e x y = (x.0.bytes ≡ file_bytes e y.0) × (x.1 ≡ y.1)
