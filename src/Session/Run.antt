-- ===== src/Session/Run.antt =====
-- src/system/timestamp.rs: the operations of several processes on one file, one after the other, as
-- the exclusive lock orders them, and those on the list of records.
pub mod Valid
pub mod Simulation
pub mod History
pub mod Total
use sudo_rs.Prelude.{ℕ, ◌^◌, ◌<◌, Bool, List, [], ◌∷◌}
use sudo_rs.Session.Time.{SystemTime, Duration}
use sudo_rs.Session.Time.Codec.{IsNormal}
use sudo_rs.Session.Record.{RecordScope, SessionRecord}
use sudo_rs.Session.Record.Codec.{IsScope}
use sudo_rs.Session.Store.{File, Outcome, returned, seek, reset, open_file}
use sudo_rs.Session.Operations.{TouchResult, CreateResult, touch, create, disable}
use sudo_rs.Session.Records.{touched, created_in, disabled}

-- The operations with the readings of the clock that they make.
pub data Operation : Type 0 where
  opening : Operation
  touching : SystemTime → SystemTime → Duration → RecordScope → ℕ → Operation
  creating : SystemTime → RecordScope → ℕ → Operation
  disabling : RecordScope → Operation
  resetting : Operation

pub data Reply : Type 0 where
  touch_reply : Outcome TouchResult → Reply
  create_reply : Outcome CreateResult → Reply
  disable_reply : Outcome (Unit {0}) → Reply
  done : Reply

-- A process opens the file at its start; the descriptors have one position in the model, since
-- each operation but `open_file` starts with a seek.
unfoldable pub perform : Bool → Operation → File → File × Reply
perform e opening f = (open_file (seek 0 f), done)
perform e (touching now new_time timeout scope auth_user) f =
    let (f', r) = touch e now new_time timeout scope auth_user f in (f', touch_reply r)
perform e (creating new_time scope auth_user) f =
    let (f', r) = create e new_time scope auth_user f in (f', create_reply r)
perform e (disabling scope) f = let (f', r) = disable e scope f in (f', disable_reply r)
perform e resetting f = (reset f, done)

unfoldable pub performed : Operation → List SessionRecord → List SessionRecord × Reply
performed opening rs = (rs, done)
performed (touching now new_time timeout scope auth_user) rs =
    let (rs', r) = touched now new_time timeout scope auth_user rs in (rs', touch_reply r)
performed (creating new_time scope auth_user) rs =
    let (rs', r) = created_in new_time scope auth_user rs in (rs', create_reply r)
performed (disabling scope) rs = (disabled scope rs, disable_reply (returned tt))
performed resetting rs = ([], done)

unfoldable pub run : Bool → List Operation → File → File × List Reply
run e [] f = (f, [])
run e (op ∷ ops) f =
    let (f₁, reply) = perform e op f in let (f₂, replies) = run e ops f₁ in (f₂, reply ∷ replies)

unfoldable pub runs : List Operation → List SessionRecord → List SessionRecord × List Reply
runs [] rs = (rs, [])
runs (op ∷ ops) rs =
    let (rs₁, reply) = performed op rs in
    let (rs₂, replies) = runs ops rs₁ in (rs₂, reply ∷ replies)

-- The clock gives times that `SystemTime::new` made, and the numbers fit their types.
abbrev pub IsOperation : Operation → Type 0
IsOperation opening = Unit
IsOperation (touching now new_time timeout scope auth_user) = IsNormal new_time
IsOperation (creating new_time scope auth_user) =
    IsNormal new_time × IsScope scope × (auth_user < 2 ^ 32)
IsOperation (disabling scope) = Unit
IsOperation resetting = Unit
