-- ===== src/Session/Operations.antt =====
-- src/system/timestamp.rs: `touch`, `create` and `disable` of `SessionRecordFile`.
use sudo_rs.Prelude.{ℕ, zero, suc, ◌+◌, ◌-◌, ◌^◌, Bool, true, false, ◌&&◌, none, some}
use sudo_rs.Prelude.Tests.{if◌then◌else◌, ltb}
use sudo_rs.Prelude.Lists.{length}
use sudo_rs.Prelude.Bytes.{to_le_bytes}
use sudo_rs.Session.Time.{SystemTime, Duration, checked_sub, encode_time}
use sudo_rs.Session.Record.{
  RecordScope, SessionRecord, scope_eq, matches, written_between, write_bool, encode_record,
}
use sudo_rs.Session.Store.{
  File, Outcome, returned, failed, panicked, out_of_fuel, seek, write_all, first_record_offset,
  size_of_bool, mod_offset, found, no_more, empty_record, next_record, scan_file,
}

pub data TouchResult : Type 0 where
  updated : SystemTime → SystemTime → TouchResult
  outdated : SystemTime → TouchResult
  not_found : TouchResult

pub data CreateResult : Type 0 where
  refreshed : SystemTime → SystemTime → CreateResult
  created : SystemTime → CreateResult

module _ (big_endian : Bool) where
  -- The chosen record's time is overwritten; the position is the end of the record again.
  unfoldable pub overwrite_time : SystemTime → File → File
  overwrite_time new_time f =
      write_all (encode_time big_endian new_time) (seek (f.position - mod_offset) f)

  -- The branch of `touch` for the record that it finds; `now` and `new_time` are the two readings of
  -- the clock.
  unfoldable pub touch_found :
      SystemTime → SystemTime → Duration → File → SessionRecord → File × Outcome TouchResult
  touch_found now new_time timeout f r = elim (checked_sub now timeout) [
    | none ↦ (f, panicked)
    | some early ↦
        if written_between r early now
        then (let f₁ = overwrite_time new_time f in
            (seek (f₁.position + size_of_bool) f₁, returned (updated r.timestamp new_time)))
        else (f, returned (outdated r.timestamp))
  ]

  unfoldable pub touch :
      SystemTime → SystemTime → Duration → RecordScope → ℕ → File → File × Outcome TouchResult
  touch now new_time timeout scope auth_user f =
      let (f', found_record) =
        scan_file big_endian (λ r. r.enabled && matches r scope auth_user) f in
      elim found_record [
        | returned none ↦ (f', returned not_found)
        | returned (some r) ↦ touch_found now new_time timeout f' r
        | failed ↦ (f', failed)
        | panicked ↦ (f', panicked)
        | out_of_fuel ↦ (f', out_of_fuel)
      ]

  unfoldable pub write_record : SessionRecord → File → File × Outcome (Unit {0})
  write_record r f =
      let bytes = encode_record big_endian r in
      if ltb (2 ^ 16 - 1) (length bytes)
      then (f, failed)
      else (write_all bytes (write_all (to_le_bytes 2 (length bytes)) f), returned tt)

  unfoldable pub create_new : SystemTime → RecordScope → ℕ → File → File × Outcome CreateResult
  create_new new_time scope auth_user f =
      let r : SessionRecord = record {
        scope = scope;
        auth_user = auth_user;
        timestamp = new_time;
        enabled = true;
      } in
      let (f', written) = write_record r (seek (length f.bytes) f) in
      elim written [
        | returned _ ↦ (f', returned (created new_time))
        | failed ↦ (f', failed)
        | panicked ↦ (f', panicked)
        | out_of_fuel ↦ (f', out_of_fuel)
      ]

  unfoldable pub create : SystemTime → RecordScope → ℕ → File → File × Outcome CreateResult
  create new_time scope auth_user f =
      let (f', found_record) = scan_file big_endian (λ r. matches r scope auth_user) f in
      elim found_record [
        | returned none ↦ create_new new_time scope auth_user f'
        | returned (some r) ↦ (
          write_all (write_bool true) (overwrite_time new_time f'),
          returned (refreshed r.timestamp new_time),
        )
        | failed ↦ (f', failed)
        | panicked ↦ (f', panicked)
        | out_of_fuel ↦ (f', out_of_fuel)
      ]

  -- One record of the loop of `disable`.
  unfoldable pub disable_record : RecordScope → SessionRecord → File → File
  disable_record scope r f =
      if scope_eq r.scope scope
      then write_all (write_bool false) (seek (f.position - size_of_bool) f)
      else f

  unfoldable pub disable_from : ℕ → RecordScope → File → File × Outcome (Unit {0})
  disable_from zero scope f = (f, out_of_fuel)
  disable_from (suc fuel) scope f =
      let (f', next) = next_record big_endian f in
      elim next [
        | empty_record ↦ (f', failed)
        | no_more ↦ (f', returned tt)
        | found r ↦ disable_from fuel scope (disable_record scope r f')
      ]

  unfoldable pub disable : RecordScope → File → File × Outcome (Unit {0})
  disable scope f = disable_from (length f.bytes + 1) scope (seek first_record_offset f)
