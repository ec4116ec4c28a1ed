-- ===== src/Session/Run/Total.antt =====
-- src/system/timestamp.rs: the loops over the records of a file, whatever its bytes and position.
use sudo_rs.Prelude.{ℕ, zero, suc, ◌+◌, ◌-◌, ◌^◌, ◌<◌, Bool, true, false, Option, none, some, arith}
use sudo_rs.Prelude.{◌≡◌, refl, ap, ◌∙◌, inl, inr}
use sudo_rs.Prelude.Tests.{Bool-cases, Option-cases, ltb}
use sudo_rs.Prelude.Lists.{length}
use sudo_rs.Session.Time.{SystemTime, Duration, checked_sub}
use sudo_rs.Session.Record.{RecordScope, SessionRecord, matches, written_between, encode_record}
use sudo_rs.Session.Store.{
  File, Outcome, returned, failed, panicked, out_of_fuel, seek, first_record_offset, Next, found,
  no_more, empty_record, next_record, scan, scan_file,
}
use sudo_rs.Session.Store.Advance.{next_record_advance, left, disable_record-left}
use sudo_rs.Session.Store.Scan.{after_next, scan_step}
use sudo_rs.Session.Operations.{
  touch_found, write_record, create_new, disable_record, disable_from, disable,
}
use sudo_rs.Session.Records.{chosen_by_touch}
use sudo_rs.Session.Refinement.Touch
use sudo_rs.Session.Refinement.Create
use sudo_rs.Session.Refinement.Disable
use sudo_rs.Session.Run.{
  Operation, opening, touching, creating, disabling, resetting, Reply, touch_reply, create_reply,
  disable_reply, done, perform,
}

abbrev pub finished : {A : Type 0} → Outcome A → Bool
finished (returned a) = true
finished failed = true
finished panicked = true
finished out_of_fuel = false

abbrev pub is_finished : Reply → Bool
is_finished (touch_reply o) = finished o
is_finished (create_reply o) = finished o
is_finished (disable_reply o) = finished o
is_finished done = true

module _ (e : Bool) where
  module _ (choose : SessionRecord → Bool) where
    scan_after :
        (fuel : ℕ) (f : File) (x : File × Next)
        → next_record e f ≡ x
        → left e f < suc fuel
        → ((g : File) → left e g < fuel → finished (scan e fuel choose g).1 ≡ true)
        → finished (after_next e choose fuel x).1 ≡ true
    scan_after fuel f (f', empty_record) h l rest = refl
    scan_after fuel f (f', no_more) h l rest = refl
    scan_after fuel f (f', found r) h l rest =
        let (b, p, q) = next_record_advance e f f' r h in
        elim (Bool-cases (choose r)) [
          | inl y ↦ rw y refl
          | inr n ↦ rw n (rest f' (omega (arith, ap length b)))
        ]

    scan-finished :
        (fuel : ℕ) (f : File) → left e f < fuel → finished (scan e fuel choose f).1 ≡ true
    scan-finished zero f l = absurd (omega arith)
    scan-finished (suc fuel) f l =
        let x = next_record e f in
        ap (λ k. finished k.1) (scan_step e choose fuel f x refl)
        ∙ scan_after fuel f x refl l (scan-finished fuel)

    scan_file-finished : (f : File) → finished (scan_file e choose f).1 ≡ true
    scan_file-finished f =
        scan-finished (length f.bytes + 1) (seek first_record_offset f) (omega arith)

  module _ (scope : RecordScope) where
    disable_after :
        (fuel : ℕ) (f : File) (x : File × Next)
        → next_record e f ≡ x
        → left e f < suc fuel
        → ((g : File) → left e g < fuel → finished (disable_from e fuel scope g).1 ≡ true)
        → finished (Disable.after_next e scope fuel x).1 ≡ true
    disable_after fuel f (f', empty_record) h l rest = refl
    disable_after fuel f (f', no_more) h l rest = refl
    disable_after fuel f (f', found r) h l rest =
        let (b, p, q) = next_record_advance e f f' r h in
        let n = disable_record-left e scope r f' (omega arith) (omega (arith, ap length b)) in
        rest (disable_record e scope r f') (omega (arith, n, ap length b))

    disable_finished :
        (fuel : ℕ) (f : File) → left e f < fuel → finished (disable_from e fuel scope f).1 ≡ true
    disable_finished zero f l = absurd (omega arith)
    disable_finished (suc fuel) f l =
        let x = next_record e f in
        ap (λ k. finished k.1) (Disable.disable_step e scope fuel f x refl)
        ∙ disable_after fuel f x refl l (disable_finished fuel)

  touch_found-finished :
      (now t : SystemTime) (timeout : Duration) (f : File) (r : SessionRecord)
      → finished (touch_found e now t timeout f r).1 ≡ true
  unfolding touch_found
  touch_found-finished now t timeout f r = elim (Option-cases (checked_sub now timeout)) [
    | inl over ↦ rw (over, touch_found) refl
    | inr (early, s) ↦ elim (Bool-cases (written_between r early now)) [
      | inl recent ↦ rw (s, recent, touch_found) refl
      | inr old ↦ rw (s, old, touch_found) refl
    ]
  ]

  touch_after :
      (now t : SystemTime) (timeout : Duration) (scope : RecordScope) (u : ℕ)
      (x : File × Outcome (Option SessionRecord))
      → finished x.1 ≡ true
      → finished (Touch.after_scan e now t timeout scope u x).1 ≡ true
  touch_after now t timeout scope u (f, returned none) h = refl
  touch_after now t timeout scope u (f, returned (some r)) h =
      touch_found-finished now t timeout f r
  touch_after now t timeout scope u (f, failed) h = refl
  touch_after now t timeout scope u (f, panicked) h = refl
  touch_after now t timeout scope u (f, out_of_fuel) h = h

  create_new-finished :
      (t : SystemTime) (scope : RecordScope) (u : ℕ) (f : File)
      → finished (create_new e t scope u f).1 ≡ true
  unfolding create_new write_record
  create_new-finished t scope u f =
      let r : SessionRecord = record {
        scope = scope;
        auth_user = u;
        timestamp = t;
        enabled = true;
      } in
      elim (Bool-cases (ltb (2 ^ 16 - 1) (length (encode_record e r)))) [
        | inl big ↦ rw (big, create_new, write_record) refl
        | inr small ↦ rw (small, create_new, write_record) refl
      ]

  create_after :
      (t : SystemTime) (scope : RecordScope) (u : ℕ) (x : File × Outcome (Option SessionRecord))
      → finished x.1 ≡ true
      → finished (Create.after_scan e t scope u x).1 ≡ true
  create_after t scope u (f, returned none) h = create_new-finished t scope u f
  create_after t scope u (f, returned (some r)) h = refl
  create_after t scope u (f, failed) h = refl
  create_after t scope u (f, panicked) h = refl
  create_after t scope u (f, out_of_fuel) h = h

  -- Every operation comes to an end, whatever the bytes of the file and its position: its loop over
  -- the records never needs more fuel than it is given.
  pub perform_finished : (op : Operation) (f : File) → is_finished (perform e op f).1 ≡ true
  unfolding perform disable
  perform_finished opening f = refl
  perform_finished (touching now t timeout scope u) f =
      ap (λ k. finished k.1) (Touch.touch_step e now t timeout scope u f _ refl)
      ∙ touch_after now t timeout scope u _ (scan_file-finished (chosen_by_touch scope u) f)
  perform_finished (creating t scope u) f =
      ap (λ k. finished k.1) (Create.create_step e t scope u f _ refl)
      ∙ create_after t scope u _ (scan_file-finished (λ r. matches r scope u) f)
  perform_finished (disabling scope) f =
      disable_finished scope (length f.bytes + 1) (seek first_record_offset f) (omega arith)
  perform_finished resetting f = refl
