-- ===== src/Session/Store/Rewrite.antt =====
-- src/system/timestamp.rs: what a write into a record, at the place of its time or of its flag,
-- makes of a file that holds a list of records.
use sudo_rs.Prelude.{◌+◌, ◌-◌, ◌≤◌, Bool, true, false, ◌++◌, arith}
use sudo_rs.Prelude.{◌≡◌, refl, sym, ap, ◌∙◌, append_assoc}
use sudo_rs.Prelude.Lists.{length, length-append}
use sudo_rs.Prelude.Text.{Text}
use sudo_rs.Prelude.Bytes.{to_le_bytes, length-to_le_bytes}
use sudo_rs.Session.Time.{SystemTime, encode_time}
use sudo_rs.Session.Time.Codec.{length-encode_time}
use sudo_rs.Session.Record.{SessionRecord, write_bool, encode_scope, encode_record}
use sudo_rs.Session.Store.{File, seek, write_all}
use sudo_rs.Session.Store.Layout.{frame, write_all-at}
use sudo_rs.Session.Operations.{overwrite_time}
use sudo_rs.Session.Records.{with_time}

length-write_bool : (b : Bool) → length (write_bool b) ≡ 1
length-write_bool true = refl
length-write_bool false = refl

module _ (e : Bool) where
  -- The bytes of a record before its time.
  unfoldable prefix : SessionRecord → Text
  prefix r =
      to_le_bytes 2 (length (encode_record e r))
      ++ (encode_scope e r.scope ++ to_le_bytes 4 r.auth_user)

  frame_split :
      (r : SessionRecord)
      → frame e r ≡ prefix r ++ (encode_time e r.timestamp ++ write_bool r.enabled)
  unfolding frame prefix encode_record
  frame_split r =
      let L = to_le_bytes 2 (length (encode_record e r)) in
      let s = encode_scope e r.scope in
      let u = to_le_bytes 4 r.auth_user in
      let t = encode_time e r.timestamp ++ write_bool r.enabled in
      ap (λ k. L ++ k) (sym (append_assoc s u t)) ∙ sym (append_assoc L (s ++ u) t)

  length-record :
      (r : SessionRecord) → length (encode_record e r) ≡ length (encode_scope e r.scope) + 21
  unfolding encode_record
  length-record r =
      let s = encode_scope e r.scope in
      let u = to_le_bytes 4 r.auth_user in
      let t = encode_time e r.timestamp in
      omega (
        arith,
        length-append s (u ++ (t ++ write_bool r.enabled)),
        length-append u (t ++ write_bool r.enabled),
        length-append t (write_bool r.enabled),
        length-to_le_bytes 4 r.auth_user,
        length-encode_time e r.timestamp,
        length-write_bool r.enabled,
      )

  prefix_same :
      (r : SessionRecord) (t : SystemTime) (b : Bool)
      → prefix (record r { timestamp = t; enabled = b }) ≡ prefix r
  unfolding prefix
  prefix_same r t b =
      let r' : SessionRecord = record r { timestamp = t; enabled = b } in
      ap (λ n. to_le_bytes 2 n ++ (encode_scope e r.scope ++ to_le_bytes 4 r.auth_user))
        (length-record r' ∙ sym (length-record r))

  frame_with :
      (r : SessionRecord) (t : SystemTime) (b : Bool)
      → frame e (record r { timestamp = t; enabled = b })
        ≡ prefix r ++ (encode_time e t ++ write_bool b)
  frame_with r t b =
      frame_split (record r { timestamp = t; enabled = b })
      ∙ ap (λ k. k ++ (encode_time e t ++ write_bool b)) (prefix_same r t b)

  length-frame_split : (r : SessionRecord) → length (frame e r) ≡ length (prefix r) + 17
  length-frame_split r =
      let t = encode_time e r.timestamp in
      omega (
        arith,
        ap length (frame_split r),
        length-append (prefix r) (t ++ write_bool r.enabled),
        length-append t (write_bool r.enabled),
        length-encode_time e r.timestamp,
        length-write_bool r.enabled,
      )

  pub length-frame_pos : (r : SessionRecord) → 1 ≤ length (frame e r)
  length-frame_pos r = omega (arith, length-frame_split r)

  pub length-frame_with :
      (r : SessionRecord) (t : SystemTime) (b : Bool)
      → length (frame e (record r { timestamp = t; enabled = b })) ≡ length (frame e r)
  length-frame_with r t b = omega (
    arith,
    length-frame_split r,
    length-frame_split (record r { timestamp = t; enabled = b }),
    ap length (prefix_same r t b),
  )

  pub overwrite_time_lem :
      (A B : Text) (r : SessionRecord) (t : SystemTime) (f : File)
      → f.bytes ≡ A ++ (frame e r ++ B)
      → f.position ≡ length A + length (frame e r)
      → overwrite_time e t f
        ≡ record { bytes = A ++ (frame e (with_time t r) ++ B); position = f.position - 1 }
  unfolding overwrite_time
  overwrite_time_lem A B r t f b p =
      let P = prefix r in
      let T = encode_time e r.timestamp in
      let F = write_bool r.enabled in
      let T' = encode_time e t in
      let regroup : (X : Text) → A ++ ((P ++ (X ++ F)) ++ B) ≡ (A ++ P) ++ (X ++ (F ++ B)) = λ X.
        ap (λ k. A ++ k) (append_assoc P (X ++ F) B ∙ ap (λ k. P ++ k) (append_assoc X F B))
        ∙ sym (append_assoc A P (X ++ (F ++ B))) in
      let b' : f.bytes ≡ (A ++ P) ++ (T ++ (F ++ B)) =
        b ∙ ap (λ k. A ++ (k ++ B)) (frame_split r) ∙ regroup T in
      let q : f.position - 17 ≡ length (A ++ P) =
        omega (arith, length-append A P, length-frame_split r) in
      let l : length T ≡ length T' =
        length-encode_time e r.timestamp ∙ sym (length-encode_time e t) in
      let w = write_all-at (A ++ P) T (F ++ B) T' (seek (f.position - 17) f) b' q l in
      let z : (f.position - 17) + length T' ≡ f.position - 1 =
        omega (arith, length-encode_time e t, length-frame_split r) in
      let y : (A ++ P) ++ (T' ++ (F ++ B)) ≡ A ++ (frame e (with_time t r) ++ B) =
        sym (regroup T') ∙ ap (λ k. A ++ (k ++ B)) (sym (frame_with r t r.enabled)) in
      w
      ∙ ap (λ k. record { bytes = k; position = (f.position - 17) + length T' }) y
      ∙ ap (λ k. record { bytes = A ++ (frame e (with_time t r) ++ B); position = k }) z

  pub write_flag_lem :
      (A B : Text) (r : SessionRecord) (flag : Bool) (f : File)
      → f.bytes ≡ A ++ (frame e r ++ B)
      → f.position + 1 ≡ length A + length (frame e r)
      → write_all (write_bool flag) f ≡ record {
        bytes = A ++ (frame e (record r { enabled = flag }) ++ B);
        position = f.position + 1;
      }
  write_flag_lem A B r flag f b p =
      let P = prefix r in
      let T = encode_time e r.timestamp in
      let F = write_bool r.enabled in
      let F' = write_bool flag in
      let regroup : (X : Text) → A ++ ((P ++ (T ++ X)) ++ B) ≡ (A ++ (P ++ T)) ++ (X ++ B) = λ X.
        ap (λ k. A ++ (k ++ B)) (sym (append_assoc P T X))
        ∙ ap (λ k. A ++ k) (append_assoc (P ++ T) X B)
        ∙ sym (append_assoc A (P ++ T) (X ++ B)) in
      let b' : f.bytes ≡ (A ++ (P ++ T)) ++ (F ++ B) =
        b ∙ ap (λ k. A ++ (k ++ B)) (frame_split r) ∙ regroup F in
      let q : f.position ≡ length (A ++ (P ++ T)) = omega (
        arith,
        length-append A (P ++ T),
        length-append P T,
        length-frame_split r,
        length-encode_time e r.timestamp,
      ) in
      let w =
        write_all-at (A ++ (P ++ T)) F B F' f b' q
          (length-write_bool r.enabled ∙ sym (length-write_bool flag)) in
      let y : (A ++ (P ++ T)) ++ (F' ++ B) ≡ A ++ (frame e (record r { enabled = flag }) ++ B) =
        sym (regroup F') ∙ ap (λ k. A ++ (k ++ B)) (sym (frame_with r r.timestamp flag)) in
      w
      ∙ ap (λ k. record { bytes = k; position = f.position + length F' }) y
      ∙ ap
          (λ k. record {
            bytes = A ++ (frame e (record r { enabled = flag }) ++ B);
            position = f.position + k;
          })
          (length-write_bool flag)
