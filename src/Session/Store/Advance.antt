-- ===== src/Session/Store/Advance.antt =====
-- src/system/timestamp.rs: how far one record takes a reader, whatever the bytes of the file.
use sudo_rs.Prelude.{ℕ, ◌+◌, ◌-◌, ◌<◌, ◌≤◌, Bool, some, ◌∷◌, ◌++◌, arith}
use sudo_rs.Prelude.{◌≡◌, refl, sym, ap, ◌∙◌, inl, inr}
use sudo_rs.Prelude.Tests.{◌==◌, Bool-cases, Option-cases}
use sudo_rs.Prelude.Lists.{
  length, take, drop, replicate, length-append, length-take, length-drop, length-replicate,
}
use sudo_rs.Prelude.Text.{Text}
use sudo_rs.Prelude.Bytes.{from_le_bytes, read_exact, read_exact-inv}
use sudo_rs.Session.Record.{RecordScope, SessionRecord, scope_eq, from_bytes}
use sudo_rs.Session.Store.{File, seek, write_all, read_file, found, read_record, next_record}
use sudo_rs.Session.Operations.{disable_record}

read_file-inv :
    (n : ℕ) (f f' : File) (a : Text)
    → read_file n f ≡ some (a, f')
    → 0 < n
    → (f' ≡ seek (f.position + n) f) × (f.position + n ≤ length f.bytes)
unfolding read_file
read_file-inv n f f' a h p = elim (Option-cases (read_exact n (drop f.position f.bytes))) [
  | inl end ↦ absurd (cc (rw (end, read_file) at h))
  | inr (r, y) ↦
      let m : some (r.0, seek (f.position + n) f) ≡ some (a, f') = rw (y, read_file) at h in
      let (u, l) = read_exact-inv n (drop f.position f.bytes) r.0 r.1 y in
      (cc, omega (arith, ap length u, length-append r.0 r.1, length-drop f.position f.bytes))
]

module _ (e : Bool) where
  -- A record that is found is within the file and has a byte at least.
  pub next_record_advance :
      (f f' : File) (r : SessionRecord)
      → next_record e f ≡ (f', found r)
      → (f'.bytes ≡ f.bytes) × (f.position < f'.position) × (f'.position ≤ length f.bytes)
  unfolding next_record read_record
  next_record_advance f f' r h = elim (Option-cases (read_file 2 f)) [
    | inl end ↦ absurd (cc (rw (end, next_record) at h))
    | inr ((L, f₁), y) ↦ elim (Bool-cases (from_le_bytes L == 0)) [
      | inl z ↦ absurd (cc (rw (y, z, next_record) at h))
      | inr nz ↦ elim (Option-cases (read_file (from_le_bytes L) f₁)) [
        | inl end ↦ absurd (cc (rw (y, nz, end, next_record, read_record) at h))
        | inr ((X, f₂), y₂) ↦ elim (Option-cases (from_bytes e X)) [
          | inl end ↦ absurd (cc (rw (y, nz, y₂, end, next_record, read_record) at h))
          | inr (s, y₃) ↦
              let m : (f₂, found s) ≡ (f', found r) =
                rw (y, nz, y₂, y₃, next_record, read_record) at h in
              let (u₁, l₁) = read_file-inv 2 f f₁ L y (omega arith) in
              let pos_n : 0 < from_le_bytes L = ground arith in
              let (u₂, l₂) = read_file-inv (from_le_bytes L) f₁ f₂ X y₂ pos_n in
              let same : f₂ ≡ f' = cc in
              let b₁ : f₁.bytes ≡ f.bytes = ap (λ k. k.bytes) u₁ in
              let b₂ : f₂.bytes ≡ f₁.bytes = ap (λ k. k.bytes) u₂ in
              let p₁ : f₁.position ≡ f.position + 2 = ap (λ k. k.position) u₁ in
              let p₂ : f₂.position ≡ f₁.position + from_le_bytes L = ap (λ k. k.position) u₂ in
              let b' : f'.bytes ≡ f.bytes = sym (ap (λ k. k.bytes) same) ∙ b₂ ∙ b₁ in
              let p' : f₂.position ≡ f'.position = ap (λ k. k.position) same in
              (b', omega arith, omega (arith, ap length b₁))
        ]
      ]
    ]
  ]

  -- The bytes that are left.
  abbrev pub left : File → ℕ
  left f = length f.bytes - f.position

  pub disable_record-left :
      (scope : RecordScope) (r : SessionRecord) (f : File)
      → 0 < f.position
      → f.position ≤ length f.bytes
      → left (disable_record e scope r f) ≡ left f
  unfolding disable_record write_all
  disable_record-left scope r f p l = elim (Bool-cases (scope_eq r.scope scope)) [
    | inr other ↦ rw (other, disable_record) refl
    | inl same ↦
        let q = f.position - 1 in
        let gap : Text = replicate (q - length f.bytes) 0 in
        let tail : Text = drop (q + 1) f.bytes in
        rw (same, disable_record, write_all)
          (omega (
            arith,
            length-append (take q f.bytes) (gap ++ (0 ∷ tail)),
            length-append gap (0 ∷ tail),
            length-take q f.bytes,
            length-replicate {A = ℕ} (q - length f.bytes) 0,
            length-drop (q + 1) f.bytes,
          ))
  ]
