-- ===== src/Exec/RingBuffer/Fifo.antt =====
-- src/exec/use_pty/pipe/ring_buffer.rs: when a buffer is valid, and the bytes that it holds as a
-- queue.
use sudo_rs.Prelude.{ℕ, ◌+◌, ◌-◌, ◌%◌, ◌≤◌, ◌<◌, List, [], ◌++◌, arith}
use sudo_rs.Prelude.{◌≡◌, refl, sym, ap, ◌∙◌, inl, inr}
use sudo_rs.Prelude.Tests.{leb, leb→le, Bool-cases}
use sudo_rs.Prelude.Lists.{
  length, take, drop, length-append, length-take, length-drop, length-replicate,
}
use sudo_rs.Exec.RingBuffer.{RingBuffer, capacity, new, is_full, filled}
use sudo_rs.Exec.RingBuffer.Lists.{take-length, take-append_le, take-append_ge, take-take}

-- The debug assertions of `insert` and `remove`, and the size of the storage.
pub record IsValid (r : RingBuffer) : Type 0 where
  pub storage : length r.storage ≡ capacity
  pub start : r.start < capacity
  pub len : r.len ≤ capacity

-- The bytes held, oldest first.
unfoldable pub contents : RingBuffer → List ℕ
contents r = take r.len (drop r.start r.storage ++ take r.start r.storage)

-- The end of a wrapped section, and the room there is, as sums.
module _ {r : RingBuffer} (v : IsValid r) where
  pub length-front : length (take r.start r.storage) ≡ r.start
  length-front = omega (arith, length-take r.start r.storage)

  pub length-back : length (drop r.start r.storage) ≡ capacity - r.start
  length-back = omega (arith, length-drop r.start r.storage)

  pub end_wrapped :
      length r.storage ≤ r.start + r.len
      → (r.start + r.len) % length r.storage ≡ r.len - length (drop r.start r.storage)
  end_wrapped h = rw (v.storage, length-back) (omega arith)

  pub contents_wrapped :
      length r.storage ≤ r.start + r.len
      → contents r
        ≡ drop r.start r.storage ++ take (r.len - length (drop r.start r.storage)) r.storage
  unfolding contents
  contents_wrapped h =
      let back = drop r.start r.storage in
      take-append_ge back (take r.start r.storage) r.len (omega (arith, length-back))
      ∙ ap (λ k. back ++ k)
          (take-take (r.len - length back) r.start r.storage (omega (arith, length-back)))

  pub contents_contiguous :
      r.start + r.len ≤ length r.storage → contents r ≡ take r.len (drop r.start r.storage)
  unfolding contents
  contents_contiguous h =
      take-append_le (drop r.start r.storage) (take r.start r.storage) r.len
        (omega (arith, length-back))

  contents_full :
      r.len ≡ length r.storage → contents r ≡ drop r.start r.storage ++ take r.start r.storage
  unfolding contents
  contents_full e = take-length (drop r.start r.storage ++ take r.start r.storage) r.len (
      omega (
        arith,
        length-front,
        length-back,
        length-append (drop r.start r.storage) (take r.start r.storage),
      ))

  -- What is offered to the writer are the contents.
  pub filled-contents : filled r ≡ contents r
  unfolding filled
  filled-contents = elim (Bool-cases (is_full r)) [
    | inl e ↦ rw (e, filled) (sym (contents_full (ground arith)))
    | inr e ↦ elim (Bool-cases (leb (length r.storage) (r.start + r.len))) [
      | inl e₂ ↦
          let h : length r.storage ≤ r.start + r.len = leb→le _ _ e₂ in
          rw (e, e₂, filled, end_wrapped h) (sym (contents_wrapped h))
      | inr e₂ ↦
          let h : r.start + r.len ≤ length r.storage = ground arith in
          let k : r.start + r.len - r.start ≡ r.len = omega arith in
          rw (e, e₂, filled, k) (sym (contents_contiguous h))
    ]
  ]

-- A new buffer is valid and holds nothing.
pub new-IsValid : IsValid new × (contents new ≡ [])
unfolding new contents
new-IsValid = (
  record { storage = length-replicate {A = ℕ} capacity 0; start = omega arith; len = omega arith },
  refl,
)
