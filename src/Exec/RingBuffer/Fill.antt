-- ===== src/Exec/RingBuffer/Fill.antt =====
-- The slices of src/exec/use_pty/pipe/ring_buffer.rs that `insert` offers to a reader, and what is in
-- them when they are filled.
use sudo_rs.Prelude.{ℕ, ◌+◌, ◌-◌, ◌%◌, ◌≤◌, true, false, List, [], ◌++◌, arith}
use sudo_rs.Prelude.{◌≡◌, refl, sym, ap, ◌∙◌, append_assoc, append-nil}
use native.Mathlib.Decide.{dec_le}
use sudo_rs.Prelude.Tests.{leb, leb→le}
use sudo_rs.Prelude.Lists.{
  length, take, drop, length-append, length-take, length-drop, take-append-drop,
}
use sudo_rs.Exec.RingBuffer.{RingBuffer, capacity, is_empty, slice, fill}
use sudo_rs.Exec.RingBuffer.Fifo.{IsValid, contents, end_wrapped, length-front, length-back}
use sudo_rs.Exec.RingBuffer.Lists.{
  take-length, drop-length, take-append_exact, drop-append_exact, take-append_add,
}

pub length-fill :
    (part bytes : List ℕ) → length bytes ≤ length part → length (fill part bytes) ≡ length part
length-fill part bytes h =
    omega (arith, length-append bytes (drop (length bytes) part), length-drop (length bytes) part)

-- Two slices that are filled one after the other hold the bytes.
pub fill_both :
    (first second bytes : List ℕ)
    → length bytes ≤ length first + length second
    → take
        (length bytes)
        (fill first (take (length first) bytes) ++ fill second (drop (length first) bytes))
      ≡ bytes
fill_both first second bytes h = elim (dec_le (length bytes) (length first)) [
  | yes p ↦
      let rest = drop (length first) bytes in
      let first' = drop (length bytes) first in
      rw (take-length bytes (length first) p) (
        ap (take (length bytes)) (append_assoc bytes first' (fill second rest))
        ∙ take-append_exact bytes (first' ++ fill second rest) (length bytes) refl)
  | no p ↦
      let front = take (length first) bytes in
      let rest = drop (length first) bytes in
      let second' = drop (length rest) second in
      let full : fill first front ≡ front =
        ap (λ z. front ++ z)
          (drop-length first (length front) (omega (arith, length-take (length first) bytes)))
        ∙ append-nil front in
      rw full (
        ap (take (length bytes)) (sym (append_assoc front rest second'))
        ∙ ap (λ z. take (length bytes) (z ++ second')) (take-append-drop (length first) bytes)
        ∙ take-append_exact bytes second' (length bytes) refl)
]

pub length-fill_first :
    (first bytes : List ℕ) → length (fill first (take (length first) bytes)) ≡ length first
length-fill_first first bytes =
    length-fill first (take (length first) bytes) (omega (arith, length-take (length first) bytes))

pub length-fill_second :
    (first second bytes : List ℕ)
    → length bytes ≤ length first + length second
    → length (fill second (drop (length first) bytes)) ≡ length second
length-fill_second first second bytes h =
    length-fill second (drop (length first) bytes) (omega (arith, length-drop (length first) bytes))

-- A buffer whose storage is `front`, then the `len` bytes that it holds, then `back`.
pub contents_parts :
    (front held back : List ℕ) (start len n : ℕ) (bytes : List ℕ)
    → length front ≡ start
    → length held ≡ len
    → take n (back ++ front) ≡ bytes
    → contents (record { storage = front ++ (held ++ back); start = start; len = len + n })
      ≡ held ++ bytes
unfolding contents
contents_parts front held back start len n bytes f h e =
    rw
      (
        take-append_exact front (held ++ back) start f,
        drop-append_exact front (held ++ back) start f,
      )
      (ap (take (len + n)) (append_assoc held back front)
        ∙ take-append_add held (back ++ front) len n h
        ∙ ap (λ z. held ++ z) e)

-- A buffer whose held bytes go round: `back`, then `wrapped`, with the free `gap` behind them.
pub contents_wrapping :
    (wrapped gap back : List ℕ) (start len n : ℕ) (bytes : List ℕ)
    → length (wrapped ++ gap) ≡ start
    → length (back ++ wrapped) ≡ len
    → take n gap ≡ bytes
    → contents (record { storage = (wrapped ++ gap) ++ back; start = start; len = len + n })
      ≡ (back ++ wrapped) ++ bytes
unfolding contents
contents_wrapping wrapped gap back start len n bytes f h e =
    rw
      (
        take-append_exact (wrapped ++ gap) back start f,
        drop-append_exact (wrapped ++ gap) back start f,
      )
      (ap (take (len + n)) (sym (append_assoc back wrapped gap))
        ∙ take-append_add (back ++ wrapped) gap len n h
        ∙ ap (λ z. (back ++ wrapped) ++ z) e)

pub contents_empty : (r : RingBuffer) → r.len ≡ 0 → contents r ≡ []
unfolding contents
contents_empty r z = ap (λ n. take n (drop r.start r.storage ++ take r.start r.storage)) z

-- In each case the reader is offered all the room that there is.
module _ {r : RingBuffer} (v : IsValid r) where
  pub room_empty :
      is_empty r ≡ true
      → length (drop r.start r.storage) + length (take r.start r.storage) ≡ capacity - r.len
  room_empty e = let z : r.len ≡ 0 = ground arith in omega (arith, length-back v, length-front v)

  pub room_contiguous :
      leb (length r.storage) (r.start + r.len) ≡ false
      → length (drop (r.start + r.len) r.storage)
          + length (take r.start (take (r.start + r.len) r.storage))
        ≡ capacity - r.len
  room_contiguous e =
      let inside : r.start + r.len ≤ length r.storage = ground arith in
      omega (
        arith,
        length-drop (r.start + r.len) r.storage,
        length-take r.start (take (r.start + r.len) r.storage),
        length-take (r.start + r.len) r.storage,
        v.storage,
      )

  pub room_wrapped :
      leb (length r.storage) (r.start + r.len) ≡ true
      → length (slice ((r.start + r.len) % length r.storage) r.start r.storage) ≡ capacity - r.len
  room_wrapped e =
      let past : length r.storage ≤ r.start + r.len = leb→le _ _ e in
      let end = (r.start + r.len) % length r.storage in
      omega (
        arith,
        end_wrapped v past,
        length-take (r.start - end) (drop end r.storage),
        length-drop end r.storage,
        v.storage,
        length-back v,
      )
