-- ===== src/Exec/RingBuffer/Insert.antt =====
-- `insert` of src/exec/use_pty/pipe/ring_buffer.rs as an operation on the queue.
use sudo_rs.Prelude.{ℕ, ◌+◌, ◌-◌, ◌%◌, ◌≤◌, true, false, Option, some, List, [], ◌++◌, arith}
use sudo_rs.Prelude.{◌≡◌, refl, sym, ap, ◌∙◌, append_assoc, inl, inr}
use sudo_rs.Prelude.Tests.{leb, leb→le, Bool-cases}
use sudo_rs.Prelude.Lists.{length, take, drop, length-append, length-take, length-drop}
use sudo_rs.Exec.RingBuffer.{
  RingBuffer, capacity, is_empty, slice, fill, read_vectored, insert_empty, insert_wrapped,
  insert_contiguous, insert,
}
use sudo_rs.Exec.RingBuffer.Fifo.{
  IsValid, contents, contents_contiguous, contents_wrapped, end_wrapped, length-front, length-back,
}
use sudo_rs.Exec.RingBuffer.Lists.{take-append_exact, drop-take}
use sudo_rs.Exec.RingBuffer.Fill.{
  length-fill, fill_both, length-fill_first, length-fill_second, contents_parts, contents_wrapping,
  contents_empty, room_empty, room_contiguous, room_wrapped,
}

-- What an insertion of `bytes` leaves.
record Inserted (r : RingBuffer) (bytes : List ℕ) (out : Option (RingBuffer × ℕ)) : Type 0 where
  buffer : RingBuffer
  done : out ≡ some (buffer, length bytes)
  valid : IsValid buffer
  appended : contents buffer ≡ contents r ++ bytes

module _ (read : ℕ → Option (List ℕ)) {r : RingBuffer} (v : IsValid r) (bytes : List ℕ) where
  module _ (given : read (capacity - r.len) ≡ some bytes)
      (fits : length bytes ≤ capacity - r.len) where
    insert_empty-Inserted : is_empty r ≡ true → Inserted r bytes (insert read r)
    unfolding insert insert_empty read_vectored
    insert_empty-Inserted e =
        let back = drop r.start r.storage in
        let front = take r.start r.storage in
        let back' = fill back (take (length back) bytes) in
        let front' = fill front (drop (length back) bytes) in
        let z : r.len ≡ 0 = ground arith in
        let room : length back + length front ≡ capacity - r.len = room_empty v e in
        let same : length front' ≡ length front =
          length-fill_second back front bytes (omega arith) in
        let same' : length back' ≡ length back = length-fill_first back bytes in
        record {
          buffer = record r { storage = front' ++ back'; len = r.len + length bytes };
          done = rw (e, room, given);
          valid = record {
            storage =
                omega
                  (arith, length-append front' back', same, same', length-front v, length-back v);
            start = v.start;
            len = omega arith;
          };
          appended =
              contents_parts front' [] back' r.start r.len (length bytes) bytes
                (same ∙ length-front v) (sym z) (fill_both back front bytes (omega arith))
              ∙ ap (λ k. k ++ bytes) (sym (contents_empty r z));
        }

    insert_contiguous-Inserted :
        is_empty r ≡ false
        → leb (length r.storage) (r.start + r.len) ≡ false
        → Inserted r bytes (insert read r)
    unfolding insert insert_contiguous read_vectored
    insert_contiguous-Inserted e e₂ =
        let end = r.start + r.len in
        let mid = take end r.storage in
        let back = drop end r.storage in
        let front = take r.start mid in
        let held = drop r.start mid in
        let back' = fill back (take (length back) bytes) in
        let front' = fill front (drop (length back) bytes) in
        let inside : end ≤ length r.storage = ground arith in
        let length_mid : length mid ≡ end = omega (arith, length-take end r.storage) in
        let length_front : length front ≡ r.start = omega (arith, length-take r.start mid) in
        let length_held : length held ≡ r.len = omega (arith, length-drop r.start mid) in
        let length_back : length back ≡ capacity - end =
          omega (arith, length-drop end r.storage, v.storage) in
        let room : length back + length front ≡ capacity - r.len = room_contiguous v e₂ in
        let same : length front' ≡ length front =
          length-fill_second back front bytes (omega arith) in
        let same' : length back' ≡ length back = length-fill_first back bytes in
        let k : end - r.start ≡ r.len = omega arith in
        let held_contents : held ≡ contents r =
          drop-take r.start end r.storage
          ∙ ap (λ n. take n (drop r.start r.storage)) k
          ∙ sym (contents_contiguous v inside) in
        record {
          buffer = record r { storage = (front' ++ held) ++ back'; len = r.len + length bytes };
          done = rw (e, e₂, room, given);
          valid = record {
            storage =
                omega (
                  arith,
                  length-append (front' ++ held) back',
                  length-append front' held,
                  v.storage,
                );
            start = v.start;
            len = omega arith;
          };
          appended =
              ap
                (λ s.
                  contents (record { storage = s; start = r.start; len = r.len + length bytes }))
                (append_assoc front' held back')
              ∙ contents_parts front' held back' r.start r.len (length bytes) bytes
                  (same ∙ length_front) length_held (fill_both back front bytes (omega arith))
              ∙ ap (λ z. z ++ bytes) held_contents;
        }

    insert_wrapped-Inserted :
        is_empty r ≡ false
        → leb (length r.storage) (r.start + r.len) ≡ true
        → Inserted r bytes (insert read r)
    unfolding insert insert_wrapped
    insert_wrapped-Inserted e e₂ =
        let past : length r.storage ≤ r.start + r.len = leb→le _ _ e₂ in
        let end = (r.start + r.len) % length r.storage in
        let gap = slice end r.start r.storage in
        let back = drop r.start r.storage in
        let wrapped = take end r.storage in
        let gap' = fill gap bytes in
        let where_end : end ≡ r.len - length back = end_wrapped v past in
        let length_wrapped : length wrapped ≡ end =
          omega (arith, length-take end r.storage, v.storage, length-back v) in
        let length_gap : length gap ≡ r.start - end = omega (
          arith,
          length-take (r.start - end) (drop end r.storage),
          length-drop end r.storage,
          v.storage,
        ) in
        let room : length gap ≡ capacity - r.len = room_wrapped v e₂ in
        let same : length gap' ≡ length gap = length-fill gap bytes (omega arith) in
        let front_length : length (wrapped ++ gap') ≡ r.start =
          omega (arith, length-append wrapped gap', length-back v) in
        record {
          buffer = record r { storage = wrapped ++ (gap' ++ back); len = r.len + length bytes };
          done = rw (e, e₂, room, given);
          valid = record {
            storage = omega (
              arith,
              length-append wrapped (gap' ++ back),
              length-append gap' back,
              length-append wrapped gap',
              length-back v,
            );
            start = v.start;
            len = omega arith;
          };
          appended =
              ap
                (λ s.
                  contents (record { storage = s; start = r.start; len = r.len + length bytes }))
                (sym (append_assoc wrapped gap' back))
              ∙ contents_wrapping wrapped gap' back r.start r.len (length bytes) bytes front_length
                  (omega (arith, length-append back wrapped, length-back v))
                  (take-append_exact bytes (drop (length bytes) gap) (length bytes) refl)
              ∙ ap (λ z. (back ++ z) ++ bytes) (ap (λ k. take k r.storage) where_end)
              ∙ ap (λ z. z ++ bytes) (sym (contents_wrapped v past));
        }

    insert-Inserted : Inserted r bytes (insert read r)
    insert-Inserted = elim (Bool-cases (is_empty r)) [
      | inl e ↦ insert_empty-Inserted e
      | inr e ↦ elim (Bool-cases (leb (length r.storage) (r.start + r.len))) [
        | inl e₂ ↦ insert_wrapped-Inserted e e₂
        | inr e₂ ↦ insert_contiguous-Inserted e e₂
      ]
    ]

-- A reader is offered all the room that a valid buffer has. If it hands over `bytes`, no more than
-- fit, all of them go to the end of the contents, in order.
pub insert_lem :
    {r : RingBuffer} (read : ℕ → Option (List ℕ)) (bytes : List ℕ)
    → IsValid r
    → read (capacity - r.len) ≡ some bytes
    → length bytes ≤ capacity - r.len
    → (r' : RingBuffer) × (insert read r ≡ some (r', length bytes))
      × IsValid r'
      × (contents r' ≡ contents r ++ bytes)
insert_lem read bytes v given fits =
    let i = insert-Inserted read v bytes given fits in (i.buffer, i.done, i.valid, i.appended)
