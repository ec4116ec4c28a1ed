-- ===== src/Exec/RingBuffer.antt =====
-- src/exec/use_pty/pipe/ring_buffer.rs. The reader and the writer are outside of the program:
-- `read` gives the bytes that a reader hands over, and `write` how many bytes of the slices a writer
-- takes; `none` is an I/O error, on which the buffer is left as it is. A slice is given by its bounds.
mod Lists
pub mod Fifo
pub mod Remove
pub mod Fill
pub mod Insert
mod Tests
use sudo_rs.Prelude.{
  ℕ, zero, suc, ◌+◌, ◌-◌, ◌*◌, ◌%◌, ◌≤◌, Bool, true, false, Option, none, some, List, [], ◌∷◌, ◌++◌,
}
use sudo_rs.Prelude.Tests.{if◌then◌else◌, ◌==◌, leb, ◌>>=◌}
use sudo_rs.Prelude.Lists.{length, take, drop, replicate}

pub record RingBuffer : Type 0 where
  pub storage : List ℕ
  pub start : ℕ
  pub len : ℕ

-- `RingBuffer::LEN`
abbrev pub capacity : ℕ
capacity = 8 * 1024

unfoldable pub new : RingBuffer
new = record { storage = replicate capacity 0; start = 0; len = 0 }

abbrev pub is_full : RingBuffer → Bool
is_full r = r.len == length r.storage

abbrev pub is_empty : RingBuffer → Bool
is_empty r = r.len == 0

-- `storage[a..b]`
abbrev pub slice : ℕ → ℕ → List ℕ → List ℕ
slice a b xs = take (b - a) (drop a xs)

-- A slice of the storage after bytes, of which there are no more than it holds, are put at its start.
abbrev pub fill : List ℕ → List ℕ → List ℕ
fill part bytes = bytes ++ drop (length bytes) part

-- `read` gives the bytes that a reader hands over when there is room for so many.
module _ (read : ℕ → Option (List ℕ)) where
  -- Cases 1.1 and 1.3: what is read fills `first`, then the `second` slice.
  unfoldable pub read_vectored : List ℕ → List ℕ → Option (List ℕ × List ℕ × ℕ)
  read_vectored first second = do
    bytes ← read (length first + length second)
    some (
      fill first (take (length first) bytes),
      fill second (drop (length first) bytes),
      length bytes,
    )

  unfoldable pub insert_empty : RingBuffer → Option (List ℕ × ℕ)
  unfolding read_vectored
  insert_empty r = do
    (first, second, n) ← read_vectored (drop r.start r.storage) (take r.start r.storage)
    some (second ++ first, n)

  unfoldable pub insert_wrapped : RingBuffer → Option (List ℕ × ℕ)
  insert_wrapped r = do
    let end = (r.start + r.len) % length r.storage
    bytes ← read (length (slice end r.start r.storage))
    some (
      take end r.storage ++ (fill (slice end r.start r.storage) bytes ++ drop r.start r.storage),
      length bytes,
    )

  unfoldable pub insert_contiguous : RingBuffer → Option (List ℕ × ℕ)
  unfolding read_vectored
  insert_contiguous r = do
    let end = r.start + r.len
    let mid = take end r.storage
    (first, second, n) ← read_vectored (drop end r.storage) (take r.start mid)
    some ((second ++ drop r.start mid) ++ first, n)

  -- The new buffer and the number of bytes inserted.
  unfoldable pub insert : RingBuffer → Option (RingBuffer × ℕ)
  unfolding insert_empty insert_wrapped insert_contiguous
  insert r = do
    (storage, inserted_len) ←
        if is_empty r
        then insert_empty r
        else if leb (length r.storage) (r.start + r.len)
        then insert_wrapped r
        else insert_contiguous r
    some (record r { storage = storage; len = r.len + inserted_len }, inserted_len)

-- The slices that `remove` hands to the writer, in order.
unfoldable pub filled : RingBuffer → List ℕ
filled r =
    let end = r.start + r.len in
    if is_full r
    then drop r.start r.storage ++ take r.start r.storage
    else if leb (length r.storage) end
    then drop r.start r.storage ++ take (end % length r.storage) r.storage
    else slice r.start end r.storage

-- `write` gives the number of bytes that a writer takes of what it is offered.
unfoldable pub remove : (List ℕ → Option ℕ) → RingBuffer → Option (RingBuffer × ℕ)
unfolding filled
remove write r = do
  removed_len ← write (filled r)
  some (
    record r { start = (r.start + removed_len) % capacity; len = r.len - removed_len },
    removed_len,
  )
