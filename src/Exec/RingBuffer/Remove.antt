-- ===== src/Exec/RingBuffer/Remove.antt =====
-- `remove` of src/exec/use_pty/pipe/ring_buffer.rs as an operation on the queue.
use sudo_rs.Prelude.{ℕ, ◌+◌, ◌-◌, ◌%◌, ◌≤◌, ◌<◌, Option, some, List, ◌++◌, arith}
use sudo_rs.Prelude.{◌≡◌, sym, ap, ◌∙◌}
use native.Mathlib.Decide.{dec_lt}
use sudo_rs.Prelude.Lists.{length, take, drop, length-drop}
use sudo_rs.Exec.RingBuffer.{RingBuffer, capacity, remove}
use sudo_rs.Exec.RingBuffer.Fifo.{IsValid, contents, filled-contents}
use sudo_rs.Exec.RingBuffer.Lists.{
  take-append_le, drop-append_le, drop-append_ge, drop-drop, take-take, drop-take, take-append-take,
}

-- The list read from `s` on, going round at its end.
rotate : ℕ → List ℕ → List ℕ
rotate s xs = drop s xs ++ take s xs

-- Going round from `n` further on, up to where the bytes passed over begin.
rotate_further :
    (xs : List ℕ) (s n m : ℕ)
    → length xs ≡ capacity
    → s < capacity
    → m + n ≤ capacity
    → take m (rotate ((s + n) % capacity) xs) ≡ take m (drop n (rotate s xs))
unfolding rotate
rotate_further xs s n m l h k = elim (dec_lt (s + n) capacity) [
  | yes p ↦
      let e : (s + n) % capacity ≡ s + n = omega arith in
      rw e (
        take-append-take (drop (s + n) xs) xs m s (s + n) (omega (arith, length-drop (s + n) xs))
          (omega arith)
        ∙ ap (λ z. take m (z ++ take s xs)) (sym (drop-drop n s xs))
        ∙ ap (take m)
            (sym (drop-append_le (drop s xs) (take s xs) n (omega (arith, length-drop s xs)))))
  | no p ↦
      let q = s + n - capacity in
      let e : (s + n) % capacity ≡ q = omega arith in
      let c : n - length (drop s xs) ≡ q = omega (arith, length-drop s xs) in
      let passed : drop n (drop s xs ++ take s xs) ≡ take (s - q) (drop q xs) =
        drop-append_ge (drop s xs) (take s xs) n (omega (arith, length-drop s xs))
        ∙ ap (λ z. drop z (take s xs)) c
        ∙ drop-take q s xs in
      rw e (
        take-append_le (drop q xs) (take q xs) m (omega (arith, length-drop q xs))
        ∙ sym (take-take m (s - q) (drop q xs) (omega arith))
        ∙ ap (take m) (sym passed))
]

-- The buffer after `n` bytes are taken from its front.
abbrev pub removed : RingBuffer → ℕ → RingBuffer
removed r n = record r { start = (r.start + n) % capacity; len = r.len - n }

contents-removed :
    {r : RingBuffer}
    → IsValid r
    → (n : ℕ) → n ≤ r.len
    → contents (removed r n) ≡ drop n (contents r)
unfolding contents rotate
contents-removed {r} v n h =
    rotate_further r.storage r.start n (r.len - n) v.storage v.start (omega arith)
    ∙ sym (drop-take n r.len (rotate r.start r.storage))

-- A writer is offered the contents of a valid buffer, in order. If it takes the first `n` of them,
-- these leave the buffer and the others stay, in order.
pub remove_lem :
    {r : RingBuffer} (write : List ℕ → Option ℕ) (n : ℕ)
    → IsValid r
    → write (contents r) ≡ some n
    → n ≤ r.len
    → (r' : RingBuffer) × (remove write r ≡ some (r', n))
      × IsValid r'
      × (contents r' ≡ drop n (contents r))
unfolding remove
remove_lem {r} write n v e h = (
  removed r n,
  rw (filled-contents v, e),
  record { storage = v.storage; start = omega arith; len = omega arith },
  contents-removed v n h,
)
