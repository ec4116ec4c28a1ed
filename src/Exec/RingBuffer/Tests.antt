-- ===== src/Exec/RingBuffer/Tests.antt =====
-- Instances of the theorems about the ring buffer.
use sudo_rs.Prelude.{ℕ, ◌-◌, some, [], ◌∷◌, ◌++◌, ◌≡◌, refl, ap, arith}
use sudo_rs.Prelude.{zero, suc, ◌+◌}
use sudo_rs.Prelude.Lists.{length, drop, replicate}
use sudo_rs.Exec.RingBuffer.{RingBuffer, capacity, insert, remove}
use sudo_rs.Exec.RingBuffer.Fifo.{IsValid, contents}
use sudo_rs.Exec.RingBuffer.Insert.{insert_lem}
use sudo_rs.Exec.RingBuffer.Remove.{remove_lem}

-- Two bytes at the end of the storage, and one at its start.
abbrev wrapped : RingBuffer
wrapped = record {
  storage = 30 ∷ replicate (capacity - 3) 0 ++ 10 ∷ 20 ∷ [];
  start = capacity - 2;
  len = 3;
}

length-snoc : (n b c : ℕ) → length (replicate n 0 ++ b ∷ c ∷ []) ≡ n + 2
length-snoc zero b c = refl
length-snoc (suc n) b c = let h = length-snoc n b c in omega arith

wrapped-IsValid : IsValid wrapped
wrapped-IsValid = record {
  storage = ap suc (length-snoc (capacity - 3) 10 20);
  start = omega arith;
  len = omega arith;
}

insert_lem_example :
    (r' : RingBuffer) × (insert (λ room. some (40 ∷ 50 ∷ [])) wrapped ≡ some (r', 2))
    × IsValid r'
    × (contents r' ≡ contents wrapped ++ (40 ∷ 50 ∷ []))
insert_lem_example =
    insert_lem (λ room. some (40 ∷ 50 ∷ [])) (40 ∷ 50 ∷ []) wrapped-IsValid refl (omega arith)

remove_lem_example :
    (r' : RingBuffer) × (remove (λ bytes. some 2) wrapped ≡ some (r', 2))
    × IsValid r'
    × (contents r' ≡ drop 2 (contents wrapped))
remove_lem_example = remove_lem (λ bytes. some 2) 2 wrapped-IsValid refl (omega arith)
