-- ===== src/Prelude/Bytes.antt =====
-- Numbers as bytes, and reading from a list of bytes.
use sudo_rs.Prelude.{
  ℕ, zero, suc, ◌+◌, ◌*◌, ◌/◌, ◌%◌, ◌<◌, Bool, true, false, Option, none, some, [], ◌∷◌, ◌++◌,
  arith,
}
use sudo_rs.Prelude.{◌≡◌, refl, sym, ap, ◌∙◌, append-nil, inl, inr}
use mathlib.Core.Path.{subst}
use sudo_rs.Prelude.Tests.{if◌then◌else◌, ◌>>=◌, Option-cases}
use sudo_rs.Prelude.Lists.{length}
use sudo_rs.Prelude.Text.{Text}

-- `to_le_bytes` of a number of `k` bytes
unfoldable pub to_le_bytes : ℕ → ℕ → Text
to_le_bytes zero n = []
to_le_bytes (suc k) n = n % 256 ∷ to_le_bytes k (n / 256)

unfoldable pub from_le_bytes : Text → ℕ
from_le_bytes [] = 0
from_le_bytes (b ∷ bs) = b + 256 * from_le_bytes bs

-- How many numbers `k` bytes hold.
unfoldable pub capacity_of : ℕ → ℕ
capacity_of zero = 1
capacity_of (suc k) = 256 * capacity_of k

unfoldable pub reverse_onto : Text → Text → Text
reverse_onto [] acc = acc
reverse_onto (b ∷ bs) acc = reverse_onto bs (b ∷ acc)

-- `to_ne_bytes` and `from_ne_bytes`, on a machine of either order of bytes.
unfoldable pub to_ne_bytes : Bool → ℕ → ℕ → Text
unfolding to_le_bytes reverse_onto
to_ne_bytes big_endian k n =
    if big_endian then reverse_onto (to_le_bytes k n) [] else to_le_bytes k n

unfoldable pub from_ne_bytes : Bool → Text → ℕ
unfolding from_le_bytes reverse_onto
from_ne_bytes big_endian bs =
    if big_endian then from_le_bytes (reverse_onto bs []) else from_le_bytes bs

-- `read_exact`: so many bytes and those that follow, if there are enough.
unfoldable pub read_exact : ℕ → Text → Option (Text × Text)
read_exact zero bs = some ([], bs)
read_exact (suc k) [] = none
read_exact (suc k) (b ∷ bs) = read_exact k bs >>= λ r. some (b ∷ r.0, r.1)

pub length-to_le_bytes : (k n : ℕ) → length (to_le_bytes k n) ≡ k
unfolding to_le_bytes
length-to_le_bytes zero n = refl
length-to_le_bytes (suc k) n = ap suc (length-to_le_bytes k (n / 256))

pub from_le_bytes-to_le_bytes : (k n : ℕ) → n < capacity_of k → from_le_bytes (to_le_bytes k n) ≡ n
unfolding to_le_bytes from_le_bytes capacity_of
from_le_bytes-to_le_bytes zero n h = omega arith
from_le_bytes-to_le_bytes (suc k) n h =
    let r = from_le_bytes-to_le_bytes k (n / 256) (omega arith) in omega arith

reverse_onto-reverse_onto :
    (bs acc rest : Text) → reverse_onto (reverse_onto bs acc) rest ≡ reverse_onto acc (bs ++ rest)
unfolding reverse_onto
reverse_onto-reverse_onto [] acc rest = refl
reverse_onto-reverse_onto (b ∷ bs) acc rest = reverse_onto-reverse_onto bs (b ∷ acc) rest

length-reverse_onto : (bs acc : Text) → length (reverse_onto bs acc) ≡ length bs + length acc
unfolding reverse_onto
length-reverse_onto [] acc = omega arith
length-reverse_onto (b ∷ bs) acc = omega (arith, length-reverse_onto bs (b ∷ acc))

pub length-to_ne_bytes : (e : Bool) (k n : ℕ) → length (to_ne_bytes e k n) ≡ k
unfolding to_ne_bytes
length-to_ne_bytes true k n =
    omega (arith, length-reverse_onto (to_le_bytes k n) [], length-to_le_bytes k n)
length-to_ne_bytes false k n = length-to_le_bytes k n

pub from_ne_bytes-to_ne_bytes :
    (e : Bool) (k n : ℕ) → n < capacity_of k → from_ne_bytes e (to_ne_bytes e k n) ≡ n
unfolding to_ne_bytes from_ne_bytes reverse_onto
from_ne_bytes-to_ne_bytes true k n h =
    ap from_le_bytes
      (reverse_onto-reverse_onto (to_le_bytes k n) [] [] ∙ append-nil (to_le_bytes k n))
    ∙ from_le_bytes-to_le_bytes k n h
from_ne_bytes-to_ne_bytes false k n h = from_le_bytes-to_le_bytes k n h

pub read_exact-append : (bs rest : Text) → read_exact (length bs) (bs ++ rest) ≡ some (bs, rest)
unfolding read_exact
read_exact-append [] rest = refl
read_exact-append (b ∷ bs) rest = rw (read_exact-append bs rest) refl

pub read_exact-all :
    (k : ℕ) (bs rest : Text) → length bs ≡ k → read_exact k (bs ++ rest) ≡ some (bs, rest)
read_exact-all k bs rest h =
    subst (λ n. read_exact n (bs ++ rest) ≡ some (bs, rest)) h (read_exact-append bs rest)

-- A read takes a prefix of the length asked for.
pub read_exact-inv :
    (k : ℕ) (bs a rest : Text)
    → read_exact k bs ≡ some (a, rest)
    → (bs ≡ a ++ rest) × (length a ≡ k)
unfolding read_exact
read_exact-inv zero bs a rest h = (cc, cc)
read_exact-inv (suc k) [] a rest h = absurd (cc)
read_exact-inv (suc k) (b ∷ bs) a rest h = elim (Option-cases (read_exact k bs)) [
  | inl e ↦ absurd (cc (rw (e, read_exact) at h))
  | inr (r, e) ↦
      let m : some (b ∷ r.0, r.1) ≡ some (a, rest) = rw (e, read_exact) at h in
      let (p, q) = read_exact-inv k bs r.0 r.1 e in
      let u : b ∷ r.0 ≡ a = cc in let v : r.1 ≡ rest = cc in (cc, sym (ap length u) ∙ ap suc q)
]
