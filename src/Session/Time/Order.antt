-- ===== src/Session/Time/Order.antt =====
-- src/system/time.rs: the derived order of `SystemTime`.
use sudo_rs.Prelude.{◌+◌, true, arith}
use sudo_rs.Prelude.{◌≡◌, ◌↔◌}
use sudo_rs.Prelude.Int.{ℤ, pos, negsuc, pos_part, neg_part, eqb_ℤ}
use sudo_rs.Session.Time.{SystemTime, time_le}

-- Equality by the parts, as the order compares.
eqb_ℤ_parts : (a b : ℤ) → (eqb_ℤ a b ≡ true) ↔ (pos_part a + neg_part b ≡ pos_part b + neg_part a)
eqb_ℤ_parts (pos a) (pos b) = ground arith
eqb_ℤ_parts (pos a) (negsuc b) = ground arith
eqb_ℤ_parts (negsuc a) (pos b) = ground arith
eqb_ℤ_parts (negsuc a) (negsuc b) = ground arith

pub time_le_trans :
    (a b c : SystemTime) → time_le a b ≡ true → time_le b c ≡ true → time_le a c ≡ true
unfolding time_le
time_le_trans a b c p q =
    ground (arith, eqb_ℤ_parts a.secs b.secs, eqb_ℤ_parts b.secs c.secs, eqb_ℤ_parts a.secs c.secs)
