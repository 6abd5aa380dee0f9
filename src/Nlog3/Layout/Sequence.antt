-- ===== src/Nlog3/Layout/Sequence.antt =====
-- Sequence numbers that wrap: nlog3_seq_after orders any window of less than 2 ^ 31 numbers.
use qoraal_flash.Common.{ℕ, ◌+◌, ◌%◌, ◌<◌, ◌^◌, ◌≡◌, true, false, arith, ltb}
use qoraal_flash.Common.Word.{u32_mod, IsWord}
use qoraal_flash.Nlog3.Layout.{seq_after}

-- For numbers that lie less than 2 ^ 31 steps behind one another the wrapped sequences compare as
-- the numbers do, wherever the counter wraps.
pub seq_after_lem :
    (m n : ℕ) → m < n + 2 ^ 31 → n < m + 2 ^ 31 → seq_after (m % u32_mod) (n % u32_mod) ≡ ltb n m
unfolding seq_after
seq_after_lem m n h k = ground arith

-- The order has no loops of length two.
pub seq_after_asymm : (a b : ℕ) → IsWord a → IsWord b → seq_after a b ≡ true → seq_after b a ≡ false
unfolding seq_after
seq_after_asymm a b ha hb h = ground arith
