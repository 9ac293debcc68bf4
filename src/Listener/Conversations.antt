-- ===== src/Listener/Conversations.antt =====
-- The conversation numbers that a listener gives, one call after another.
use kcp_server.Base.{ℕ, zero, suc, ◌+◌, ◌-◌, ◌%◌, ◌≡◌, arith, u32_max}
use kcp_server.Listener.{make_conv}

-- `conv_make` of a new listener behind `n` calls of make_conv.
unfoldable pub counter_after : ℕ → ℕ
unfolding make_conv
counter_after zero = 1
counter_after (suc n) = (make_conv (counter_after n)).1

counter_after_lem : (n : ℕ) → counter_after n ≡ 1 + n % (u32_max - 1)
unfolding counter_after
counter_after_lem zero = omega arith
counter_after_lem (suc n) = ground (arith, counter_after_lem n)

-- Where one task at a time calls make_conv, the call behind `n` others on a new listener gives one
-- more than `n` modulo u32::MAX - 1: the numbers from 1 to u32::MAX - 1 in turn, over and over.
pub make_conv-cyclic : (n : ℕ) → (make_conv (counter_after n)).0 ≡ 1 + n % (u32_max - 1)
unfolding make_conv
make_conv-cyclic n = counter_after_lem n
