-- ===== src/Sram/Order.antt =====
-- sram/sram.c, sram_reserve_cmp: the difference of two offsets as an order.
use ldd.Common.{◌^◌, ◌<◌, ◌≡◌, arith, ltb}
use ldd.Sram.{Block, sram_reserve_after}

-- Below 2^31 the comparison orders blocks by their starts; its difference, as an `int`, is positive
-- exactly when the first starts behind the second.
pub sram_reserve_after_lem :
    (a b : Block)
    → a.start < 2 ^ 31
    → b.start < 2 ^ 31
    → sram_reserve_after a b ≡ ltb b.start a.start
unfolding sram_reserve_after
sram_reserve_after_lem a b h k = ground arith
