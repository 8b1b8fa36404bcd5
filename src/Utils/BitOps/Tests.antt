-- ===== src/Utils/BitOps/Tests.antt =====
-- The bit operations at concrete words.
use php_botan.Base.{◌≡◌, refl, arith}
use php_botan.Utils.BitOps.{low_bit, ctz}
use php_botan.Utils.BitOps.Lowest.{IsLowest, ctz-IsLowest}

ctz-IsLowest_example : IsLowest 0x60 (ctz 0x60) (low_bit 0x60)
ctz-IsLowest_example = ctz-IsLowest 0x60 (omega arith)

ctz_run : ctz 0x60 ≡ 5
unfolding ctz
ctz_run = refl
