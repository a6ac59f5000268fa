-- ===== src/Ranges/Tests.antt =====
-- The theorems on ranges at concrete ones.
use libcsics.Base.{◌≡◌, false, ◌&&◌, ◌||◌, arith}
use libcsics.Ranges.{Range, contains, difference}
use libcsics.Ranges.Sets.{held, exactly_one, difference-exactly_one}

abbrev decade : Range
decade = record { bottom = 10; top = 20 }

abbrev middle : Range
middle = record { bottom = 13; top = 17 }

difference-exactly_one_example :
    ((held (difference decade middle).0 12 || held (difference decade middle).1 12)
      ≡ exactly_one (contains decade 12) (contains middle 12))
    × ((held (difference decade middle).0 12 && held (difference decade middle).1 12) ≡ false)
difference-exactly_one_example = difference-exactly_one decade middle 12 (omega arith) (omega arith)
