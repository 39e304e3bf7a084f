-- ===== src/Wire/Tests.antt =====
-- The sizes of two structures.
use footprints_ev.Base.{◌≡◌, refl}
use footprints_ev.Wire.{size_of}
use footprints_ev.Wire.Commands.{cmd00, cmd22}

size_of-cmd00 : size_of cmd00 ≡ 89
size_of-cmd00 = refl

-- the pointer is aligned, and the structure padded behind its end
size_of-cmd22 : size_of cmd22 ≡ 48
size_of-cmd22 = refl
