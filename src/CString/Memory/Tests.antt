-- ===== src/CString/Memory/Tests.antt =====
-- A run of `memmove` of src/lib/string.c where the areas overlap.
use heat_os.Prelude.{ℕ, ◌≡◌, refl}
use heat_os.CString.Memory.{memmove, copy_back}
use heat_os.CString.Memory.Moves.{memmove-IsMoved}
use heat_os.CString.Memory.Regions.{IsMoved}

-- Every byte holds its own address.
abbrev numbered : ℕ → ℕ
numbered x = x

up_by_two : memmove 12 10 5 numbered 16 ≡ 14
unfolding memmove copy_back
up_by_two = refl

memmove-IsMoved_example : IsMoved 5 12 10 numbered (memmove 12 10 5 numbered)
memmove-IsMoved_example = memmove-IsMoved 12 10 5 numbered
