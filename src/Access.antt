-- ===== src/Access.antt =====
-- include/resources.hpp: access modes and the test for accesses that must not overlap.
pub mod Laws
use rg.Prelude.{Bool, true, false, not, ◌&&◌, ◌||◌}

-- `enum class AccessMode`
pub data AccessMode : Type 0 where
  read write aadd amul : AccessMode

abbrev pub mode_eq : AccessMode → AccessMode → Bool
mode_eq read read = true
mode_eq write write = true
mode_eq aadd aadd = true
mode_eq amul amul = true
mode_eq _ _ = false

abbrev mode_ne : AccessMode → AccessMode → Bool
mode_ne a b = not (mode_eq a b)

-- `is_serial_access`
unfoldable pub is_serial_access : AccessMode → AccessMode → Bool
is_serial_access a b =
    (mode_ne a read || mode_ne b read)
    && (mode_ne a aadd || mode_ne b aadd)
    && (mode_ne a amul || mode_ne b amul)
