-- ===== src/Node/Window.antt =====
-- A stretch of the task array as a list.
use rg.Prelude.{
  ℕ, zero, suc, ◌+◌, ◌≤◌, ◌<◌, List, [], ◌∷◌, ◌++◌, ◌≡◌, refl, ap, length, get_or, set, some,
  get_elem?, get_elem?-eq-get_or, get_or-set_ne, get_or-set_self, arith,
}
use rg.Node.{TaskAccess, empty_access}

-- The `k` entries from index `i` on.
abbrev pub window : List TaskAccess → ℕ → ℕ → List TaskAccess
window ts i zero = []
window ts i (suc k) = get_or ts i empty_access ∷ window ts (i + 1) k

pub length-window : (ts : List TaskAccess) (i k : ℕ) → length (window ts i k) ≡ k
length-window ts i zero = refl
length-window ts i (suc k) = ap suc (length-window ts (i + 1) k)

pub window-suc :
    (ts : List TaskAccess) (i k : ℕ)
    → window ts i (suc k) ≡ window ts i k ++ (get_or ts (i + k) empty_access ∷ [])
window-suc ts i zero = ap (λ j. get_or ts j empty_access ∷ []) (omega arith)
window-suc ts i (suc k) =
    let e : i + 1 + k ≡ i + suc k = omega arith in rw (window-suc ts (i + 1) k, e)

pub window_cong :
    (ts : List TaskAccess) (i j k l : ℕ) → i ≡ j → k ≡ l → window ts i k ≡ window ts j l
window_cong ts i j k l p q = rw (p, q)

-- A write outside a stretch leaves it alone.
pub window-set_above :
    (ts : List TaskAccess) (i k j : ℕ) (t : TaskAccess)
    → i + k ≤ j
    → window (set ts j t) i k ≡ window ts i k
window-set_above ts i zero j t h = refl
window-set_above ts i (suc k) j t h = rw (
  get_or-set_ne ts j i t empty_access (omega arith),
  window-set_above ts (i + 1) k j t (omega arith),
)

-- A write just behind a stretch extends it.
pub window-set_end :
    (ts : List TaskAccess) (i k j : ℕ) (t : TaskAccess)
    → i + k ≡ j
    → j < length ts
    → window (set ts j t) i (suc k) ≡ window ts i k ++ (t ∷ [])
window-set_end ts i k j t e h = rw (
  window-suc (set ts j t) i k,
  window-set_above ts i k j t (omega arith),
  e,
  get_or-set_self ts j t empty_access h,
)

pub load_in :
    (ts : List TaskAccess) (i : ℕ)
    → i < length ts
    → get_elem? ts i ≡ some (get_or ts i empty_access)
load_in ts i h = get_elem?-eq-get_or ts i empty_access h
