-- ===== src/Skynet.antt =====
-- examples/skynet.cpp: the tree of tasks, by the value that each task returns to `get`.
pub mod Total
use rg.Prelude.{ℕ, zero, suc, ◌*◌, ◌%◌, ◌^◌}
use rg.Alloc.{add64}

-- `depthOffset` after its loop, which runs `k` times.
unfoldable pub depth_offset : ℕ → ℕ
depth_offset zero = 1
depth_offset (suc k) = depth_offset k * 10 % 2 ^ 64

-- `count` after the values of the first `n` children were added.
unfoldable pub count_children : (ℕ → ℕ) → ℕ → ℕ
count_children child zero = 0
count_children child (suc idx) = add64 (count_children child idx) (child idx)

-- `skynet_one` at a depth that is `DepthMax` less the first argument.
unfoldable pub skynet_one : ℕ → ℕ → ℕ
skynet_one zero base_num = base_num
skynet_one (suc k) base_num =
    count_children (λ idx. skynet_one k (add64 base_num (depth_offset k * idx % 2 ^ 64))) 10
