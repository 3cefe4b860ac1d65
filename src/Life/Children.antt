-- ===== src/Life/Children.antt =====
-- include/Task.hpp with include/BarrierQueue.hpp: what the count of owners says at a barrier.
use rg.Life.{Life}
