-- ===== src/Driver/Thread.antt =====
-- include/porth/PorthUtil.hpp: what the driver asks of the scheduler. What pthread_setaffinity_np, pthread_setschedparam
-- and numa_node_of_cpu return is an argument.
use porth_core.Base.{ℕ, Option, none, some, ◌==◌, if◌then◌else◌}
use porth_core.Base.Int.{ℤ, pos, negsuc}
use porth_core.Driver.{Status, error_affinity, error_priority}

-- `pin_thread_to_core`: `none` is success, as of std::expected<void, PorthStatus>.
unfoldable pub pin_thread_to_core : ℕ → Option Status
pin_thread_to_core result = if result == 0 then none else some error_affinity

-- `set_realtime_priority`
unfoldable pub set_realtime_priority : ℕ → Option Status
set_realtime_priority result = if result == 0 then none else some error_priority

-- `get_current_numa_node`
unfoldable pub get_current_numa_node : ℤ → ℕ
get_current_numa_node (pos node) = node
get_current_numa_node (negsuc _) = 0
