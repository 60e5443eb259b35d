-- ===== src/SlabMulti/Facade.antt =====
-- Allocators/SlabMulti.h, the class `SlabMulti`: the calls of a handle go to the interface that it refers
-- to. A call through a handle whose interface is deleted is `none`.
use allocators.Common.{ℕ, Option, none, some, ◌>>=◌, if◌then◌else◌}
use allocators.SlabMulti.Dispatcher.{GlobalDispatch}
use allocators.SlabMulti.Interface
use allocators.SlabMulti.Interface.{Buckets}
use allocators.SlabMulti.Handles.{Handles, update}

-- The handles, the buckets of each interface, and the dispatcher of the program.
pub record World : Type 0 where
  pub handles : Handles
  pub buckets : ℕ → Buckets
  pub dispatcher : GlobalDispatch

-- `*interfacePtr`
unfoldable pub interface_of : (h : ℕ) → World → Option ℕ
interface_of h w = do i ← w.handles.interface h; if w.handles.deleted i then none else some i

-- `allocate<T>(count)` of the handle `h` in the thread `id`.
unfoldable pub allocate :
    (raw : ℕ) (fresh : ℕ → ℕ → ℕ) (h id size count : ℕ) → World → Option (ℕ × World)
unfolding interface_of Interface.allocate
allocate raw fresh h id size count w = do
  i ← interface_of h w
  (p, d, bs) ← Interface.allocate raw fresh id size count w.dispatcher (w.buckets i)
  some (p, record w { dispatcher = d; buckets = update w.buckets i bs })

unfoldable pub deallocate : (fresh : ℕ → ℕ → ℕ) (h ptr id size n : ℕ) → World → Option World
unfolding interface_of Interface.deallocate
deallocate fresh h ptr id size n w = do
  i ← interface_of h w
  (d, bs) ← Interface.deallocate fresh ptr id size n w.dispatcher (w.buckets i)
  some (record w { dispatcher = d; buckets = update w.buckets i bs })
