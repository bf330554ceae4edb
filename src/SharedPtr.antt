-- ===== src/SharedPtr.antt =====
-- null/shared_ptr.h and null/weak_ptr.h: reference counting with control blocks.
pub mod ControlBlock
pub mod Counts
pub mod OneBlock
pub mod Steps
pub mod Owner
pub mod Observer
pub mod Handles
pub mod WeakHandles
pub mod Program
pub mod Threads
pub mod Units
pub mod Concurrent
pub mod Variables
pub mod Safety
pub mod Lifetime
pub mod Tests
