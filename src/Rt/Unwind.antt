-- ===== src/Rt/Unwind.antt =====
-- Taking a whole chain of entities off the queues: `dequeue_rt_stack`, from the top down.
pub mod Frames
pub mod Step
pub mod Chains
pub mod Wind
pub mod Walk
pub mod Dequeue
