-- ===== src/Wrappers.antt =====
-- examples/multiprocessing/wrappers.py:
-- the classes and functions that give `multiprocessing` the interface of snakefish.
pub mod Thread
pub mod Generator
pub mod Map
mod Tests
