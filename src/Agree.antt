-- ===== src/Agree.antt =====
-- The book of include/lob/order_book.h beside that of include/lob/naive_book.h, its executable
-- specification. `Mirror` relates their states; `Remove`, `Erase`, `Fill`, `PopFront`, `Settle`,
-- `Flight`, `Rest` and `Sweep` are steps on both; `Add`, `Cancel` and `Queries` compare whole
-- operations, and `Run` scripts of them.
pub mod Mirror
pub mod Remove
pub mod Erase
pub mod Fill
pub mod PopFront
pub mod Settle
pub mod Flight
pub mod Rest
pub mod Sweep
pub mod Add
pub mod Cancel
pub mod Queries
pub mod Run
mod Tests
