-- ===== src/Transaction.antt =====
-- mini-ics/include/mini_ics/transaction.hpp: transaction ids, the blocking queue and the table of
-- pending requests. Each function that holds the lock is one step; a wait on the condition variable
-- lets the steps of other threads in, which are given as a list.
pub mod Ids
pub mod Queue
pub mod Pending
