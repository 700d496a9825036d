-- ===== src/OrderBook.antt =====
-- include/order_book.h: the book of resting orders, and the operations on it.
pub mod State
pub mod Match
pub mod Operations
pub mod Queries
pub mod Sides
pub mod Totals
pub mod Whole
pub mod Relisted
pub mod Change
pub mod Moves
pub mod Joins
pub mod Priority
pub mod Traded
pub mod Fill
pub mod Index
pub mod Run
pub mod Future
pub mod Filled
pub mod Step
pub mod Level
pub mod Within
pub mod Sweep
pub mod Loop
pub mod Matched
pub mod Joined
pub mod Resting
pub mod Settle
pub mod Views
pub mod Entry
pub mod Reach
pub mod Accept
pub mod Conserve
pub mod Validity
pub mod Withdraw
pub mod Sound
pub mod Lessened
pub mod Follows
pub mod Amends
pub mod Fresh
pub mod Commands
pub mod Scan
pub mod Reduces
pub mod Better
pub mod Cancels
pub mod Crossed
pub mod Rests
pub mod Refused
pub mod Depth
