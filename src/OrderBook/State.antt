-- ===== src/OrderBook/State.antt =====
-- The members of `OrderBook`, and `publish`.
use lock_free_limit_order_bo.Prelude.{ℕ, ◌-◌, List, [], ◌∷◌, ◌++◌, update}
use lock_free_limit_order_bo.Order.{Ref, Price, Side, buy, sell, Order, Cells, Event, order_ack}
use lock_free_limit_order_bo.PriceLevel.{PriceLevel, no_orders}
use lock_free_limit_order_bo.OrderPool.{OrderPool, new_pool}
use lock_free_limit_order_bo.OrderMap.{OrderMap, new_map}
use lock_free_limit_order_bo.SpscQueue.{SpscQueue, push}

-- The constants of the source: `MAX_PRICE_LEVELS`, `ORDER_POOL_SIZE`, and the exponents of
-- `ORDER_MAP_SIZE` and `EVENT_QUEUE_SIZE`.
pub record Sizes : Type 0 where
  pub max_price_levels : ℕ
  pub order_pool_size : ℕ
  pub order_map_bits : ℕ
  pub event_queue_bits : ℕ

abbrev pub source_sizes : Sizes
source_sizes = record {
  max_price_levels = 100_000;
  order_pool_size = 1_048_576;
  order_map_bits = 20;
  event_queue_bits = 16;
}

-- One side of the book: `bids_`, `best_bid_` and `bid_total_qty_`, or the same of the asks.
pub record BookSide : Type 0 where
  pub levels : Price → PriceLevel
  pub best : Price
  pub total_qty : ℕ

-- `events` are the calls of `publish` so far, oldest first: what `event_cb_` is called with, if it is
-- set. `clock` counts the calls of `read_cycles`.
pub record Book : Type 0 where
  pub pool : OrderPool
  pub order_map : OrderMap
  pub event_queue : SpscQueue Event
  pub events : List Event
  pub bid : BookSide
  pub ask : BookSide
  pub clock : ℕ

unfoldable pub new_book : Sizes → Cells → Book
new_book z c = record {
  pool = new_pool z.order_pool_size c;
  order_map = new_map;
  event_queue = record { head = 0; tail = 0; buffer = λ i. order_ack 0 };
  events = [];
  bid = record { levels = λ p. no_orders; best = 0; total_qty = 0 };
  ask = record { levels = λ p. no_orders; best = z.max_price_levels - 1; total_qty = 0 };
  clock = 0;
}

abbrev pub cells : Book → Cells
cells b = b.pool.cells

abbrev pub order_at : Book → Ref → Order
order_at b o = b.pool.cells.order o

abbrev pub set_cells : Cells → Book → Book
set_cells c b = record b { pool = record b.pool { cells = c } }

-- The side that orders of a side rest on, and the one that they trade against.
abbrev pub own : Side → Book → BookSide
own buy b = b.bid
own sell b = b.ask

abbrev pub passive : Side → Book → BookSide
passive buy b = b.ask
passive sell b = b.bid

abbrev pub set_own : Side → BookSide → Book → Book
set_own buy h b = record b { bid = h }
set_own sell h b = record b { ask = h }

abbrev pub set_passive : Side → BookSide → Book → Book
set_passive buy h b = record b { ask = h }
set_passive sell h b = record b { bid = h }

abbrev pub set_level : Price → PriceLevel → BookSide → BookSide
set_level p l h = record h { levels = update h.levels p l }

module _ (z : Sizes) where
  unfoldable pub publish : Event → Book → Book
  publish e b = record b {
    event_queue = (push z.event_queue_bits e b.event_queue).1;
    events = b.events ++ e ∷ [];
  }
