-- ===== src/Tests/Levels.antt =====
-- A level of three orders in cells 4, 7 and 2.
use lock_free_limit_order_bo.Prelude.{
  ◌+◌, ◌*◌, ◌≡◌, refl, none, some, [], ◌∷◌, arith, ◌==◌, if◌then◌else◌,
}
use lock_free_limit_order_bo.Order.{Ref, Order, buy, Cells}
use lock_free_limit_order_bo.PriceLevel.{PriceLevel, push_back, remove}
use lock_free_limit_order_bo.PriceLevel.Chain.{nil, cons}
use lock_free_limit_order_bo.PriceLevel.Valid.{IsLevel, Frame}
use lock_free_limit_order_bo.PriceLevel.Push.{push_back-IsLevel}
use lock_free_limit_order_bo.PriceLevel.Remove.{remove-IsLevel}

abbrev pub order : Ref → Order
order o = record {
  id = o + 100;
  price = 50;
  quantity = 10 * o;
  remaining = 10 * o;
  timestamp = 0;
  side = buy;
}

abbrev pub cells : Cells
cells = record {
  order = order;
  next = λ o. if o == 4 then some 7 else if o == 7 then some 2 else none;
  prev = λ o. if o == 7 then some 4 else if o == 2 then some 7 else none;
}

abbrev level : PriceLevel
level = record { head = some 4; tail = some 2; count = 3; total_quantity = 130 }

level-IsLevel : IsLevel cells level (4 ∷ 7 ∷ 2 ∷ [])
level-IsLevel = record {
  chain = cons refl refl (cons refl refl (cons refl refl (nil refl refl)));
  distinct = (refl, (refl, (refl, tt)));
  counted = refl;
  totalled = refl;
}

push_back-IsLevel_example :
    let (c, l) = push_back 9 cells level in
    IsLevel c l (4 ∷ 7 ∷ 2 ∷ 9 ∷ []) × Frame (4 ∷ 7 ∷ 2 ∷ []) 9 cells c
push_back-IsLevel_example = push_back-IsLevel {c = cells} {l = level} {o = 9} level-IsLevel refl

remove-IsLevel_example :
    let (c, l) = remove 7 cells level in
    IsLevel c l (4 ∷ 2 ∷ []) × Frame (4 ∷ 2 ∷ []) 7 cells c × (c.next 7 ≡ none) × (c.prev 7 ≡ none)
remove-IsLevel_example =
    remove-IsLevel {c = cells} {l = level} {o = 7} (4 ∷ []) (2 ∷ []) level-IsLevel (omega arith)
