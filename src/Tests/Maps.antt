-- ===== src/Tests/Maps.antt =====
-- Tables of eight slots. The ids 1 and 9 share a home, slot 5; the home of 2 is slot 2 and that of 6
-- is slot 6.
use lock_free_limit_order_bo.Prelude.{
  ◌+◌, ◌%◌, ◌^◌, ◌≡◌, ◌≢◌, ◌↔◌, refl, none, some, true, arith, ◌==◌, if◌then◌else◌,
}
use lock_free_limit_order_bo.Order.{OrderId}
use lock_free_limit_order_bo.OrderMap.{
  OrderMap, no_slot, empty_key, hash, mask, insert, find, erase,
}
use lock_free_limit_order_bo.OrderMap.Search.{NoGap, Absent}
use lock_free_limit_order_bo.OrderMap.Insert.{Inserted, insert-Inserted, insert-true_of_empty}
use lock_free_limit_order_bo.OrderMap.Direct.{Direct, Direct-NoGap}
use lock_free_limit_order_bo.OrderMap.Hash.{hash-eq_iff}
use lock_free_limit_order_bo.OrderMap.Erase.{insert-find-Direct, erase-find-Direct}
use lock_free_limit_order_bo.OrderMap.Lost.{erase-find_lost}

homes : (hash 3 1 ≡ 5) × (hash 3 9 ≡ 5) × (hash 3 2 ≡ 2) × (hash 3 6 ≡ 6)
unfolding hash mask
homes = (refl, refl, refl, refl)

hash-eq_iff_example : (hash 3 1 ≡ hash 3 9) ↔ (1 % 2 ^ 3 ≡ 9 % 2 ^ 3)
hash-eq_iff_example = hash-eq_iff 3 (omega arith) 1 9

-- Only the id 1, at home.
abbrev one : OrderMap
one = record {
  slots = λ i. if i == 5 then record { key = 1; val = some 10 } else no_slot;
  size = 1;
}

-- The ids 1 and 6 at home, and 9 behind them.
abbrev displaced : OrderMap
displaced = record {
  slots = λ i.
      if i == 5
      then record { key = 1; val = some 10 }
      else if i == 6
      then record { key = 6; val = some 60 }
      else if i == 7
      then record { key = 9; val = some 90 }
      else no_slot;
  size = 3;
}

one-Direct : Direct 3 one
unfolding hash mask
one-Direct pos inside full = ground arith

one-NoGap : NoGap 3 one
one-NoGap = Direct-NoGap 3 (omega arith) one one-Direct

one-Absent : Absent 3 one 9
one-Absent = λ pos inside. ground arith

insert-Inserted_example : Inserted 3 9 20 one (insert 3 9 20 one).1
insert-Inserted_example =
    insert-Inserted 3 9 20 one (omega arith) one-NoGap one-Absent
      (insert-true_of_empty 3 9 20 one 0 (omega arith) refl)

insert-find-Direct_example :
    let (done, m) = insert 3 6 60 one in
    (done ≡ true)
    × Direct 3 m
    × ((j : OrderId) → j ≢ empty_key → find 3 j m ≡ (if 6 == j then some 60 else find 3 j one))
insert-find-Direct_example =
    insert-find-Direct 3 (omega arith) one 6 60 (omega arith) one-Direct
      (λ pos inside full. ground arith)

erase-find-Direct_example :
    let (done, m) = erase 3 1 one in
    (done ≡ ((one.slots (hash 3 1)).key == 1))
    × Direct 3 m
    × ((j : OrderId) → j ≢ empty_key → find 3 j m ≡ (if 1 == j then none else find 3 j one))
erase-find-Direct_example = erase-find-Direct 3 (omega arith) one 1 (omega arith) one-Direct

erase-find_lost_example :
    (find 3 9 displaced ≡ (displaced.slots (mask 3 (hash 3 1 + 2))).val)
    × ((erase 3 1 displaced).0 ≡ true)
    × (find 3 9 (erase 3 1 displaced).1 ≡ none)
    × (((erase 3 1 displaced).1.slots (mask 3 (hash 3 1 + 2))).key ≡ 9)
unfolding hash mask
erase-find_lost_example =
    erase-find_lost 3 (omega arith) displaced 1 6 9 (omega arith) (omega arith) (omega arith)
      (omega arith) (omega arith) refl refl refl refl refl
