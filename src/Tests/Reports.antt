-- ===== src/Tests/Reports.antt =====
-- The tracer and the reader of files at concrete inputs.
use lock_free_limit_order_bo.Prelude.{◌≡◌, refl, some, [], ◌∷◌}
use lock_free_limit_order_bo.LatencyTracer.Samples.{run as trace}
use lock_free_limit_order_bo.MmapReader.{Answers, construct}
use lock_free_limit_order_bo.MmapReader.Life.{
  move, end_life, life, count, closes, opens, unmaps, maps, life-released,
}

abbrev answers : Answers
answers = record { open_file = some 3; st_size = some 4096; mmap = some 8192 }

-- A reader that is moved twice; the three readers are destroyed.
life-released_example :
    let calls = (life answers (move 0 ∷ move 0 ∷ end_life 1 ∷ end_life 0 ∷ end_life 0 ∷ [])).1 in
    (count (closes 3) calls ≡ count (opens 3) calls)
    × (count (unmaps 8192 4096) calls ≡ count (maps 8192 4096) calls)
unfolding construct
life-released_example =
    life-released answers (move 0 ∷ move 0 ∷ end_life 1 ∷ end_life 0 ∷ end_life 0 ∷ []) 3 8192 4096
      refl
