-- ===== src/MmapReader.antt =====
-- include/mmap_reader.h: the constructor, the destructor and the move of `MmapReader`, with the calls
-- of the operating system that they make, in their order. What the system answers is a parameter.
pub mod Life
use lock_free_limit_order_bo.Prelude.{
  ℕ, Option, none, some, List, [], ◌∷◌, ◌++◌, ◌==◌, if◌then◌else◌, Bool,
}

-- Successful calls, by what they acquire or release: `open`, `mmap`, `munmap` and `close`.
pub data SysCall : Type 0 where
  opened : ℕ → SysCall
  mapped : ℕ → ℕ → SysCall
  advised : ℕ → ℕ → SysCall
  unmapped : ℕ → ℕ → SysCall
  closed : ℕ → SysCall

-- The answers to the constructor: a descriptor, the size that `fstat` tells, and the address of the
-- mapping; each may fail.
pub record Answers : Type 0 where
  pub open_file : Option ℕ
  pub st_size : Option ℕ
  pub mmap : Option ℕ

-- `data_` may be null; a negative `fd_` is `none`.
pub record MmapReader : Type 0 where
  pub address : Option ℕ
  pub size : ℕ
  pub fd : Option ℕ

pub data Error : Type 0 where
  cannot_open fstat_failed mmap_failed : Error

pub data Constructed : Type 0 where
  made : MmapReader → Constructed
  threw : Error → Constructed

map_file : ℕ → ℕ → Option ℕ → Constructed × List SysCall
map_file fd n none = (threw mmap_failed, opened fd ∷ closed fd ∷ [])
map_file fd n (some p) = (
  made (record { address = some p; size = n; fd = some fd }),
  opened fd ∷ mapped p n ∷ advised p n ∷ [],
)

open_fd : ℕ → Option ℕ → Option ℕ → Constructed × List SysCall
unfolding map_file
open_fd fd none m = (threw fstat_failed, opened fd ∷ closed fd ∷ [])
open_fd fd (some n) m =
    if n == 0
    then (made (record { address = none; size = 0; fd = some fd }), opened fd ∷ [])
    else map_file fd n m

unfoldable pub construct : Answers → Constructed × List SysCall
unfolding open_fd
construct a = elim a.open_file [
  | none ↦ (threw cannot_open, [])
  | some fd ↦ open_fd fd a.st_size a.mmap
]

abbrev unmap : Option ℕ → ℕ → List SysCall
unmap none n = []
unmap (some p) n = unmapped p n ∷ []

abbrev close : Option ℕ → List SysCall
close none = []
close (some fd) = closed fd ∷ []

-- The destructor.
unfoldable pub destroy : MmapReader → List SysCall
destroy r = unmap r.address r.size ++ close r.fd

-- What a move leaves of its source; the new reader has the source's fields.
abbrev pub moved_from : MmapReader
moved_from = record { address = none; size = 0; fd = none }
