-- ===== src/Memory.antt =====
-- The C heap as far as the program uses it: blocks that hold one object each.
pub mod Balance
use pub_sub_crawl.Base.{
  ℕ, zero, suc, ◌+◌, ◌<◌, ◌≡◌, refl, ap, arith, Bool, Option, none, some, List, [], ◌∷◌, ◌++◌, ◌==◌,
  if◌then◌else◌, length, get_or, set,
}
use pub_sub_crawl.Message.{Object, part, Ptr, null, local, heap, sizeof}

-- A call of `malloc` is known by its number, which is also the name of the block that it returns.
-- `fails n` is the system's answer to call `n`. A cell is `none` once freed, or if the call failed.
pub record Heap : Type 0 where
  pub cells : List (Option Object)
  pub fails : ℕ → Bool

-- `malloc`, and the writes that fill the block.
unfoldable pub malloc : Heap → Object → Option ℕ × Heap
malloc h o =
    if h.fails (length h.cells)
    then (none, record h { cells = h.cells ++ none ∷ [] })
    else (some (length h.cells), record h { cells = h.cells ++ some o ∷ [] })

-- A read through a pointer; `none` for NULL and for a block that is not there.
abbrev pub load : Heap → Ptr → Option Object
load h null = none
load h (local o) = some o
load h (heap p) = get_or h.cells p none

abbrev free_live : Heap → ℕ → Option Object → Option Heap
free_live h p none = none
free_live h p (some _) = some (record h { cells = set h.cells p none })

-- `free`; `none` is undefined behaviour, a pointer that is no live block.
unfoldable pub free : Heap → Ptr → Option Heap
free h null = some h
free h (local _) = none
free h (heap p) = free_live h p (get_or h.cells p none)

-- `memcpy` of `n` bytes into a block of `n` bytes.
abbrev pub copy : ℕ → Object → Object
copy n o = if n == sizeof o then o else part n o

-- `p == q`. A frame has one object here whose address is taken.
abbrev pub ptr_eq : Ptr → Ptr → Bool
ptr_eq null null = Bool.true
ptr_eq (local _) (local _) = Bool.true
ptr_eq (heap p) (heap q) = p == q
ptr_eq _ _ = Bool.false

abbrev pub weight : Option Object → ℕ
weight none = 0
weight (some _) = 1

pub live_cells : List (Option Object) → ℕ
live_cells [] = 0
live_cells (c ∷ cs) = weight c + live_cells cs

-- How many blocks are allocated and not freed.
unfoldable pub live : Heap → ℕ
unfolding live_cells
live h = live_cells h.cells

pub live_cells-append_one :
    (cs : List (Option Object)) (c : Option Object)
    → live_cells (cs ++ c ∷ []) ≡ live_cells cs + weight c
unfolding live_cells
live_cells-append_one [] c = omega arith
live_cells-append_one (x ∷ cs) c = omega (arith, live_cells-append_one cs c)

pub get_or-append_last :
    (cs : List (Option Object)) (c : Option Object) → get_or (cs ++ c ∷ []) (length cs) none ≡ c
get_or-append_last [] c = refl
get_or-append_last (x ∷ xs) c = get_or-append_last xs c

pub get_or-append_old :
    (cs : List (Option Object)) (c : Option Object) (p : ℕ)
    → p < length cs
    → get_or (cs ++ c ∷ []) p none ≡ get_or cs p none
get_or-append_old [] c p h = absurd (omega arith)
get_or-append_old (x ∷ xs) c zero h = refl
get_or-append_old (x ∷ xs) c (suc p) h = get_or-append_old xs c p (omega arith)

pub set-append_last :
    (cs : List (Option Object)) (c d : Option Object)
    → set (cs ++ c ∷ []) (length cs) d ≡ cs ++ d ∷ []
set-append_last [] c d = refl
set-append_last (x ∷ xs) c d = ap (◌∷◌ x) (set-append_last xs c d)

pub get_or-lt :
    (cs : List (Option Object)) (p : ℕ) (o : Object) → get_or cs p none ≡ some o → p < length cs
get_or-lt [] p o e = cc
get_or-lt (x ∷ xs) zero o e = omega arith
get_or-lt (x ∷ xs) (suc p) o e = omega (arith, get_or-lt xs p o e)

-- A new block is no object that could be read before.
pub ptr_eq-fresh :
    (h : Heap) (p : Ptr) (o : Object)
    → load h p ≡ some o
    → ptr_eq (heap (length h.cells)) p ≡ Bool.false
ptr_eq-fresh h null o e = cc
ptr_eq-fresh h (local _) o e = refl
ptr_eq-fresh h (heap p) o e = ground (arith, get_or-lt h.cells p o e)

-- What a `free` takes away.
pub live_cells-set-none :
    (cs : List (Option Object)) (p : ℕ) (o : Object)
    → get_or cs p none ≡ some o
    → live_cells (set cs p none) + 1 ≡ live_cells cs
unfolding live_cells
live_cells-set-none [] p o e = cc
live_cells-set-none (c ∷ cs) zero o e = ground arith
live_cells-set-none (c ∷ cs) (suc p) o e = omega (arith, live_cells-set-none cs p o e)
