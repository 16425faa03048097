-- ===== src/Malloc.antt =====
-- kernel/malloc.c and kernel/malloc.h: the kernel heap. Regions tile the heap; each begins with a
-- header of 12 bytes. The free ones form a list through `link`, by rising size; in an allocated one
-- `link` is the header of the region before it.
-- The store maps an address to the header that was last written there. Reading where none was is a
-- `fault`, as is an access through NULL.
pub mod Access
pub mod Alloc
pub mod Split
pub mod Ready
pub mod Kfree
pub mod Whole
pub mod Listed
pub mod Merge
pub mod Stage
pub mod Kmalloc
pub mod FreeList
pub mod Inv
pub mod Tiles
mod Tests
use ts_os.Base.{
  ℕ, zero, suc, ◌+◌, ◌-◌, ◌*◌, ◌/◌, ◌%◌, ◌^◌, Bool, true, false, Option, none, some, ◌==◌, ltb, leb,
  if◌then◌else◌, u32, sub32, Outcome, done, halted, fault, out_of_fuel, not,
}

abbrev pub Ptr : Type 0
Ptr = ℕ

abbrev pub null : Ptr
null = 0

abbrev pub region_free : ℕ
region_free = 0

abbrev pub region_alloc : ℕ
region_alloc = 1

-- `R_HEADER_SIZE`, with the two bytes of padding before `size`
abbrev pub r_header_size : ℕ
r_header_size = 12

-- `HEAP_START` and `HEAP_END`
abbrev pub heap_start : ℕ
heap_start = 0xC0C00000

abbrev pub heap_end : ℕ
heap_end = 0xC1000000

-- `struct RegionHeader`
pub record RegionHeader : Type 0 where
  pub type : ℕ
  pub magic : ℕ
  pub size : ℕ
  pub link : Ptr

abbrev pub Store : Type 0
Store = Ptr → Option RegionHeader

pub record Heap : Type 0 where
  pub index_head : Ptr
  pub cell : Store

unfoldable pub put : Store → Ptr → RegionHeader → Store
put c p hd a = if a == p then some hd else c a

abbrev pub M : Type 0 → Type 0
M A = Heap → Outcome (A × Heap)

abbrev pub pure : {A : Type 0} → A → M A
pure a h = done (a, h)

-- `abbrev`, so that a run computes at a known outcome
abbrev pub and_then : {A B : Type 0} → Outcome (A × Heap) → (A → M B) → Outcome (B × Heap)
and_then (done (a, h)) k = k a h
and_then halted k = halted
and_then fault k = fault
and_then out_of_fuel k = out_of_fuel

infixl 5 ◌>>=◌ ◌>>◌
abbrev pub ◌>>=◌ : {A B : Type 0} → M A → (A → M B) → M B
m >>= k = λ h. and_then (m h) k

abbrev pub ◌>>◌ : {A B : Type 0} → M A → M B → M B
m >> k = m >>= λ _. k

abbrev pub when : Bool → M (Unit {0}) → M (Unit {0})
when true m = m
when false m = pure tt

pub read : Ptr → M RegionHeader
read p h = if p == null then fault else elim (h.cell p) [ none ↦ fault | some hd ↦ done (hd, h) ]

pub write : Ptr → RegionHeader → M (Unit {0})
write p hd h = done (tt, record h { cell = put h.cell p hd })

-- `p->link = q`, `p->size = n` and `p->type = t`
pub set_link : Ptr → Ptr → M (Unit {0})
set_link p q = do hd ← read p; write p (record hd { link = q })

pub set_size : Ptr → ℕ → M (Unit {0})
set_size p n = do hd ← read p; write p (record hd { size = n })

pub set_type : Ptr → ℕ → M (Unit {0})
set_type p t = do hd ← read p; write p (record hd { type = t })

abbrev pub get_head : M Ptr
get_head h = done (h.index_head, h)

pub set_head : Ptr → M (Unit {0})
set_head p h = done (tt, record h { index_head = p })

-- `CREATE_HEADER`
abbrev pub create_header : Ptr → ℕ → ℕ → Ptr → M (Unit {0})
create_header addr type size link =
    write addr (record { type = type; magic = 0x87; size = size; link = link })

-- `GET_NEXT_HEADER`, of a header that was read
abbrev pub get_next_header : Ptr → RegionHeader → Ptr
get_next_header p hd = u32 (u32 (p + hd.size) + r_header_size)

-- `REACH_HEAP_END`
abbrev pub reach_heap_end : Ptr → Bool
reach_heap_end p = leb heap_end p

-- More rounds than the heap has headers. Shut, since it is a large number.
pub rounds : ℕ
rounds = (heap_end - heap_start) / r_header_size + 1

pub init_heap : M (Unit {0})
init_heap = do
  set_head heap_start
  create_header heap_start region_free (heap_end - heap_start - r_header_size) null

pub add_alloc_region : Ptr → M (Unit {0})
add_alloc_region addr = do
  hd ← read addr
  let next = get_next_header addr hd
  if reach_heap_end next then pure tt else do
    next_hd ← read next
    if next_hd.type == region_free then pure tt else set_link next addr

-- Nothing calls it.
pub del_alloc_region : Ptr → M (Unit {0})
del_alloc_region addr = do
  hd ← read addr
  let next = get_next_header addr hd
  if reach_heap_end next then pure tt else do
    next_hd ← read next
    if next_hd.type == region_free then pure tt else set_link next hd.link

-- the link by which the free list reaches the region behind `prev`
pub set_next : (prev next : Ptr) → M (Unit {0})
set_next prev next = if prev == null then set_head next else set_link prev next

pub add_free_region : (prev next new : Ptr) → M (Unit {0})
add_free_region prev next new = do set_next prev new; set_link new next

pub del_free_region : (prev deleted : Ptr) → M (Unit {0})
del_free_region prev deleted =
    if deleted == null then pure tt else do hd ← read deleted; set_next prev hd.link

-- The loop that `kmalloc` and `search_and_add_free_region` share (LOOP_FREE_LIST): the first region
-- of at least `size` bytes, and the one before it in the list.
pub find_size : ℕ → (size : ℕ) → (prev cur : Ptr) → M (Ptr × Ptr)
find_size zero size prev cur = λ _. out_of_fuel
find_size (suc k) size prev cur = if cur == null then pure (prev, null) else do
  hd ← read cur
  if leb size hd.size then pure (prev, cur) else find_size k size cur hd.link

pub search_and_add_free_region : Ptr → M (Unit {0})
search_and_add_free_region new = do
  new_hd ← read new
  head ← get_head
  (prev, cur) ← find_size rounds new_hd.size null head
  add_free_region prev cur new

-- `kmalloc` behind its search: the region at `cur` shrinks, and the new one stands at its end.
pub split_region : (size : ℕ) → (prev cur : Ptr) → M Ptr
split_region size prev cur = do
  del_free_region prev cur
  hd ← read cur
  set_size cur (sub32 (sub32 hd.size size) r_header_size)
  search_and_add_free_region cur
  hd ← read cur
  let alloc_hd = get_next_header cur hd
  create_header alloc_hd region_alloc size cur
  add_alloc_region alloc_hd
  pure (u32 (alloc_hd + r_header_size))

-- NULL, or the address of the data behind the new header
pub kmalloc : ℕ → M Ptr
kmalloc size = do
  head ← get_head
  (prev, cur) ← find_size rounds (u32 (size + r_header_size)) null head
  if cur == null then pure null else split_region size prev cur

-- The loops of `kfree`: the place of `target` in the free list.
pub find_ptr : ℕ → (target it1 it2 : Ptr) → M Ptr
find_ptr zero target it1 it2 = λ _. out_of_fuel
find_ptr (suc k) target it1 it2 =
    if it2 == target then pure it1 else do hd ← read it2; find_ptr k target it2 hd.link

-- `if(p){ ... del_free_region(it1,p); }` of `kfree`
pub unlink : Ptr → M (Unit {0})
unlink p =
    when (not (p == null))
      (do head ← get_head; it1 ← find_ptr rounds p null head; del_free_region it1 p)

-- `unified_hd->size += R_HEADER_SIZE + merged->size`
pub absorb : (unified merged : Ptr) → M (Unit {0})
absorb unified merged = do
  m ← read merged
  u ← read unified
  set_size unified (u32 (u.size + u32 (r_header_size + m.size)))

-- NULL instead of a region that is allocated
pub only_free : Ptr → M Ptr
only_free p = do hd ← read p; pure (if hd.type == region_alloc then null else p)

pub kfree : Ptr → M (Unit {0})
kfree addr = do
  let header = sub32 addr r_header_size
  hd ← read header
  let next = get_next_header header hd
  next ← (if reach_heap_end next then pure null else only_free next)
  prev ← only_free hd.link
  set_type header region_free
  unlink prev
  unlink next
  let unified = if prev == null then header else prev
  when (not (prev == null)) (absorb prev header)
  when (not (next == null)) (absorb unified next)
  search_and_add_free_region unified
  hd ← read unified
  let next = get_next_header unified hd
  when (not (reach_heap_end next)) (set_link next unified)
