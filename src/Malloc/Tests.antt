-- ===== src/Malloc/Tests.antt =====
-- Runs of the heap, after `test_heap` of kernel/malloc.c.
use ts_os.Base.{
  ℕ, ◌-◌, ◌+◌, ◌≤◌, ◌≡◌, refl, done, halted, fault, out_of_fuel, Outcome, none, true, false, [],
  ◌∷◌, arith, All, some, ◌==◌, if◌then◌else◌,
}
use ts_os.Malloc.{
  Ptr, Heap, M, pure, ◌>>=◌, ◌>>◌, rounds, read, write, put, set_link, set_size, set_type, set_head,
  set_next, init_heap, add_alloc_region, add_free_region, del_free_region, find_size,
  search_and_add_free_region, split_region, kmalloc, find_ptr, unlink, absorb, only_free, kfree,
  heap_start, r_header_size, null,
}
use ts_os.Malloc.FreeList.{Cells, nil, cons, free_header}
use ts_os.Malloc.Tiles.{end, block, used_header}
use ts_os.Malloc.Inv.{IsHeap}
use ts_os.Malloc.Alloc.{Malloced}
use ts_os.Malloc.Kmalloc.{Listed, kmalloc-Malloced, kmalloc_best_fit}
use ts_os.Malloc.Kfree.{kfree-IsHeap}
use ts_os.Malloc.Whole.{all_free, init_heap-IsHeap, kfree-kmalloc}

abbrev result : {A : Type 0} → Outcome (A × Heap) → Outcome A
result (done (a, h)) = done a
result halted = halted
result fault = fault
result out_of_fuel = out_of_fuel

abbrev blank : Heap
blank = record { index_head = 0; cell = λ a. none }

abbrev heap_of : {A : Type 0} → Outcome (A × Heap) → Heap
heap_of (done (a, h)) = h
heap_of halted = blank
heap_of fault = blank
heap_of out_of_fuel = blank

test_heap_1 : M (Ptr × Ptr)
unfolding read write put set_link set_size set_type set_head set_next init_heap add_alloc_region
    add_free_region del_free_region find_size search_and_add_free_region split_region kmalloc
    find_ptr unlink absorb only_free kfree rounds
test_heap_1 = do
  init_heap
  addr1 ← kmalloc 8
  kfree addr1
  addr2 ← kmalloc 8
  kfree addr2
  pure (addr1, addr2)

result-test_heap_1 : result (test_heap_1 blank) ≡ done (0xC1000000 - 8, 0xC1000000 - 8)
unfolding test_heap_1
result-test_heap_1 = refl

-- after `init_heap`
started :
    (h : Heap) × (init_heap blank ≡ done (tt, h))
    × IsHeap h ((false, all_free) ∷ []) ((heap_start, all_free) ∷ [])
started = init_heap-IsHeap blank

init_heap-IsHeap_example :
    (h : Heap) × (init_heap blank ≡ done (tt, h))
    × IsHeap h ((false, all_free) ∷ []) ((heap_start, all_free) ∷ [])
init_heap-IsHeap_example = init_heap-IsHeap blank

kmalloc-Malloced_example :
    Malloced
      ((false, all_free) ∷ [])
      ((heap_start, all_free) ∷ [])
      8
      started.0
      (kmalloc 8 started.0)
kmalloc-Malloced_example = kmalloc-Malloced started.0 8 started.2 (omega arith)

-- two blocks: a free one of 100 bytes, and an allocated one that fills the heap
abbrev pair : Heap
pair = record {
  index_head = heap_start;
  cell = λ a.
      if a == heap_start
      then some (free_header 0x87 100 null)
      else if a == heap_start + 112
      then some (used_header 0x87 (all_free - 112) heap_start)
      else none;
}

pair-IsHeap : IsHeap pair ((false, 100) ∷ (true, all_free - 112) ∷ []) ((heap_start, 100) ∷ [])
pair-IsHeap = record {
  tiles = block 0x87 refl refl (block 0x87 refl refl (end refl));
  alternate = (refl, tt);
  first = refl;
  chain = cons (omega arith) refl refl nil;
  members = λ a. refl;
  count = refl;
  sorted = (tt, tt);
}

kfree-IsHeap_example :
    (h : Heap) × (kfree (heap_start + 124) pair ≡ done (tt, h))
    × (gs : Cells) × IsHeap h ((false, all_free) ∷ []) gs
kfree-IsHeap_example =
    kfree-IsHeap pair ((false, 100) ∷ []) [] (all_free - 112) ((heap_start, 100) ∷ []) pair-IsHeap

-- what `kmalloc 40` makes of it
split : Heap
unfolding read write put set_link set_size set_type set_head set_next add_alloc_region
    add_free_region del_free_region find_size search_and_add_free_region split_region kmalloc rounds
split = heap_of (kmalloc 40 pair)

split_runs : kmalloc 40 pair ≡ done (heap_start + 72, split)
unfolding split
split_runs = refl

kmalloc_best_fit_example :
    (a s : ℕ) × (heap_start + 72 + 40 ≡ a + r_header_size + s)
    × (40 + r_header_size ≤ s)
    × Listed a s ((heap_start, 100) ∷ [])
    × All (λ (y : Ptr × ℕ). 40 + r_header_size ≤ y.1 → s ≤ y.1) ((heap_start, 100) ∷ [])
kmalloc_best_fit_example =
    kmalloc_best_fit pair 40 pair-IsHeap (omega arith) split_runs (omega arith)

kfree-kmalloc_example :
    (h : Heap) × (kfree (heap_start + 72) split ≡ done (tt, h))
    × (gs : Cells) × IsHeap h ((false, 100) ∷ (true, all_free - 112) ∷ []) gs
kfree-kmalloc_example = kfree-kmalloc pair 40 pair-IsHeap (omega arith) split_runs (omega arith)
