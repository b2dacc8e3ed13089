-- ===== src/Tool/Examples.antt =====
-- Lists and buffer factories on a concrete heap.
use multi_port_convertor.Base.{
  ℕ, zero, suc, ◌+◌, ◌≡◌, ◌<◌, refl, [], ◌∷◌, arith, if◌then◌else◌, ◌==◌, done, false,
}
use multi_port_convertor.Tool.List.{Ptr, Heap, fault, list_del}
use multi_port_convertor.Tool.List.Ring.{IsRing, Ends}
use multi_port_convertor.Tool.List.Delete.{Deleted, list_del-remove}
use multi_port_convertor.Tool.BufFactory.{BufferFactory, create_buf_factory, buf_factory_produce}
use multi_port_convertor.Tool.BufFactory.Refine.{IsFree, Produces, produce-refines}
use multi_port_convertor.Tool.BufFactory.Runs.{IsApart, IsPool, heap_pool, heap_calls-Same}
use multi_port_convertor.Tool.BufFactory.Serves.{Serves, create_buf_factory-Serves}
use multi_port_convertor.Tool.Pool.{producing, recycling, calls, Same}
use multi_port_convertor.Tool.BufFactory.Create.{IsGiven, create_buf_factory-double_free}

-- The head 1 and the nodes 2 and 3, whose owners are 0 and 1.
abbrev heap : Heap
heap p =
    if p == 1
    then record { next = 2; prev = 3; owner = 1 }
    else if p == 2
    then record { next = 3; prev = 1; owner = 0 }
    else if p == 3
    then record { next = 1; prev = 2; owner = 1 }
    else record { next = 0; prev = 0; owner = 2 }

heap-IsRing : IsRing heap 1 (2 ∷ 3 ∷ [])
heap-IsRing = record { links = ground arith; distinct = ground arith; no_null = refl }

list_del-remove_example : Ends (Deleted heap 2 1 (3 ∷ [])) (list_del 2 heap)
list_del-remove_example = list_del-remove [] 2 (3 ∷ []) heap-IsRing

-- A factory whose buffers 0 and 1 are free, while 2 is in use.
abbrev factory : BufferFactory
factory = record { list = 1; buf_array = λ i. record { memory = 10 + i; node = 2 + i } }

factory-IsFree : IsFree heap factory (0 ∷ 1 ∷ [])
factory-IsFree = record { ring = heap-IsRing; owned = (refl, (refl, tt)) }

produce-refines_example :
    Produces heap factory (done (0, 1 ∷ [])) (buf_factory_produce factory heap)
produce-refines_example = produce-refines (0 ∷ 1 ∷ []) factory-IsFree

apart : (i j : ℕ) → (i == j) ≡ false → (2 + i == 2 + j) ≡ false
apart i j h = ground arith

factory-IsApart : IsApart 3 factory
factory-IsApart = record {
  no_null = λ i l e. absurd (omega arith);
  no_head = λ i l. ground arith;
  differ = λ i j l m h. apart i j h;
}

owner_of : (i : ℕ) → i < 3 → (heap (2 + i)).owner ≡ i
owner_of zero l = refl
owner_of (suc zero) l = refl
owner_of (suc (suc zero)) l = refl
owner_of (suc (suc (suc i))) l = absurd (omega arith)

factory-IsPool : IsPool 3 factory heap (0 ∷ 1 ∷ [])
factory-IsPool = record {
  is_free = factory-IsFree;
  owners = owner_of;
  known = (omega arith, (omega arith, tt));
}

heap_calls-Same_example :
    Same
      (heap_pool 3 factory factory-IsApart)
      (done (0 ∷ 1 ∷ [], 2 ∷ []))
      (calls (heap_pool 3 factory factory-IsApart) (recycling 2 ∷ producing ∷ producing ∷ []) heap)
heap_calls-Same_example =
    heap_calls-Same 3 factory factory-IsApart (recycling 2 ∷ producing ∷ producing ∷ [])
      (0 ∷ 1 ∷ []) heap factory-IsPool (omega arith, refl, tt)

-- Blocks for the first two buffers, and no node for the third.
abbrev blocks : ℕ → Ptr × Ptr
blocks i = if i == 0 then (20, 2) else if i == 1 then (21, 3) else (22, 0)

given : (j : ℕ) → j < 2 → IsGiven blocks 1 j
given zero h = record {
  memory = λ e. absurd (omega arith);
  node = ((λ e. absurd (omega arith)), refl);
}
given (suc zero) h = record {
  memory = λ e. absurd (omega arith);
  node = ((λ e. absurd (omega arith)), refl);
}
given (suc (suc j)) h = absurd (omega arith)

create_buf_factory-Serves_example :
    Serves 2
      (producing ∷ producing ∷ recycling 0 ∷ producing ∷ [])
      (create_buf_factory 2 1 9 blocks heap)
create_buf_factory-Serves_example =
    create_buf_factory-Serves blocks 2 1 9 heap
      (producing ∷ producing ∷ recycling 0 ∷ producing ∷ []) (λ e. absurd (omega arith))
      (λ e. absurd (omega arith)) given (omega arith, refl, tt)

create_buf_factory-double_free_example : create_buf_factory 4 1 9 blocks heap ≡ fault
create_buf_factory-double_free_example =
    create_buf_factory-double_free blocks 2 1 1 9 heap (λ e. absurd (omega arith))
      (λ e. absurd (omega arith)) (omega arith) given (λ e. absurd (omega arith)) refl
