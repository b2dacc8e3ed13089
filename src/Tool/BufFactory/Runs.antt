-- ===== src/Tool/BufFactory/Runs.antt =====
-- The factory of tool/buf_factory.c on the heap, over any calls of its users.
use multi_port_convertor.Base.{
  ℕ, ◌<◌, ◌≡◌, ◌≢◌, refl, ◌∙◌, false, List, [], ◌∷◌, All, arith, Outcome, done, exits, faults, ◌==◌,
  has,
}
use multi_port_convertor.Tool.List.{null, Heap, Run, ok, fault, exit}
use multi_port_convertor.Tool.List.Ring.{SameOwners, Ends}
use multi_port_convertor.Tool.List.Insert.{IsNew}
use multi_port_convertor.Tool.BufFactory.{BufferFactory, buf_factory_produce, buf_factory_recycle}
use multi_port_convertor.Tool.BufFactory.Refine.{
  nodes, IsFree, Produces, produce-refines, recycle-refines,
}
use multi_port_convertor.Tool.FreeList
use multi_port_convertor.Tool.Pool.{Pool, queue_pool, Call, AreLegal, calls, Same, calls-Same}

-- What a run on the heap comes to, for a caller.
abbrev pub as_outcome : {A : Type 0} → Run A → Outcome (A × Heap)
as_outcome (ok a g) = done (a, g)
as_outcome fault = faults
as_outcome exit = exits

abbrev pub heap_of : Run (Unit {0}) → Outcome Heap
heap_of (ok a g) = done g
heap_of fault = faults
heap_of exit = exits

-- The nodes of the `n` buffers are different objects, apart from the head.
pub record IsApart (n : ℕ) (f : BufferFactory) : Type 0 where
  pub no_null : (i : ℕ) → i < n → (f.buf_array i).node ≢ null
  pub no_head : (i : ℕ) → i < n → ((f.buf_array i).node == f.list) ≡ false
  pub differ :
      (i j : ℕ)
      → i < n
      → j < n
      → (i == j) ≡ false
      → ((f.buf_array i).node == (f.buf_array j).node) ≡ false

-- The free buffers on the heap, with the owners of all nodes.
pub record IsPool (n : ℕ) (f : BufferFactory) (h : Heap) (free : List ℕ) : Type 0 where
  pub is_free : IsFree h f free
  pub owners : (i : ℕ) → i < n → (h (f.buf_array i).node).owner ≡ i
  pub known : All (λ b. b < n) free

pub known-append :
    (n b : ℕ) (free : List ℕ)
    → b < n
    → All (λ c. c < n) free
    → All (λ c. c < n) (FreeList.recycle free b)
known-append n b [] l k = (l, tt)
known-append n b (c ∷ free) l k = (k.0, known-append n b free l k.1)

module _ (n : ℕ) (f : BufferFactory) (a : IsApart n f) where
  node-new :
      (b : ℕ) (free : List ℕ)
      → b < n
      → All (λ c. c < n) free
      → has b free ≡ false
      → has (f.buf_array b).node (nodes f.buf_array free) ≡ false
  node-new b [] l k h = refl
  node-new b (c ∷ free) l k h = ground (arith, a.differ b c l k.0, node-new b free l k.1)

  pub node-IsNew :
      (b : ℕ) (free : List ℕ)
      → b < n
      → All (λ c. c < n) free
      → has b free ≡ false
      → IsNew (f.buf_array b).node f.list (nodes f.buf_array free)
  node-IsNew b free l k h = (a.no_null b l, ground (arith, a.no_head b l, node-new b free l k h))

  pub produced :
      (h : Heap) (b : ℕ) (free : List ℕ) (r : Run ℕ)
      → IsPool n f h (b ∷ free)
      → Produces h f (done (b, free)) r
      → (t : Heap) × (as_outcome r ≡ done (b, t)) × IsPool n f t free
  produced h b free (ok c g) v (e, w, o) =
      (g, rw e refl, record { is_free = w; owners = λ i l. o _ ∙ v.owners i l; known = v.known.1 })
  produced h b free fault v p = absurd p
  produced h b free exit v p = absurd p

  pub none_left : (h : Heap) (r : Run ℕ) → Produces h f exits r → as_outcome r ≡ exits
  none_left h (ok c g) p = absurd p
  none_left h fault p = absurd p
  none_left h exit p = refl

  pub recycled :
      (h : Heap) (b : ℕ) (free : List ℕ) (r : Run (Unit {0}))
      → IsPool n f h free
      → b < n
      → Ends (λ g. IsFree g f (FreeList.recycle free b) × SameOwners h g) r
      → (t : Heap) × (heap_of r ≡ done t) × IsPool n f t (FreeList.recycle free b)
  recycled h b free (ok c g) v l (w, o) = (
    g,
    refl,
    record {
      is_free = w;
      owners = λ i k. o _ ∙ v.owners i k;
      known = known-append n b free l v.known;
    },
  )
  recycled h b free fault v l p = absurd p
  recycled h b free exit v l p = absurd p

  -- The factory on the heap fills the interface of its users.
  abbrev pub heap_pool : Pool n Heap
  heap_pool = record {
    produce = λ h. as_outcome (buf_factory_produce f h);
    recycle = λ b h. heap_of (buf_factory_recycle b f h);
    Holds = IsPool n f;
    produce_first = λ h b free v.
        produced h b free (buf_factory_produce f h) v (produce-refines (b ∷ free) v.is_free);
    produce_none = λ h v. none_left h (buf_factory_produce f h) (produce-refines [] v.is_free);
    recycle_last = λ h b free v l new.
        recycled h b free (buf_factory_recycle b f h) v l
          (recycle-refines free b v.is_free (node-IsNew b free l v.known new) (v.owners b l));
  }

  -- On a heap whose ring holds the free buffers of a factory, with their nodes apart and each
  -- naming its owner: over any calls that recycle only buffers of the factory, and none that is
  -- free, `buf_factory_produce` and `buf_factory_recycle` hand out the buffers that the queue of
  -- free buffers does, leave the same ones free in the same order, and end the process in the same
  -- call or not at all.
  pub heap_calls-Same :
      (cs : List Call) (free : List ℕ) (h : Heap)
      → IsPool n f h free
      → AreLegal n cs free
      → Same heap_pool (calls (queue_pool n) cs free) (calls heap_pool cs h)
  heap_calls-Same cs free h v l = calls-Same heap_pool cs free h v l
