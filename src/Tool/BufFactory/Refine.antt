-- ===== src/Tool/BufFactory/Refine.antt =====
-- `buf_factory_produce` and `buf_factory_recycle` of tool/buf_factory.c against the queue of free
-- buffers of Tool/FreeList.
use multi_port_convertor.Base.{
  ℕ, ◌≡◌, ◌∙◌, refl, List, [], ◌∷◌, ◌++◌, map, map-append, arith, All, done, exits, Outcome,
}
use multi_port_convertor.Tool.List.{
  Ptr, null, Heap, Run, ok, fault, exit, list_del, list_empty, list_add_tail,
}
use multi_port_convertor.Tool.List.Ring.{
  IsRing, SameOwners, Ends, Ends-mono, load-ok, list_empty_lem,
}
use multi_port_convertor.Tool.List.Insert.{IsNew, list_add_tail-append}
use multi_port_convertor.Tool.List.Delete.{list_del-remove}
use multi_port_convertor.Tool.BufFactory.{
  BufferFactory, Buffers, buf_factory_produce, buf_factory_recycle,
}
use multi_port_convertor.Tool.List
use multi_port_convertor.Tool.FreeList

-- The nodes of the buffers.
abbrev pub nodes : Buffers → List ℕ → List Ptr
nodes bufs = map (λ b. (bufs b).node)

-- The node of each buffer names it as its owner.
abbrev pub Owned : Heap → Buffers → List ℕ → Type 0
Owned h bufs = All (λ b. (h (bufs b).node).owner ≡ b)

-- The ring of the factory holds the nodes of the free buffers, in their order.
pub record IsFree (h : Heap) (f : BufferFactory) (free : List ℕ) : Type 0 where
  pub ring : IsRing h f.list (nodes f.buf_array free)
  pub owned : Owned h f.buf_array free

Owned-frame :
    (h g : Heap) (bufs : Buffers) (free : List ℕ)
    → SameOwners h g
    → Owned h bufs free
    → Owned g bufs free
Owned-frame h g bufs [] s o = tt
Owned-frame h g bufs (b ∷ free) s o = (s (bufs b).node ∙ o.0, Owned-frame h g bufs free s o.1)

Owned-append_one :
    (h : Heap) (bufs : Buffers) (free : List ℕ) (b : ℕ)
    → Owned h bufs free
    → (h (bufs b).node).owner ≡ b
    → Owned h bufs (free ++ (b ∷ []))
Owned-append_one h bufs [] b o e = (e, tt)
Owned-append_one h bufs (c ∷ free) b o e = (o.0, Owned-append_one h bufs free b o.1 e)

-- A run on the heap does what the queue of free buffers says, and changes no owner.
abbrev pub Produces : Heap → BufferFactory → Outcome (ℕ × List ℕ) → Run ℕ → Type 0
Produces h f (done (b, free)) (ok c g) = (c ≡ b) × IsFree g f free × SameOwners h g
Produces h f exits exit = Unit {0}
Produces h f _ _ = ⊥

Produces-ok :
    (h : Heap) (f : BufferFactory) (b : ℕ) (free : List ℕ) (r : Run (Unit {0}))
    → Ends (λ g. IsFree g f free × SameOwners h g) r
    → Produces h f (done (b, free)) (List.and_then r (λ _. ok b))
Produces-ok h f b free (ok a g) (p, o) = (refl, p, o)
Produces-ok h f b free fault p = p
Produces-ok h f b free exit p = p

-- On a factory whose ring holds the free buffers, `buf_factory_produce` hands out the one that has
-- been free longest, leaves the others in their order and changes no owner; with no free buffer it
-- ends the process.
pub produce-refines :
    {h : Heap} {f : BufferFactory} (free : List ℕ)
    → IsFree h f free
    → Produces h f (FreeList.produce free) (buf_factory_produce f h)
unfolding buf_factory_produce
produce-refines {h} {f} [] v = rw (list_empty_lem [] v.ring) tt
produce-refines {h} {f} (b ∷ free) v =
    rw
      (
        list_empty_lem (nodes f.buf_array (b ∷ free)) v.ring,
        load-ok f.list (ground (arith, v.ring.no_null)) h,
        v.ring.links.0,
        load-ok (f.buf_array b).node (ground (arith, v.ring.no_null)) h,
        v.owned.0,
      )
      (Produces-ok h f b free (list_del (f.buf_array b).node h) (
        Ends-mono (list_del (f.buf_array b).node h)
          (λ g (r, n, p, o).
            (record { ring = r; owned = Owned-frame h g f.buf_array free o v.owned.1 }, o))
          (list_del-remove [] (f.buf_array b).node (nodes f.buf_array free) v.ring)))

-- `buf_factory_recycle` puts a buffer whose node is not in the ring, and names it as its owner,
-- behind the free ones, and changes no owner.
pub recycle-refines :
    {h : Heap} {f : BufferFactory} (free : List ℕ) (b : ℕ)
    → IsFree h f free
    → IsNew (f.buf_array b).node f.list (nodes f.buf_array free)
    → (h (f.buf_array b).node).owner ≡ b
    → Ends (λ g. IsFree g f (FreeList.recycle free b) × SameOwners h g) (buf_factory_recycle b f h)
unfolding buf_factory_recycle
recycle-refines {h} {f} free b v new e =
    Ends-mono (list_add_tail (f.buf_array b).node f.list h)
      (λ g (r, o). (
        record {
          ring = rw (map-append _ free (b ∷ [])) r;
          owned =
              Owned-frame h g f.buf_array (free ++ (b ∷ [])) o
                (Owned-append_one h f.buf_array free b v.owned e);
        },
        o,
      ))
      (list_add_tail-append (nodes f.buf_array free) v.ring new)
