-- ===== src/Tool/BufFactory/Create.antt =====
-- What `create_buf_factory` of tool/buf_factory.c builds.
use multi_port_convertor.Base.{
  sym, ℕ, zero, suc, ◌+◌, ◌≤◌, ◌<◌, ◌≡◌, ◌≢◌, refl, ap, ◌∙◌, false, List, [], ◌∷◌, ◌++◌, map,
  map-append, arith, All, ◌==◌, ltb, has,
}
use multi_port_convertor.Tool.List.{
  Ptr, null, Heap, Run, ok, fault, exit, with_owner, init_list_head, list_add_tail, and_then,
}
use multi_port_convertor.Tool.List.Ring.{
  IsRing, Links-frame, Ends, set_owner-ok, SameOwners, init_list_head-IsRing, Fresh,
}
use multi_port_convertor.Tool.List.Insert.{IsNew, Inserted, list_add_tail-append}
use multi_port_convertor.Tool.BufFactory.{
  BufferFactory, Buffers, store, free_times, fill, create_buf_factory,
}
use multi_port_convertor.Tool.BufFactory.Refine.{nodes, IsFree}

-- The numbers below `n`.
abbrev pub upto : ℕ → List ℕ
upto zero = []
upto (suc n) = upto n ++ (n ∷ [])

module _ (blocks : ℕ → Ptr × Ptr) where
  abbrev node_of : ℕ → Ptr
  node_of i = (blocks i).1

  -- What the first `i` rounds of the loop have built.
  record Filled (i : ℕ) (h : Heap) (f : BufferFactory) : Type 0 where
    ring : IsRing h f.list (map node_of (upto i))
    owned : All (λ b. (h (node_of b)).owner ≡ b) (upto i)
    stored : (j : ℕ) → j < i → f.buf_array j ≡ record { memory = (blocks j).0; node = node_of j }

  -- In round `i` both calls of `malloc` give a block, and the node's is a new one.
  pub record IsGiven (list : Ptr) (i : ℕ) : Type 0 where
    pub memory : (blocks i).0 ≢ null
    pub node : IsNew (blocks i).1 list (map (λ j. (blocks j).1) (upto i))

  with_owner-IsRing :
      (h : Heap) (list p : Ptr) (o : ℕ) (xs : List Ptr)
      → IsRing h list xs
      → IsRing (with_owner h p o) list xs
  with_owner-IsRing h list p o xs r = record {
    links =
        Links-frame h (with_owner h p o) list (xs ++ (list ∷ [])) r.links (λ a m. ground arith)
          (λ a m. ground arith);
    distinct = r.distinct;
    no_null = r.no_null;
  }

  owned-new :
      (h g : Heap) (p : Ptr) (i : ℕ) (bs : List ℕ)
      → SameOwners (with_owner h p i) g
      → has p (map node_of bs) ≡ false
      → All (λ b. (h (node_of b)).owner ≡ b) bs
      → All (λ b. (g (node_of b)).owner ≡ b) bs
  owned-new h g p i [] s n o = tt
  owned-new h g p i (b ∷ bs) s n o =
      (s (node_of b) ∙ ground arith, owned-new h g p i bs s (ground arith) o.1)

  All-one : (P : ℕ → Type 0) (bs : List ℕ) (b : ℕ) → All P bs → P b → All P (bs ++ (b ∷ []))
  All-one P [] b a p = (p, tt)
  All-one P (x ∷ bs) b a p = (a.0, All-one P bs b a.1 p)

  Filled-next :
      (i : ℕ) (h g : Heap) (f : BufferFactory)
      → Filled i h f
      → IsNew (blocks i).1 f.list (map node_of (upto i))
      → Inserted (with_owner h (node_of i) i) f.list (map node_of (upto i) ++ (node_of i ∷ [])) g
      → Filled (suc i) g (record f {
        buf_array = store f.buf_array i (record { memory = (blocks i).0; node = node_of i });
      })
  Filled-next i h g f v new (r, o) = record {
    ring = rw (map-append node_of (upto i) (i ∷ [])) r;
    owned =
        All-one (λ b. (g (node_of b)).owner ≡ b) (upto i) i
          (owned-new h g (node_of i) i (upto i) o (ground arith) v.owned)
          (o (node_of i) ∙ ground arith);
    stored = λ j l. ground (arith, v.stored j);
  }

  is_block : (p : Ptr) → p ≢ null → (p == null) ≡ false
  is_block p n = ground arith

  Inserted-run :
      (P : Run BufferFactory → Type 0) (Q : Heap → Type 0) (r : Run (Unit {0}))
      (k : Heap → Run BufferFactory)
      → Ends Q r
      → ((g : Heap) → Q g → P (k g))
      → P (and_then r (λ _. k))
  Inserted-run P Q (ok a g) k q f = f g q
  Inserted-run P Q fault k q f = absurd q
  Inserted-run P Q exit k q f = absurd q

  -- The rounds with blocks lead to the round behind them.
  fill-rounds :
      (P : Run BufferFactory → Type 0) (k n i : ℕ) (h : Heap) (f : BufferFactory)
      → Filled i h f
      → ((j : ℕ) → i ≤ j → j < i + k → IsGiven f.list j)
      → ((g : Heap) (f' : BufferFactory)
          → f'.list ≡ f.list
          → Filled (i + k) g f'
          → P (fill blocks n (i + k) f' g))
      → P (fill blocks (k + n) i f h)
  unfolding fill
  fill-rounds P zero n i h f v given next =
      let e : zero + n ≡ n = omega arith in
      let z : i + 0 ≡ i = omega arith in rw e (rw z at (next h f refl (rw z v)))
  fill-rounds P (suc k) n i h f v given next =
      let now = given i (omega arith) (omega arith) in
      let e : suc k + n ≡ suc (k + n) = omega arith in
      let one : i + 1 ≡ suc i = omega arith in
      let more : i + suc k ≡ suc i + k = omega arith in
      let f' = record f {
        buf_array = store f.buf_array i (record { memory = (blocks i).0; node = node_of i });
      } in
      rw
        (
          e,
          is_block (blocks i).0 now.memory,
          is_block (node_of i) now.node.0,
          set_owner-ok (node_of i) now.node.0 i h,
          one,
        )
        (Inserted-run P
          (Inserted (with_owner h (node_of i) i) f.list (map node_of (upto i) ++ (node_of i ∷ [])))
          (list_add_tail (node_of i) f.list (with_owner h (node_of i) i))
          (fill blocks (k + n) (suc i) f')
          (list_add_tail-append (map node_of (upto i))
            (with_owner-IsRing h f.list (node_of i) i (map node_of (upto i)) v.ring) now.node)
          (λ g q.
            fill-rounds P k n (suc i) g f' (Filled-next i h g f v now.node q)
              (λ j a b. given j (omega arith) (omega arith))
              (λ g' f'' l w. rw more at (next g' f'' l (rw more w)))))

  nodes-stored :
      (n : ℕ) (bufs : Buffers)
      → ((j : ℕ) → j < n → bufs j ≡ record { memory = (blocks j).0; node = node_of j })
      → nodes bufs (upto n) ≡ map node_of (upto n)
  nodes-stored zero bufs s = refl
  nodes-stored (suc n) bufs s =
      map-append (λ b. (bufs b).node) (upto n) (n ∷ [])
      ∙ rw (nodes-stored n bufs (λ j l. s j (omega arith)), s n (omega arith))
          (sym (map-append node_of (upto n) (n ∷ [])))

  All-but_one : (P : ℕ → Type 0) (bs : List ℕ) (b : ℕ) → All P (bs ++ (b ∷ [])) → All P bs × P b
  All-but_one P [] b a = (tt, a.0)
  All-but_one P (x ∷ bs) b a = let (l, r) = All-but_one P bs b a.1 in ((a.0, l), r)

  owned-stored :
      (g : Heap) (n : ℕ) (bufs : Buffers)
      → ((j : ℕ) → j < n → bufs j ≡ record { memory = (blocks j).0; node = node_of j })
      → All (λ b. (g (node_of b)).owner ≡ b) (upto n)
      → All (λ b. (g (bufs b).node).owner ≡ b) (upto n)
  owned-stored g zero bufs s o = tt
  owned-stored g (suc n) bufs s o =
      let (l, r) = All-but_one (λ b. (g (node_of b)).owner ≡ b) (upto n) n o in
      All-one (λ b. (g (bufs b).node).owner ≡ b) (upto n) n
        (owned-stored g n bufs (λ j h. s j (omega arith)) l)
        (ap (λ x. (g x.node).owner) (s n (omega arith)) ∙ r)

  is_twice : (k : ℕ) → 0 < k → ltb (k + 1) 2 ≡ false
  is_twice k h = ground arith

  module _ (factory array : ℕ) (h : Heap) (anchored : factory ≢ null) (arrayed : array ≢ null) where
    create-rounds :
        (P : Run BufferFactory → Type 0) (k n : ℕ)
        → ((j : ℕ) → j < k → IsGiven factory j)
        → ((g : Heap) (f : BufferFactory)
            → f.list ≡ factory
            → Filled k g f
            → P (fill blocks n k f g))
        → P (create_buf_factory (k + n) factory array blocks h)
    unfolding create_buf_factory
    create-rounds P k n given next =
        let fresh : BufferFactory = record {
          list = factory;
          buf_array = λ i. record { memory = null; node = null };
        } in
        let z : 0 + k ≡ k = omega arith in
        rw (is_block factory anchored, is_block array arrayed)
          (Inserted-run P (Fresh h factory) (init_list_head factory h) (fill blocks (k + n) 0 fresh)
            (init_list_head-IsRing h factory anchored)
            (λ g (r, o, s).
              fill-rounds P k n 0 g fresh
                (record { ring = r; owned = tt; stored = λ j l. absurd (omega arith) })
                (λ j a b. given j (omega arith)) (λ g' f l v. rw z (next g' f l (rw z at v)))))

  -- A factory with all its buffers free.
  abbrev pub Built : ℕ → Ptr → Run BufferFactory → Type 0
  Built num factory (ok f g) = (f.list ≡ factory) × IsFree g f (upto num)
  Built num factory fault = ⊥
  Built num factory exit = ⊥

  -- Where all the calls of `malloc` and `calloc` give blocks, those for the nodes distinct,
  -- `create_buf_factory` returns a factory whose ring holds the nodes of all its buffers, in the
  -- order of the array.
  pub create_buf_factory-Built :
      (num factory array : ℕ) (h : Heap)
      → factory ≢ null
      → array ≢ null
      → ((j : ℕ) → j < num → IsGiven factory j)
      → Built num factory (create_buf_factory num factory array blocks h)
  unfolding fill
  create_buf_factory-Built num factory array h a c given =
      let e : num + 0 ≡ num = omega arith in
      rw e at (
        create-rounds factory array h a c (Built num factory) num 0 given (λ g f l v. (
          l,
          record {
            ring = rw (nodes-stored num f.buf_array v.stored) v.ring;
            owned = owned-stored g num f.buf_array v.stored v.owned;
          },
        )))

  -- Where the rounds before have been given their blocks and the node of a buffer behind the first
  -- cannot be allocated, `create_buf_factory` frees a block twice.
  pub create_buf_factory-double_free :
      (k n factory array : ℕ) (h : Heap)
      → factory ≢ null
      → array ≢ null
      → 0 < k
      → ((j : ℕ) → j < k → IsGiven factory j)
      → (blocks k).0 ≢ null
      → (blocks k).1 ≡ null
      → create_buf_factory (k + suc n) factory array blocks h ≡ fault
  unfolding fill free_times
  create_buf_factory-double_free k n factory array h a c p given m z =
      create-rounds factory array h a c (λ r. r ≡ fault) k (suc n) given
        (λ g f l v. rw (is_block (blocks k).0 m, z, is_twice k p) refl)
