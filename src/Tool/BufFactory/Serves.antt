-- ===== src/Tool/BufFactory/Serves.antt =====
-- What `create_buf_factory` of tool/buf_factory.c builds serves its users as Tool/Pool says.
use multi_port_convertor.Base.{
  ℕ, zero, suc, ◌≤◌, ◌<◌, ◌≡◌, ◌≢◌, false, true, Bool-cases, inl, inr, List, [], ◌∷◌, ◌++◌, All,
  arith, ◌==◌, has, has-append, Distinct, Distinct-middle, append-nil, map-append, dec_lt,
}
use multi_port_convertor.Tool.List.{Ptr, null, Heap, Run, ok, fault, exit}
use multi_port_convertor.Tool.BufFactory.{Buffers, BufferFactory, create_buf_factory}
use multi_port_convertor.Tool.BufFactory.Refine.{nodes, Owned, IsFree}
use multi_port_convertor.Tool.BufFactory.Create.{upto, IsGiven, Built, create_buf_factory-Built}
use multi_port_convertor.Tool.BufFactory.Runs.{
  IsApart, IsPool, heap_pool, heap_calls-Same, known-append,
}
use multi_port_convertor.Tool.Pool.{queue_pool, Call, AreLegal, calls, Same}

differs : (p q : Ptr) (ps : List Ptr) → has p ps ≡ false → has q ps ≡ true → (p == q) ≡ false
differs p q [] h k = cc
differs p q (r ∷ ps) h k = elim (Bool-cases (p == q)) [
  | inl e ↦ ground (arith, differs p q ps)
  | inr n ↦ n
]

Distinct-but_last :
    (ps : List Ptr) (p : Ptr) → Distinct (ps ++ (p ∷ [])) → Distinct ps × (has p ps ≡ false)
Distinct-but_last ps p d = rw (append-nil ps) at (Distinct-middle ps p [] d)

upto-known : (n m : ℕ) → m ≤ n → All (λ b. b < n) (upto m)
upto-known n zero h = tt
upto-known n (suc m) h = known-append n m (upto m) (omega arith) (upto-known n m (omega arith))

module _ (bufs : Buffers) where
  node_of : ℕ → Ptr
  node_of i = (bufs i).node

  nodes-suc : (n : ℕ) → nodes bufs (upto (suc n)) ≡ nodes bufs (upto n) ++ ((bufs n).node ∷ [])
  nodes-suc n = map-append (λ b. (bufs b).node) (upto n) (n ∷ [])

  node-has : (n i : ℕ) → i < n → has (bufs i).node (nodes bufs (upto n)) ≡ true
  node-has zero i h = absurd (omega arith)
  node-has (suc n) i h = rw (nodes-suc n) (elim (dec_lt i n) [
    | yes l ↦
        ground (
          arith,
          has-append (bufs i).node (nodes bufs (upto n)) ((bufs n).node ∷ []),
          node-has n i l,
        )
    | no g ↦
        let e : i ≡ n = omega arith in
        rw e (ground (arith, has-append (bufs n).node (nodes bufs (upto n)) ((bufs n).node ∷ [])))
  ])

  nodes-differ :
      (n i j : ℕ)
      → Distinct (nodes bufs (upto n))
      → i < n
      → j < n
      → (i == j) ≡ false
      → ((bufs i).node == (bufs j).node) ≡ false
  nodes-differ zero i j d a b e = absurd (omega arith)
  nodes-differ (suc n) i j d a b e =
      let (d', new) =
        Distinct-but_last (nodes bufs (upto n)) (bufs n).node (rw (nodes-suc n) at d) in
      elim (dec_lt i n) [
        | yes l ↦ elim (dec_lt j n) [
          | yes m ↦ nodes-differ n i j d' l m e
          | no g ↦
              let k : j ≡ n = omega arith in
              let q = differs (bufs n).node (bufs i).node _ new (node-has n i l) in
              rw k (ground (arith, q))
        ]
        | no g ↦
            let k : i ≡ n = omega arith in
            let m : j < n = ground arith in
            rw k (differs (bufs n).node (bufs j).node _ new (node-has n j m))
      ]

  owners_upto : (g : Heap) (n i : ℕ) → Owned g bufs (upto n) → i < n → (g (bufs i).node).owner ≡ i
  owners_upto g zero i o h = absurd (omega arith)
  owners_upto g (suc n) i o h =
      let (l, r) = but_last (upto n) n o in
      elim (dec_lt i n) [
        | yes m ↦ owners_upto g n i l m
        | no k ↦ let e : i ≡ n = omega arith in rw e r.0
      ]
    where
      but_last :
          (bs : List ℕ) (b : ℕ)
          → Owned g bufs (bs ++ (b ∷ []))
          → Owned g bufs bs × Owned g bufs (b ∷ [])
      but_last [] b o = (tt, o)
      but_last (c ∷ bs) b o = let (l, r) = but_last bs b o.1 in ((o.0, l), r)

module _ (g : Heap) (f : BufferFactory) (n : ℕ) (v : IsFree g f (upto n)) where
  fresh-IsApart : IsApart n f
  fresh-IsApart = record {
    no_null = λ i l e.
        let q =
          differs null (f.buf_array i).node (nodes f.buf_array (upto n))
            (ground (arith, v.ring.no_null)) (node-has f.buf_array n i l) in
        ground (arith, e, q);
    no_head = λ i l.
        let q =
          differs f.list (f.buf_array i).node (nodes f.buf_array (upto n)) v.ring.distinct.0
            (node-has f.buf_array n i l) in
        ground (arith, q);
    differ = λ i j a b e. nodes-differ f.buf_array n i j v.ring.distinct.1 a b e;
  }

  fresh-IsPool : IsPool n f g (upto n)
  fresh-IsPool = record {
    is_free = v;
    owners = λ i l. owners_upto f.buf_array g n i v.owned l;
    known = upto-known n n (omega arith);
  }

-- Behind its creation, the factory does over the calls what the queue of all its buffers does.
abbrev pub Serves : ℕ → List Call → Run BufferFactory → Type 0
Serves n cs (ok f g) =
    (a : IsApart n f) × Same (heap_pool n f a) (calls (queue_pool n) cs (upto n))
      (calls (heap_pool n f a) cs g)
Serves n cs fault = ⊥
Serves n cs exit = ⊥

Built-Serves :
    (blocks : ℕ → Ptr × Ptr) (n factory : ℕ) (cs : List Call) (r : Run BufferFactory)
    → AreLegal n cs (upto n)
    → Built blocks n factory r
    → Serves n cs r
Built-Serves blocks n factory cs (ok f g) l (e, v) =
    let a = fresh-IsApart g f n v in
    (a, heap_calls-Same n f a cs (upto n) g (fresh-IsPool g f n v) l)
Built-Serves blocks n factory cs fault l b = b
Built-Serves blocks n factory cs exit l b = b

-- Where all the calls of `malloc` and `calloc` give blocks, those for the nodes distinct:
-- `create_buf_factory` returns a factory that hands out, over any calls that recycle only buffers
-- of the factory, and none that is free, what a queue of all its buffers does, in the order of the
-- array at first, and ends the process in the same call or not at all.
pub create_buf_factory-Serves :
    (blocks : ℕ → Ptr × Ptr) (num factory array : ℕ) (h : Heap) (cs : List Call)
    → factory ≢ null
    → array ≢ null
    → ((j : ℕ) → j < num → IsGiven blocks factory j)
    → AreLegal num cs (upto num)
    → Serves num cs (create_buf_factory num factory array blocks h)
create_buf_factory-Serves blocks num factory array h cs a c given l =
    Built-Serves blocks num factory cs (create_buf_factory num factory array blocks h) l
      (create_buf_factory-Built blocks num factory array h a c given)
