-- ===== src/Tool/List/Ring.antt =====
-- What a ring of tool/list.c stands for: the sequence of the nodes behind its head.
use multi_port_convertor.Base.{
  ℕ, ◌≡◌, ◌≢◌, refl, Bool, true, false, List, [], ◌∷◌, ◌++◌, arith, ◌==◌, has, Distinct,
}
use multi_port_convertor.Tool.List.{
  Ptr, null, Heap, Run, ok, fault, exit, with_next, with_prev, with_owner, load, set_next, set_prev,
  set_owner, init_list_head, list_empty,
}

-- From `p` the links lead through `xs`, in both directions.
abbrev pub Links : Heap → Ptr → List Ptr → Type 0
Links h p [] = Unit
Links h p (x ∷ xs) = ((h p).next ≡ x) × ((h x).prev ≡ p) × Links h x xs

-- The last node of `p ∷ xs`.
abbrev pub last : Ptr → List Ptr → Ptr
last p [] = p
last p (x ∷ xs) = last x xs

-- The nodes of `p ∷ xs` but the last.
abbrev pub front : Ptr → List Ptr → List Ptr
front p [] = []
front p (x ∷ xs) = p ∷ front x xs

-- From `head` the links lead through the nodes `xs` and back to `head`.
pub record IsRing (h : Heap) (head : Ptr) (xs : List Ptr) : Type 0 where
  pub links : Links h head (xs ++ (head ∷ []))
  pub distinct : Distinct (head ∷ xs)
  pub no_null : has null (head ∷ xs) ≡ false

-- `g` has the owners of `h`.
abbrev pub SameOwners : Heap → Heap → Type 0
SameOwners h g = (a : Ptr) → (g a).owner ≡ (h a).owner

-- Links survive a change that spares the `next` of all nodes but the last, and the `prev` of all
-- but the first.
pub Links-frame :
    (h g : Heap) (p : Ptr) (xs : List Ptr)
    → Links h p xs
    → ((a : Ptr) → has a (front p xs) ≡ true → (g a).next ≡ (h a).next)
    → ((a : Ptr) → has a xs ≡ true → (g a).prev ≡ (h a).prev)
    → Links g p xs
Links-frame h g p [] l sn sp = tt
Links-frame h g p (x ∷ xs) l sn sp = (
  ground (arith, sn p),
  ground (arith, sp x),
  Links-frame h g x xs l.2 (λ a m. sn a (ground arith)) (λ a m. sp a (ground arith)),
)

pub Links-append :
    (h : Heap) (p : Ptr) (xs ys : List Ptr)
    → Links h p xs
    → Links h (last p xs) ys
    → Links h p (xs ++ ys)
Links-append h p [] ys l m = m
Links-append h p (x ∷ xs) ys l m = (l.0, l.1, Links-append h x xs ys l.2 m)

pub Links-left : (h : Heap) (p : Ptr) (xs ys : List Ptr) → Links h p (xs ++ ys) → Links h p xs
Links-left h p [] ys l = tt
Links-left h p (x ∷ xs) ys l = (l.0, l.1, Links-left h x xs ys l.2)

pub Links-right :
    (h : Heap) (p : Ptr) (xs ys : List Ptr) → Links h p (xs ++ ys) → Links h (last p xs) ys
Links-right h p [] ys l = l
Links-right h p (x ∷ xs) ys l = Links-right h x xs ys l.2

pub front-append_one : (p : Ptr) (xs : List Ptr) (q : Ptr) → front p (xs ++ (q ∷ [])) ≡ p ∷ xs
front-append_one p [] q = refl
front-append_one p (x ∷ xs) q = λ i. p ∷ front-append_one x xs q i

pub has-last : (p : Ptr) (xs : List Ptr) → has (last p xs) (p ∷ xs) ≡ true
has-last p [] = ground arith
has-last p (x ∷ xs) = ground (arith, has-last x xs)

pub last-append_cons :
    (p : Ptr) (xs : List Ptr) (y : Ptr) (ys : List Ptr) → last p (xs ++ (y ∷ ys)) ≡ last y ys
last-append_cons p [] y ys = refl
last-append_cons p (x ∷ xs) y ys = last-append_cons x xs y ys

-- Where the list has distinct nodes, its last one is not among those before it.
pub has-last-front :
    (p : Ptr) (xs : List Ptr) → Distinct (p ∷ xs) → has (last p xs) (front p xs) ≡ false
has-last-front p [] d = refl
has-last-front p (x ∷ xs) d = ground (arith, has-last-front x xs d.1, has-last x xs)

pub has-front : (a p : Ptr) (xs : List Ptr) → has a (p ∷ xs) ≡ false → has a (front p xs) ≡ false
has-front a p [] h = refl
has-front a p (x ∷ xs) h = ground (arith, has-front a x xs)

-- The `prev` of a ring's head is its last node.
pub prev_head :
    {h : Heap} {head : Ptr} (xs : List Ptr) → IsRing h head xs → (h head).prev ≡ last head xs
prev_head {h} {head} xs r = (Links-right h head xs (head ∷ []) r.links).1

module _ (p : Ptr) (ne : p ≢ null) where
  not_null : (p == null) ≡ false
  not_null = ground arith

  pub load-ok : (h : Heap) → load p h ≡ ok (h p) h
  unfolding load
  load-ok h = rw not_null

  pub set_next-ok : (q : Ptr) (h : Heap) → set_next p q h ≡ ok tt (with_next h p q)
  unfolding set_next
  set_next-ok q h = rw not_null

  pub set_prev-ok : (q : Ptr) (h : Heap) → set_prev p q h ≡ ok tt (with_prev h p q)
  unfolding set_prev
  set_prev-ok q h = rw not_null

  pub set_owner-ok : (o : ℕ) (h : Heap) → set_owner p o h ≡ ok tt (with_owner h p o)
  unfolding set_owner
  set_owner-ok o h = rw not_null

-- The command ends, and its heap has the property.
abbrev pub Ends : {A : Type 0} → (Heap → Type 0) → Run A → Type 0
Ends P (ok a g) = P g
Ends P fault = ⊥
Ends P exit = ⊥

pub Ends-mono :
    {A : Type 0} {P Q : Heap → Type 0} (r : Run A) → ((g : Heap) → P g → Q g) → Ends P r → Ends Q r
Ends-mono (ok a g) f p = f g p
Ends-mono fault f p = p
Ends-mono exit f p = p

-- What `init_list_head` leaves behind.
abbrev pub Fresh : Heap → Ptr → Heap → Type 0
Fresh h head g = IsRing g head [] × ((g head).owner ≡ head) × ((a : Ptr) → a ≢ head → g a ≡ h a)

-- After `init_list_head` the head is a ring of no node and its own owner; nothing else is written.
pub init_list_head-IsRing :
    (h : Heap) (head : Ptr) → head ≢ null → Ends (Fresh h head) (init_list_head head h)
unfolding init_list_head
init_list_head-IsRing h head ne =
    rw (set_next-ok head ne head h, set_prev-ok head ne head _, set_owner-ok head ne head _)
      (
        record { links = ground arith; distinct = ground arith; no_null = ground arith },
        ground arith,
        λ a n. ground arith,
      )

abbrev pub is_nil : List Ptr → Bool
is_nil [] = true
is_nil (x ∷ xs) = false

-- `list_empty` says whether the ring has no node, and writes nothing.
pub list_empty_lem :
    {h : Heap} {head : Ptr} (xs : List Ptr)
    → IsRing h head xs
    → list_empty head h ≡ ok (is_nil xs) h
unfolding list_empty
list_empty_lem {h} {head} [] r = rw (load-ok head (ground arith) h) (ground arith)
list_empty_lem {h} {head} (x ∷ xs) r = rw (load-ok head (ground arith) h) (ground arith)
