-- ===== src/Tool/List/Delete.antt =====
-- `list_del` of tool/list.c on a ring.
use multi_port_convertor.Base.{
  Distinct-middle, ◌≡◌, ◌≢◌, refl, true, false, List, [], ◌∷◌, ◌++◌, arith, ◌==◌, has, has-append,
  Distinct, append-nil, append_assoc,
}
use multi_port_convertor.Tool.List.{Ptr, null, Heap, with_next, with_prev, del_between, list_del}
use multi_port_convertor.Tool.List.Ring.{
  Links, last, front, IsRing, SameOwners, Ends, Ends-mono, load-ok, set_next-ok, set_prev-ok,
  Links-frame, Links-append, Links-left, Links-right, has-last, has-last-front, has-front,
  front-append_one,
}

module _ (h : Heap) (entry head : Ptr) (xs : List Ptr) (y : Ptr) (ys : List Ptr) (n1 : entry ≢ null)
    (n2 : y ≢ null) (n3 : last head xs ≢ null) (o1 : has entry (head ∷ xs) ≡ false)
    (o2 : has entry (y ∷ ys) ≡ false) (o3 : has y xs ≡ false) (o4 : has y ys ≡ false)
    (o5 : has (last head xs) (front y ys) ≡ false)
    (o6 : has (last head xs) (front head xs) ≡ false) where
  -- The heap that the four stores leave.
  abbrev removed : Heap
  removed =
      with_prev (with_next (with_next (with_prev h y (last head xs)) (last head xs) y) entry null)
        entry null

  removed_next :
      (a : Ptr) → (a == entry) ≡ false → (a == last head xs) ≡ false → (removed a).next ≡ (h a).next
  removed_next a p q = ground arith

  removed_prev : (a : Ptr) → (a == entry) ≡ false → (a == y) ≡ false → (removed a).prev ≡ (h a).prev
  removed_prev a p q = ground arith

  removed_owner : SameOwners h removed
  removed_owner a = ground arith

  removed_at :
      ((removed (last head xs)).next ≡ y)
      × ((removed y).prev ≡ last head xs)
      × ((removed entry).next ≡ null)
      × ((removed entry).prev ≡ null)
  removed_at =
      let ne : (entry == last head xs) ≡ false = ground (arith, has-last head xs) in
      (ground arith, ground arith, ground arith, ground arith)

  removed-Links : Links h head xs → Links h y ys → Links removed head (xs ++ (y ∷ ys))
  removed-Links l m =
      Links-append removed head xs (y ∷ ys)
        (Links-frame h removed head xs l
          (λ a i. removed_next a (ground (arith, has-front entry head xs o1)) (ground arith))
          (λ a i. removed_prev a (ground arith) (ground arith)))
        (
          removed_at.0,
          removed_at.1,
          Links-frame h removed y ys m
              (λ a i. removed_next a (ground (arith, has-front entry y ys o2)) (ground arith))
              (λ a i. removed_prev a (ground arith) (ground arith)),
        )

  -- The entry between the last node of `xs` and `y` is unlinked.
  list_del-Links :
      Links h head xs
      → (h entry).prev ≡ last head xs
      → (h entry).next ≡ y
      → Links h y ys
      → Ends
          (λ g.
            Links g head (xs ++ (y ∷ ys))
            × ((g entry).next ≡ null)
            × ((g entry).prev ≡ null)
            × SameOwners h g)
          (list_del entry h)
  unfolding list_del del_between
  list_del-Links l p n m =
      rw
        (
          load-ok entry n1 h,
          p,
          n,
          set_prev-ok y n2 (last head xs) h,
          set_next-ok (last head xs) n3 y _,
          set_next-ok entry n1 null _,
          set_prev-ok entry n1 null _,
        )
        (removed-Links l m, removed_at.2, removed_at.3, removed_owner)

-- The entry has left the ring of `xs`, points nowhere, and no owner has changed.
abbrev pub Deleted : Heap → Ptr → Ptr → List Ptr → Heap → Type 0
Deleted h entry head xs g =
    IsRing g head xs × ((g entry).next ≡ null) × ((g entry).prev ≡ null) × SameOwners h g

Distinct-left : (xs ys : List Ptr) → Distinct (xs ++ ys) → Distinct xs
Distinct-left [] ys d = tt
Distinct-left (x ∷ xs) ys d = (ground (arith, has-append x xs ys), Distinct-left xs ys d.1)

Distinct-right : (xs ys : List Ptr) → Distinct (xs ++ ys) → Distinct ys
Distinct-right [] ys d = d
Distinct-right (x ∷ xs) ys d = Distinct-right xs ys d.1

Distinct-apart :
    (a : Ptr) (xs ys : List Ptr) → Distinct (xs ++ ys) → has a xs ≡ true → has a ys ≡ false
Distinct-apart a [] ys d i = cc
Distinct-apart a (x ∷ xs) ys d i = ground (arith, has-append x xs ys, Distinct-apart a xs ys d.1)

apart_left : (a : Ptr) (xs ys : List Ptr) → Distinct (xs ++ ys) → has a ys ≡ true → has a xs ≡ false
apart_left a [] ys d i = refl
apart_left a (x ∷ xs) ys d i = ground (arith, has-append x xs ys, apart_left a xs ys d.1)

-- No node at hand is NULL.
module _ (head entry : Ptr) (xs ys : List Ptr)
    (n : has null (head ∷ (xs ++ (entry ∷ ys))) ≡ false) where
  entry_ne_null : entry ≢ null
  entry_ne_null = ground (arith, n, has-append null xs (entry ∷ ys))

  last_ne_null : last head xs ≢ null
  last_ne_null = ground (arith, n, has-append null xs (entry ∷ ys), has-last head xs)

  rest_no_null : has null (head ∷ (xs ++ ys)) ≡ false
  rest_no_null = ground (arith, n, has-append null xs (entry ∷ ys), has-append null xs ys)

-- `list_del` takes an entry out of a ring, wherever it stands: the others stay in their order, the
-- entry points nowhere afterwards, and no owner has changed.
pub list_del-remove :
    {h : Heap} {head : Ptr} (xs : List Ptr) (entry : Ptr) (ys : List Ptr)
    → IsRing h head (xs ++ (entry ∷ ys))
    → Ends (Deleted h entry head (xs ++ ys)) (list_del entry h)
list_del-remove {h} {head} xs entry [] r =
    let l : Links h head (xs ++ (entry ∷ (head ∷ []))) = rw append_assoc at r.links in
    let m = Links-right h head xs (entry ∷ head ∷ []) l in
    let out = (Distinct-middle (head ∷ xs) entry [] r.distinct).1 in
    Ends-mono (list_del entry h)
      (λ g (k, n, p, o). (
        record {
          links = rw append-nil k;
          distinct = (Distinct-middle (head ∷ xs) entry [] r.distinct).0;
          no_null = rest_no_null head entry xs [] r.no_null;
        },
        n,
        p,
        o,
      ))
      (list_del-Links h entry head xs head [] (entry_ne_null head entry xs [] r.no_null)
        (ground (arith, r.no_null)) (last_ne_null head entry xs [] r.no_null)
        (ground (arith, out, has-append entry xs [])) (ground (arith, out))
        (ground (arith, r.distinct.0, has-append head xs (entry ∷ []))) refl refl
        (has-last-front head xs (Distinct-left (head ∷ xs) (entry ∷ []) r.distinct))
        (Links-left h head xs (entry ∷ head ∷ []) l) m.1 m.2.0 tt)
list_del-remove {h} {head} xs entry (y ∷ ys) r =
    let l : Links h head (xs ++ (entry ∷ (y ∷ ys ++ (head ∷ [])))) = rw append_assoc at r.links in
    let m = Links-right h head xs (entry ∷ (y ∷ ys ++ (head ∷ []))) l in
    let (d, out) = Distinct-middle (head ∷ xs) entry (y ∷ ys) r.distinct in
    let d' = Distinct-right (head ∷ xs) (y ∷ ys) d in
    Ends-mono (list_del entry h)
      (λ g (k, n, p, o). (
        record {
          links = rw append_assoc k;
          distinct = d;
          no_null = rest_no_null head entry xs (y ∷ ys) r.no_null;
        },
        n,
        p,
        o,
      ))
      (list_del-Links h entry head xs y (ys ++ (head ∷ []))
        (entry_ne_null head entry xs (y ∷ ys) r.no_null)
        (ground (arith, rest_no_null head entry xs (y ∷ ys) r.no_null, has-append null xs (y ∷ ys)))
        (last_ne_null head entry xs (y ∷ ys) r.no_null)
        (ground (arith, out, has-append entry xs (y ∷ ys)))
        (ground (arith, out, has-append entry xs (y ∷ ys), has-append entry ys (head ∷ [])))
        (apart_left y xs (y ∷ ys) d.1 (ground arith))
        (ground (arith, d.0, has-append head xs (y ∷ ys), has-append y ys (head ∷ []), d'.0))
        (rw (front-append_one y ys head)
          (Distinct-apart (last head xs) (head ∷ xs) (y ∷ ys) d (has-last head xs)))
        (has-last-front head xs (Distinct-left (head ∷ xs) (entry ∷ y ∷ ys) r.distinct))
        (Links-left h head xs (entry ∷ (y ∷ ys ++ (head ∷ []))) l) m.1 m.2.0 m.2.2)
