-- ===== src/Tool/List/Insert.antt =====
-- `list_add` and `list_add_tail` of tool/list.c on a ring.
use multi_port_convertor.Base.{
  ◌≡◌, ◌≢◌, refl, false, List, [], ◌∷◌, ◌++◌, arith, ◌==◌, has, has-append, Distinct-append_one,
  append_assoc,
}
use multi_port_convertor.Tool.List.{
  Ptr, null, Heap, with_next, with_prev, add_between, list_add, list_add_tail,
}
use multi_port_convertor.Tool.List.Ring.{
  Links, last, front, IsRing, SameOwners, Ends, Ends-mono, load-ok, set_next-ok, set_prev-ok,
  Links-frame, Links-append, Links-left, front-append_one, has-last, has-last-front, has-front,
  prev_head,
}

-- The new node stands behind the nodes `xs` and before `y ∷ ys`, and no owner has changed.
abbrev Between : Heap → Ptr → Ptr → List Ptr → Ptr → List Ptr → Heap → Type 0
Between h new head xs y ys g = Links g head (xs ++ (new ∷ y ∷ ys)) × SameOwners h g

module _ (h : Heap) (new head : Ptr) (xs : List Ptr) (y : Ptr) (ys : List Ptr) (n1 : new ≢ null)
    (n2 : y ≢ null) (n3 : last head xs ≢ null) (o1 : has new (head ∷ xs) ≡ false)
    (o2 : has new (y ∷ ys) ≡ false) (o3 : has y xs ≡ false) (o4 : has y ys ≡ false)
    (o5 : has (last head xs) (front y ys) ≡ false)
    (o6 : has (last head xs) (front head xs) ≡ false) where
  -- The heap that the four stores leave.
  abbrev inserted : Heap
  inserted =
      with_next (with_prev (with_next (with_prev h y new) new y) new (last head xs)) (last head xs)
        new

  inserted_next :
      (a : Ptr) → (a == new) ≡ false → (a == last head xs) ≡ false → (inserted a).next ≡ (h a).next
  inserted_next a p q = ground arith

  inserted_prev : (a : Ptr) → (a == new) ≡ false → (a == y) ≡ false → (inserted a).prev ≡ (h a).prev
  inserted_prev a p q = ground arith

  inserted_owner : (a : Ptr) → (inserted a).owner ≡ (h a).owner
  inserted_owner a = ground arith

  inserted_at :
      ((inserted (last head xs)).next ≡ new)
      × ((inserted new).prev ≡ last head xs)
      × ((inserted new).next ≡ y)
      × ((inserted y).prev ≡ new)
  inserted_at =
      let ne : (new == last head xs) ≡ false = ground (arith, has-last head xs) in
      let ne' : (new == y) ≡ false = ground arith in
      (ground arith, ground arith, ground arith, ground arith)

  inserted-Links : Links h head xs → Links h y ys → Links inserted head (xs ++ (new ∷ y ∷ ys))
  inserted-Links l m =
      let (e1, e2, e3, e4) = inserted_at in
      Links-append inserted head xs (new ∷ y ∷ ys)
        (Links-frame h inserted head xs l
          (λ a i. inserted_next a (ground (arith, has-front new head xs o1)) (ground arith))
          (λ a i. inserted_prev a (ground arith) (ground arith)))
        (
          e1,
          e2,
          (
            e3,
            e4,
            Links-frame h inserted y ys m
                (λ a i. inserted_next a (ground (arith, has-front new y ys o2)) (ground arith))
                (λ a i. inserted_prev a (ground arith) (ground arith)),
          ),
        )

  add_between-Links :
      Links h head xs
      → Links h y ys
      → Ends (Between h new head xs y ys) (add_between new (last head xs) y h)
  unfolding add_between
  add_between-Links l m =
      rw
        (
          set_prev-ok y n2 new h,
          set_next-ok new n1 y _,
          set_prev-ok new n1 (last head xs) _,
          set_next-ok (last head xs) n3 new _,
        )
        (inserted-Links l m, inserted_owner)

-- The ring has taken in the new node, and no owner has changed.
abbrev pub Inserted : Heap → Ptr → List Ptr → Heap → Type 0
Inserted h head xs g = IsRing g head xs × SameOwners h g

abbrev pub IsNew : Ptr → Ptr → List Ptr → Type 0
IsNew new head xs = (new ≢ null) × (has new (head ∷ xs) ≡ false)

-- `list_add_tail` puts a node that is not in the ring behind its last node, and changes no owner.
pub list_add_tail-append :
    {h : Heap} {new head : Ptr} (xs : List Ptr)
    → IsRing h head xs
    → IsNew new head xs
    → Ends (Inserted h head (xs ++ (new ∷ []))) (list_add_tail new head h)
unfolding list_add_tail
list_add_tail-append {h} {new} {head} xs r (n1, n2) =
    rw (load-ok head (ground arith) h, prev_head xs r)
      (Ends-mono (add_between new (last head xs) head h)
        (λ g (l, o). (
          record {
            links = rw append_assoc l;
            distinct = (
              ground (arith, has-append head xs (new ∷ [])),
              Distinct-append_one xs new r.distinct.1 (ground arith),
            );
            no_null = ground (arith, r.no_null, has-append null xs (new ∷ []));
          },
          o,
        ))
        (add_between-Links h new head xs head [] n1 (ground arith)
          (ground (arith, has-last head xs)) n2 (ground arith) r.distinct.0 refl refl
          (has-last-front head xs r.distinct) (Links-left h head xs (head ∷ []) r.links) tt))

-- `list_add` puts a node that is not in the ring before its first node, and changes no owner.
pub list_add-cons :
    {h : Heap} {new head : Ptr} (xs : List Ptr)
    → IsRing h head xs
    → IsNew new head xs
    → Ends (Inserted h head (new ∷ xs)) (list_add new head h)
unfolding list_add
list_add-cons {h} {new} {head} [] r (n1, n2) =
    rw (load-ok head (ground arith) h, r.links.0)
      (Ends-mono (add_between new head head h)
        (λ g (l, o). (record { links = l; distinct = ground arith; no_null = ground arith }, o))
        (add_between-Links h new head [] head [] n1 (ground arith) (ground arith) n2 (ground arith)
          refl refl refl refl tt tt))
list_add-cons {h} {new} {head} (x ∷ xs) r (n1, n2) =
    rw (load-ok head (ground arith) h, r.links.0)
      (Ends-mono (add_between new head x h)
        (λ g (l, o). (record { links = l; distinct = ground arith; no_null = ground arith }, o))
        (add_between-Links h new head [] x (xs ++ (head ∷ [])) n1 (ground arith) (ground arith)
          (ground arith) (ground (arith, has-append new xs (head ∷ []))) refl
          (ground (arith, has-append x xs (head ∷ [])))
          (rw (front-append_one x xs head) (ground arith)) refl tt r.links.2))
