-- ===== src/Tool/List.antt =====
-- tool/list.h and tool/list.c: circular doubly linked lists that are embedded in their owners.
-- A `struct list_head` lives at an address of a heap; address 0 is NULL. Each function is the
-- sequence of loads and stores of the C code, and faults where that goes through NULL.
pub mod Ring
pub mod Insert
pub mod Delete
use multi_port_convertor.Base.{ℕ, Bool, ◌==◌, if◌then◌else◌}

abbrev pub Ptr : Type 0
Ptr = ℕ

abbrev pub null : Ptr
null = 0

-- `struct list_head`. An owner is named by a number too.
pub record ListHead : Type 0 where
  pub next : Ptr
  pub prev : Ptr
  pub owner : ℕ

abbrev pub Heap : Type 0
Heap = Ptr → ListHead

abbrev pub write : Heap → Ptr → ListHead → Heap
write h p n a = if a == p then n else h a

abbrev pub with_next : Heap → Ptr → Ptr → Heap
with_next h p q = write h p (record (h p) { next = q })

abbrev pub with_prev : Heap → Ptr → Ptr → Heap
with_prev h p q = write h p (record (h p) { prev = q })

abbrev pub with_owner : Heap → Ptr → ℕ → Heap
with_owner h p o = write h p (record (h p) { owner = o })

-- How a function of the C code ends: it faults, it meets the macro ERROR, or it returns.
pub data Run (A : Type 0) : Type 0 where
  fault exit : Run A
  ok : A → Heap → Run A

-- A function that works on the heap.
abbrev pub Cmd : Type 0 → Type 0
Cmd A = Heap → Run A

abbrev pub pure : {A : Type 0} → A → Cmd A
pure a h = ok a h

abbrev pub and_then : {A B : Type 0} → Run A → (A → Cmd B) → Run B
and_then fault next = fault
and_then exit next = exit
and_then (ok result h) next = next result h

infixl 5 ◌>>=◌
abbrev pub ◌>>=◌ : {A B : Type 0} → Cmd A → (A → Cmd B) → Cmd B
call >>= next = λ h. and_then (call h) next

infixl 5 ◌>>◌
abbrev pub ◌>>◌ : {A B : Type 0} → Cmd A → Cmd B → Cmd B
call >> next = call >>= λ result. next

-- `*p`
unfoldable pub load : Ptr → Cmd ListHead
load p h = if p == null then fault else ok (h p) h

-- `p->next = q`
unfoldable pub set_next : Ptr → Ptr → Cmd (Unit {0})
set_next p q h = if p == null then fault else ok tt (with_next h p q)

-- `p->prev = q`
unfoldable pub set_prev : Ptr → Ptr → Cmd (Unit {0})
set_prev p q h = if p == null then fault else ok tt (with_prev h p q)

-- `p->owner = o`
unfoldable pub set_owner : Ptr → ℕ → Cmd (Unit {0})
set_owner p o h = if p == null then fault else ok tt (with_owner h p o)

unfoldable pub init_list_head : Ptr → Cmd (Unit {0})
init_list_head list = do set_next list list; set_prev list list; set_owner list list

-- `_list_add`
unfoldable pub add_between : (new prev next : Ptr) → Cmd (Unit {0})
add_between new prev next = do
  set_prev next new
  set_next new next
  set_prev new prev
  set_next prev new

unfoldable pub list_add : (new head : Ptr) → Cmd (Unit {0})
list_add new head = do n ← load head; add_between new head n.next

unfoldable pub list_add_tail : (new head : Ptr) → Cmd (Unit {0})
list_add_tail new head = do n ← load head; add_between new n.prev head

-- `_list_del`
unfoldable pub del_between : (prev next : Ptr) → Cmd (Unit {0})
del_between prev next = do set_prev next prev; set_next prev next

unfoldable pub list_del : Ptr → Cmd (Unit {0})
list_del entry = do
  n ← load entry
  del_between n.prev n.next
  set_next entry null
  set_prev entry null

unfoldable pub list_empty : Ptr → Cmd Bool
list_empty head = do n ← load head; pure (n.next == head)
