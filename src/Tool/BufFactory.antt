-- ===== src/Tool/BufFactory.antt =====
-- tool/buf_factory.h and tool/buf_factory.c over the heap of Tool/List. A buffer is named by its
-- index in `buf_array`. The mutex makes each function atomic, and is not modelled.
pub mod Refine
pub mod Runs
pub mod Serves
pub mod Create
use multi_port_convertor.Base.{ℕ, zero, suc, ◌+◌, ◌||◌, ◌==◌, ltb, if◌then◌else◌}
use multi_port_convertor.Tool.List.{
  Ptr, null, Cmd, fault, exit, pure, ◌>>=◌, ◌>>◌, load, set_owner, init_list_head, list_add_tail,
  list_del, list_empty,
}

-- `struct Buffer`
pub record Buffer : Type 0 where
  pub memory : Ptr
  pub node : Ptr

abbrev pub Buffers : Type 0
Buffers = ℕ → Buffer

-- `struct buffer_factory`: where its list is anchored, and its array.
pub record BufferFactory : Type 0 where
  pub list : Ptr
  pub buf_array : Buffers

abbrev pub store : Buffers → ℕ → Buffer → Buffers
store bufs i b j = if j == i then b else bufs j

-- `n` calls of `free(p)`: freeing NULL does nothing, and freeing a block twice is a fault.
unfoldable pub free_times : ℕ → Ptr → Cmd (Unit {0})
free_times n p = if (p == null) || ltb n 2 then pure tt else λ h. fault

-- The loop of `create_buf_factory` with `n` rounds left; `blocks i` is what the two calls of
-- `malloc` return in round `i`. Where the second fails, the loops on `j` free the entry `i`.
unfoldable pub fill : (ℕ → Ptr × Ptr) → ℕ → ℕ → BufferFactory → Cmd BufferFactory
fill blocks zero i f = pure f
fill blocks (suc n) i f =
    let memory = (blocks i).0 in
    let node = (blocks i).1 in
    let rest =
      fill blocks n (i + 1)
        (record f { buf_array = store f.buf_array i (record { memory = memory; node = node }) }) in
    if memory == null
    then (do free_times i null; λ h. exit)
    else if node == null
    then (do free_times i null; free_times (i + 1) memory; λ h. exit)
    else (do set_owner node i; list_add_tail node f.list; rest)

-- `factory` and `array` are what `malloc` and `calloc` return; the array is zeroed. The list is
-- anchored in the factory, so its address stands for both.
unfoldable pub create_buf_factory : ℕ → (factory array : Ptr) → (ℕ → Ptr × Ptr) → Cmd BufferFactory
create_buf_factory num factory array blocks =
    let fresh : BufferFactory = record {
      list = factory;
      buf_array = λ i. record { memory = null; node = null };
    } in
    let rest : Cmd BufferFactory = if array == null then (λ h. exit) else fill blocks num 0 fresh in
    if factory == null then (λ h. exit) else init_list_head factory >> rest

-- What `buf_factory_produce` does on a list that is not empty.
abbrev take_first : Ptr → Cmd ℕ
take_first list = do
  anchor ← load list
  node_of_buf ← load anchor.next
  list_del anchor.next
  pure node_of_buf.owner

unfoldable pub buf_factory_produce : BufferFactory → Cmd ℕ
buf_factory_produce f = do
  empty ← list_empty f.list
  if empty then (λ h. exit) else take_first f.list

unfoldable pub buf_factory_recycle : ℕ → BufferFactory → Cmd (Unit {0})
buf_factory_recycle buf f = list_add_tail (f.buf_array buf).node f.list
