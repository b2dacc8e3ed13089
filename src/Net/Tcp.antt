-- ===== src/Net/Tcp.antt =====
-- net/tcp.h and net/tcp.c, and the tasks of net/net.c over them: a connection to a server. The
-- program does not start these tasks.
pub mod Streams
pub mod Sending
use multi_port_convertor.Base.{
  ℕ, zero, suc, ◌+◌, ◌-◌, ◌*◌, ◌^◌, ◌≤◌, ◌<◌, Bool, true, false, List, [], ◌∷◌, ◌++◌, Option, none,
  some, Outcome, done, exits, ◌>>=◌, ◌>>◌, ltb, ◌==◌, if◌then◌else◌, length, take, drop, read, copy,
  min,
}
use multi_port_convertor.Tool.FreeList
use multi_port_convertor.Tool.Mailbox.{Message, Mailbox, mailbox_post}

-- `g_conn_state`, which is LINK_ON where it is true; the count of `g_sem_conn_state`; and whether
-- `g_tcp_client_fd` is an open socket.
pub record Link : Type 0 where
  pub conn_state : Bool
  pub sem : ℕ
  pub client : Bool

-- `tcp_client_create_socket`; `made` says whether `socket` succeeds.
unfoldable pub tcp_client_create_socket : (made : Bool) → Link → Outcome Link
tcp_client_create_socket true l = done (record l { client = true })
tcp_client_create_socket false l = exits

-- `client_break_socket`
unfoldable pub client_break_socket : Link → Link
client_break_socket l = record l { conn_state = false; client = false }

-- What the state of the cable's interface is, in `check_link_status`.
pub data Interface : Type 0 where
  unknown down running : Interface

-- `check_link_status`: its result is 0 where it is true.
unfoldable pub check_link_status : Interface → Link → Bool × Link
unfolding client_break_socket
check_link_status unknown l = (false, l)
check_link_status down l = (false, client_break_socket l)
check_link_status running l = (true, l)

-- `net_connect_tsk` from the creation of a socket to the connection: what the calls of `connect`
-- return, 0 for success. Where none succeeds, the task still tries, which is false.
unfoldable pub connect_until : List ℕ → Link → Bool × Link
connect_until [] l = (false, l)
connect_until (err ∷ errs) l =
    let later = connect_until errs l in
    if err == 0 then (true, record l { conn_state = true; sem = l.sem + 1 }) else later

-- The loop that watches the connection, each second: what the interface is found to be. It is left
-- where the result is true.
unfoldable pub watch : List Interface → Link → Bool × Link
unfolding check_link_status
watch [] l = (false, l)
watch (i ∷ later) l =
    let (ok, l') = check_link_status i l in
    let rest = watch later l' in
    if ok then if l'.conn_state then rest else (true, l') else (true, l')

-- What a loop over the socket comes to: it returns, or it waits for more bytes.
pub data Progress : Type 0 where
  returned : ℕ → Progress
  failed : Progress
  waiting : Progress

-- `client_recv_data` into `buf`, from the count `n_has_recv` on. A chunk is what one call of `recv`
-- gives, of which it takes no more than it is asked for; an empty one is an error or the end.
unfoldable pub client_recv_data :
    List (List ℕ) → (buf : List ℕ) → (n_has_recv len : ℕ) → Outcome (Progress × List ℕ)
client_recv_data [] buf n_has_recv len =
    done (if ltb n_has_recv len then waiting else returned n_has_recv, buf)
client_recv_data ([] ∷ chunks) buf n_has_recv len =
    done (if ltb n_has_recv len then failed else returned n_has_recv, buf)
client_recv_data ((c ∷ cs) ∷ chunks) buf n_has_recv len =
    let got = take (len - n_has_recv) (c ∷ cs) in
    let later = (do
      buf' ← copy buf n_has_recv got
      client_recv_data chunks buf' (n_has_recv + length got) len) in
    if ltb n_has_recv len then later else done (returned n_has_recv, buf)

-- The inner loop of `net_send_tsk`, over the bytes of `data` from `nhas_send` on: what the socket
-- takes. `client_send_data` returns what `send` does, no more than it is asked for, and 0 here for an
-- error; where the list ends, the next call fails.
unfoldable pub send_rest : List ℕ → (bytes : List ℕ) → (nhas_send data_len : ℕ) → Outcome (List ℕ)
send_rest [] bytes nhas_send data_len = done []
send_rest (n ∷ later) bytes nhas_send data_len =
    let nsend = min n (data_len - nhas_send) in
    let rest = send_rest later bytes (nhas_send + nsend) data_len in
    let written = (do
      src ← read (drop nhas_send bytes) (data_len - nhas_send)
      sent ← rest
      done (take nsend src ++ sent)) in
    if ltb nhas_send data_len then if nsend == 0 then done [] else written else done []

-- The buffers of `g_net_send_buf` that are free, and the array `data` of each.
pub record Outgoing : Type 0 where
  pub free : List ℕ
  pub data_of : ℕ → List ℕ
  pub mailbox : Mailbox

-- One round of `net_send_tsk` with the message that `mailbox_pend` returned.
unfoldable pub net_send : Message → (sends : List ℕ) → Link → Outgoing → Outcome (List ℕ × Outgoing)
unfolding send_rest
net_send msg sends l o =
    let recycled = record o { free = FreeList.recycle o.free msg.p } in
    let online = (do
      sent ← send_rest sends (o.data_of msg.p) 0 msg.data_len
      done (sent, recycled)) in
    if l.conn_state then online else done ([], recycled)

-- `net_protocol_dispose` of net/net_protocol.c: the `len` bytes at `bytes` are copied and posted.
-- `mbx_id` is `g_net_mbx_id`.
unfoldable pub net_protocol_dispose :
    (bytes : List ℕ) (len mbx_id : ℕ) → Outgoing → Outcome Outgoing
net_protocol_dispose bytes len mbx_id o = do
  (b, free) ← FreeList.produce o.free
  let copied = (do src ← read bytes len; copy (o.data_of b) 0 src)
  d ← if len == 0 then done (o.data_of b) else copied
  q ← mailbox_post (record { id = mbx_id; prio = 0; p = b; data_len = len }) true o.mailbox
  done (record { free = free; data_of = λ i. if i == b then d else o.data_of i; mailbox = q })
