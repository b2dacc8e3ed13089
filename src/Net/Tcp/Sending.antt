-- ===== src/Net/Tcp/Sending.antt =====
-- A message from `net_protocol_dispose` of net/net_protocol.c through `net_send_tsk` of net/net.c.
use multi_port_convertor.Base.{
  ℕ, some, copy, ==_refl, Bool-cases, inl, inr, zero, suc, ◌+◌, ◌-◌, ◌≤◌, ◌≡◌, refl, ap, true,
  false, List, [], ◌∷◌, ◌++◌, arith, done, ◌>>=◌, copy-done, read, read-done, ltb, ◌==◌,
  if◌then◌else◌, length, length-append, length-take, length-drop, take, drop, min, All,
}
use multi_port_convertor.Tool.Mailbox.{Message, mailbox_pend, enqueue}
use multi_port_convertor.Uart.Frame.Checksum.{sum}
use multi_port_convertor.Net.Tcp.{Link, Outgoing, send_rest, net_send, net_protocol_dispose}
use multi_port_convertor.Net.Tcp.Streams.{drop-drop, take-past}

take-take : (a k : ℕ) (xs : List ℕ) → a ≤ k → take a (take k xs) ≡ take a xs
take-take zero k xs h = refl
take-take (suc a) zero xs h = absurd (omega arith)
take-take (suc a) (suc k) [] h = refl
take-take (suc a) (suc k) (x ∷ xs) h = ap (λ ys. x ∷ ys) (take-take a k xs (omega arith))

take-then : (a b : ℕ) (xs : List ℕ) → take a xs ++ take b (drop a xs) ≡ take (a + b) xs
take-then zero b xs = let e : 0 + b ≡ b = omega arith in rw e refl
take-then (suc a) b [] = let e : suc a + b ≡ suc (a + b) = omega arith in rw e (take_nil b)
  where
    take_nil : (n : ℕ) → take {A = ℕ} n [] ≡ []
    take_nil zero = refl
    take_nil (suc n) = refl
take-then (suc a) b (x ∷ xs) =
    let e : suc a + b ≡ suc (a + b) = omega arith in rw e (ap (λ ys. x ∷ ys) (take-then a b xs))

send_rest-from :
    (sends bytes : List ℕ) (nhas k : ℕ)
    → All (λ n. 1 ≤ n) sends
    → k ≤ sum sends
    → nhas + k ≤ length bytes
    → send_rest sends bytes nhas (nhas + k) ≡ done (take k (drop nhas bytes))
unfolding send_rest
send_rest-from [] bytes nhas zero a h r = refl
send_rest-from [] bytes nhas (suc k) a h r = absurd (omega arith)
send_rest-from (n ∷ sends) bytes nhas zero a h r =
    let e : nhas + 0 ≡ nhas = omega arith in
    let f : ltb nhas nhas ≡ false = ground arith in rw (e, f) refl
send_rest-from (n ∷ sends) bytes nhas (suc k) a h r =
    let m = min n (suc k) in
    let t : ltb nhas (nhas + suc k) ≡ true = ground arith in
    let d : nhas + suc k - nhas ≡ suc k = omega arith in
    let z : (m == 0) ≡ false = ground (arith, a.0) in
    let e : nhas + m + (suc k - m) ≡ nhas + suc k = omega arith in
    let s : m + (suc k - m) ≡ suc k = omega arith in
    let ih = send_rest-from sends bytes (nhas + m) (suc k - m) a.1 (omega arith) (omega arith) in
    let ih' = rw e at ih in
    rw (t, d, z, read-done (drop nhas bytes) (suc k) (omega (arith, length-drop nhas bytes)), ih')
      (ap done (
        rw
          (
            take-take m (suc k) (drop nhas bytes) (omega arith),
            ← (drop-drop nhas m bytes),
            take-then m (suc k - m) (drop nhas bytes),
            s,
          )
          refl))

-- Where each call of `send` takes a byte at least, and all of them `len` bytes together, the loop
-- of `net_send_tsk` sends the first `len` bytes of the data.
pub send_rest-whole :
    (sends bytes : List ℕ) (len : ℕ)
    → All (λ n. 1 ≤ n) sends
    → len ≤ sum sends
    → len ≤ length bytes
    → send_rest sends bytes 0 len ≡ done (take len bytes)
send_rest-whole sends bytes len a h r =
    let e : 0 + len ≡ len = omega arith in
    rw e at (send_rest-from sends bytes 0 len a h (omega arith))

-- The array behind the copy, or as it was where there is nothing to copy.
bytes_copied :
    (len : ℕ) (bytes array : List ℕ)
    → len ≤ length bytes
    → len ≤ length array
    → (if len == 0 then done array else (do src ← read bytes len; copy array 0 src))
      ≡ done (take len bytes ++ drop len array)
bytes_copied zero bytes array h r = refl
bytes_copied (suc k) bytes array h r =
    let l : length (take (suc k) bytes) ≡ suc k = omega (arith, length-take (suc k) bytes) in
    let z : 0 + suc k ≡ suc k = omega arith in
    let n : (suc k == 0) ≡ false = ground arith in
    rw
      (
        read-done bytes (suc k) h,
        copy-done array 0 (take (suc k) bytes) (omega (arith, l)),
        l,
        z,
        n,
      )
      refl

front :
    (len : ℕ) (bytes old : List ℕ)
    → len ≤ length bytes
    → take len (take len bytes ++ old) ≡ take len bytes
front len bytes old h =
    let l : length (take len bytes) ≡ len = omega (arith, length-take len bytes) in
    rw l at (take-past (take len bytes) old)

-- With a free buffer, no waiting message and data that fit: what `net_protocol_dispose` posts,
-- `net_send_tsk` sends whole and in order if the link is up, however `send` cuts it, and else
-- drops; either way the buffer is behind the free ones afterwards.
pub net_protocol_dispose-sent :
    (bytes : List ℕ) (len id b : ℕ) (rest sends : List ℕ) (l : Link) (o : Outgoing)
    → o.free ≡ b ∷ rest
    → o.mailbox ≡ []
    → len ≤ length bytes
    → len ≤ length (o.data_of b)
    → All (λ n. 1 ≤ n) sends
    → len ≤ sum sends
    → (p q : Outgoing) × (m : Message) × (net_protocol_dispose bytes len id o ≡ done p)
      × (mailbox_pend p.mailbox ≡ some (m, []))
      × (net_send m sends l (record p { mailbox = [] })
          ≡ done (if l.conn_state then take len bytes else [], q))
      × (q.free ≡ rest ++ (b ∷ []))
unfolding net_protocol_dispose net_send enqueue
net_protocol_dispose-sent bytes len id b rest sends l o f e h r a s =
    let array = o.data_of b in
    let d = take len bytes ++ drop len array in
    let m : Message = record { id = id; prio = 0; p = b; data_len = len } in
    let p : Outgoing = record {
      free = rest;
      data_of = λ i. if i == b then d else o.data_of i;
      mailbox = m ∷ [];
    } in
    let q : Outgoing = record p { free = rest ++ (b ∷ []); mailbox = [] } in
    let w = send_rest-whole sends d len a s (
      omega (
        arith,
        length-append (take len bytes) (drop len array),
        length-take len bytes,
        length-drop len array,
      )) in
    (
      p,
      q,
      m,
      rw (f, bytes_copied len bytes array h r, e) refl,
      refl,
      elim (Bool-cases l.conn_state) [
        | inl y ↦ rw (y, ==_refl b, w, front len bytes (drop len array) h) refl
        | inr n ↦ rw n refl
      ],
      refl,
    )
