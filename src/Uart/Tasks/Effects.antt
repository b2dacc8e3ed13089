-- ===== src/Uart/Tasks/Effects.antt =====
-- What `uart_protocol_dispose` and the answers of uart/uart_protocol.c do to the shared state where
-- they return: one frame that the protocol's check accepts is queued in the first free buffer.
use multi_port_convertor.Base.{
  ℕ, zero, suc, ◌+◌, ◌-◌, ◌%◌, ◌≤◌, ◌<◌, ◌≡◌, refl, ap, ◌∙◌, true, List, [], ◌∷◌, ◌++◌, arith, done,
  ◌>>=◌, Safe, Safe-bind, always, Safe-weaken, Bool-cases, inl, inr, Safe-test, ltb, leb, leb→le,
  ◌==◌, if◌then◌else◌, u8, u16, u32, length, length-set, set, take, get_or, put, copy, read,
  length-append, length-take, length-drop, drop,
}
use multi_port_convertor.Tool.FreeList
use multi_port_convertor.Uart.Frame.{CmdFormat, covered, frame_len, check_sum_cal, procotol_check}
use multi_port_convertor.Uart.Frame.Checksum.{sum, procotol_check_lem, sum_from-sum}
use multi_port_convertor.Uart.State.{Uart, update}
use multi_port_convertor.Uart.Notify.{SendInfo, header_written, uart_protocol_dispose}

-- The first free buffer is queued with a frame that passes the check; `t` is its type.
pub record Queues (t : ℕ) (u v : Uart) : Type 0 where
  pub first : ℕ
  pub rest : List ℕ
  pub frame : CmdFormat
  pub was_free : u.free ≡ first ∷ rest
  pub free : v.free ≡ rest
  pub sends : v.sends ≡ u.sends ++ (first ∷ [])
  pub formats :
      v.formats
      ≡ update u.formats first
          (record { poll = record ((u.formats first).poll) { type = t }; cmd = frame })
  pub mailbox : v.mailbox ≡ u.mailbox
  pub valid : procotol_check frame ≡ done true
  pub room : length frame.payload ≡ 129
  pub short : frame_len frame ≤ 132
  pub head : frame.head ≡ 0xD0

-- Every buffer's array has its declared size.
abbrev pub Rooms : Uart → Type 0
Rooms u = (b : ℕ) → length (u.formats b).cmd.payload ≡ 129

pub put-Safe :
    (buf : List ℕ) (i v : ℕ) → Safe (λ p. (i < length buf) × (p ≡ set buf i v)) (put buf i v)
unfolding put
put-Safe buf i v = Safe-test _ (ltb i (length buf)) (set buf i v) (λ t. (ground arith, refl))

pub copy-Safe :
    (buf : List ℕ) (off : ℕ) (src : List ℕ)
    → Safe (λ p. (off + length src ≤ length buf) × (length p ≡ length buf)) (copy buf off src)
unfolding copy
copy-Safe buf off src = Safe-test _ (leb (off + length src) (length buf)) _ (λ t. (
  ground arith,
  omega (
    arith,
    leb→le (off + length src) (length buf) t,
    length-append (take off buf) (src ++ drop (off + length src) buf),
    length-append src (drop (off + length src) buf),
    length-take off buf,
    length-drop (off + length src) buf,
  ),
))

take-set : (xs : List ℕ) (k v : ℕ) → take k (set xs k v) ≡ take k xs
take-set [] k v = refl
take-set (x ∷ xs) zero v = refl
take-set (x ∷ xs) (suc k) v = ap (λ ys. x ∷ ys) (take-set xs k v)

get_or-set : (xs : List ℕ) (k v : ℕ) → k < length xs → get_or (set xs k v) k 0 ≡ v
get_or-set [] k v h = absurd (omega arith)
get_or-set (x ∷ xs) zero v h = refl
get_or-set (x ∷ xs) (suc k) v h = get_or-set xs k v (omega arith)

take-covered :
    (f : CmdFormat) (k v : ℕ)
    → take (k + 4) (covered (record f { payload = set f.payload k v })) ≡ take (k + 4) (covered f)
take-covered f k v =
    let n : k + 4 ≡ suc (suc (suc (suc k))) = omega arith in
    rw n (ap (λ ys. f.sta_param ∷ f.sn ∷ f.pdt_type ∷ f.cmd_id ∷ ys) (take-set f.payload k v))

-- A frame whose sum is stored behind its data passes the check.
summed :
    (f : CmdFormat) (k : ℕ)
    → length f.payload ≡ 129
    → frame_len f ≡ k + 4
    → k < 129
    → procotol_check (record f { payload = set f.payload k (sum (take (k + 4) (covered f)) % 256) })
      ≡ done true
summed f k room e h =
    let c = sum (take (k + 4) (covered f)) % 256 in
    let g : CmdFormat = record f { payload = set f.payload k c } in
    let z : k + 4 - 4 ≡ k = omega arith in
    procotol_check_lem g (omega arith) (omega (arith, length-set f.payload k c)) (omega arith)
    ∙ rw (e, z, get_or-set f.payload k c (omega arith), take-covered f k c) (ap done (ground arith))

check_sum_cal-Safe :
    (p : List ℕ) (len : ℕ) → Safe (λ c. c ≡ sum (take (u16 len) p) % 256) (check_sum_cal p len)
unfolding check_sum_cal read
check_sum_cal-Safe p len =
    Safe-bind (λ r. r ≡ take (u16 len) p) _ (read p (u16 len)) _
      (Safe-test _ (leb (u16 len) (length p)) _ (λ t. refl))
      (λ r e. rw e (omega (arith, sum_from-sum 0 (take (u16 len) p))))

-- What is left of a queuing call once the header and the data of its frame are written.
module _ (u : Uart) (t b : ℕ) (rest : List ℕ) (free : u.free ≡ b ∷ rest) (f : CmdFormat)
    (k n sn : ℕ) (room : length f.payload ≡ 129) (len : k < 129 → frame_len f ≡ k + 4)
    (size : k < 129 → u16 n ≡ k + 4) (head : f.head ≡ 0xD0) where
  stored :
      (c : ℕ)
      → c ≡ sum (take (u16 n) (covered f)) % 256
      → (p : List ℕ) → (k < length f.payload) × (p ≡ set f.payload k c)
      → (procotol_check (record f { payload = p }) ≡ done true) × (length p ≡ 129)
  stored c s p h =
      let l : k < 129 = omega (arith, h.0) in
      (rw (h.1, s, size l) (summed f k room (len l) l), rw (h.1, length-set f.payload k c) room)

  pub put-Queues : Safe (Queues t u) (
      check_sum_cal (covered f) n >>= λ c. put f.payload k c >>= λ p. done (record u {
        free = rest;
        sends = u.sends ++ (b ∷ []);
        formats = update u.formats b (record {
          poll = record ((u.formats b).poll) { type = t };
          cmd = record f { payload = p };
        });
        uart_send_sn = sn;
      }))
  put-Queues =
      Safe-bind (λ c. c ≡ sum (take (u16 n) (covered f)) % 256) (Queues t u)
        (check_sum_cal (covered f) n) _ (check_sum_cal-Safe (covered f) n)
        (λ c s.
          Safe-bind (λ p. (k < length f.payload) × (p ≡ set f.payload k c)) (Queues t u)
            (put f.payload k c) _ (put-Safe f.payload k c)
            (λ p h.
              let (valid, fits) = stored c s p h in
              record {
                first = b;
                rest = rest;
                frame = record f { payload = p };
                was_free = free;
                free = refl;
                sends = refl;
                formats = refl;
                mailbox = refl;
                valid = valid;
                room = fits;
                short = omega (arith, len (omega (arith, h.0)));
                head = head;
              }))

pub produce-Safe : (fs : List ℕ) → Safe (λ x. fs ≡ x.0 ∷ x.1) (FreeList.produce fs)
produce-Safe [] = tt
produce-Safe (b ∷ free) = refl

copied-Safe :
    (info : SendInfo) (old : List ℕ)
    → Safe
        (λ p. length p ≡ length old)
        (if info.len == 0 then done old else (do src ← read info.content info.len; copy old 0 src))
copied-Safe info old = elim (Bool-cases (info.len == 0)) [
  | inl z ↦ rw z refl
  | inr z ↦ rw z (
      Safe-bind (λ src. Unit {0}) (λ p. length p ≡ length old) (read info.content info.len) _
        (always _) (λ src _. Safe-weaken _ _ (copy old 0 src) (copy-Safe old 0 src) (λ p h. h.1)))
]

-- A notification.
pub uart_protocol_dispose-Queues :
    (info : SendInfo) (u : Uart)
    → Rooms u
    → Safe (Queues info.poll_type u) (uart_protocol_dispose info u)
unfolding uart_protocol_dispose
uart_protocol_dispose-Queues info u room =
    Safe-bind (λ x. u.free ≡ x.0 ∷ x.1) _ (FreeList.produce u.free) _ (produce-Safe u.free)
      (λ x e.
        let old = (u.formats x.0).cmd in
        let cmd = header_written info u.uart_send_sn old in
        Safe-bind (λ p. length p ≡ length old.payload) _ _ _ (copied-Safe info old.payload)
          (λ p l.
            put-Queues u info.poll_type x.0 x.1 e (record cmd { payload = p }) info.len
              (u32 (info.len + 4)) (u8 (u.uart_send_sn + 1)) (l ∙ room x.0) (λ h. omega arith)
              (λ h. omega arith) refl))
