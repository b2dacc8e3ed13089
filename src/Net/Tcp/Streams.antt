-- ===== src/Net/Tcp/Streams.antt =====
-- What passes through the sockets of net/tcp.c and net/net.c.
use multi_port_convertor.Base.{
  ℕ, zero, suc, ◌+◌, ◌-◌, ◌≤◌, ◌≡◌, refl, ap, ◌∙◌, true, false, List, [], ◌∷◌, ◌++◌, arith, done,
  copy, copy-done, ltb, length, length-append, length-take, length-drop, take, drop, append_assoc,
  All,
}
use multi_port_convertor.Net.Tcp.{returned, client_recv_data}

-- All bytes of the chunks.
abbrev pub joined : List (List ℕ) → List ℕ
joined [] = []
joined (c ∷ cs) = c ++ joined cs

-- No call fails.
abbrev pub NoneEmpty : List (List ℕ) → Type 0
NoneEmpty = All (λ c. 1 ≤ length c)

module _ {A : Type 0} where
  pub take-split :
      (k : ℕ) (xs ys : List A) → take k (xs ++ ys) ≡ take k xs ++ take (k - length (take k xs)) ys
  take-split zero xs ys = refl
  take-split (suc k) [] ys = let e : suc k - 0 ≡ suc k = omega arith in rw e refl
  take-split (suc k) (x ∷ xs) ys =
      let e : suc k - suc (length (take k xs)) ≡ k - length (take k xs) = omega arith in
      rw e (ap (λ zs. x ∷ zs) (take-split k xs ys))

  pub drop-drop : (a b : ℕ) (xs : List A) → drop b (drop a xs) ≡ drop (a + b) xs
  drop-drop zero b xs = let e : 0 + b ≡ b = omega arith in rw e refl
  drop-drop (suc a) b [] = drop_nil b
    where
      drop_nil : (n : ℕ) → drop {A = A} n [] ≡ drop {A = A} (suc a + n) []
      drop_nil zero = let e : suc a + 0 ≡ suc a = omega arith in rw e refl
      drop_nil (suc n) = let e : suc a + suc n ≡ suc (a + suc n) = omega arith in rw e refl
  drop-drop (suc a) b (x ∷ xs) =
      let e : suc a + b ≡ suc (a + b) = omega arith in rw e (drop-drop a b xs)

  pub drop-past : (pre old : List A) (g : ℕ) → drop (length pre + g) (pre ++ old) ≡ drop g old
  drop-past [] old g = let e : 0 + g ≡ g = omega arith in rw e refl
  drop-past (x ∷ pre) old g =
      let e : suc (length pre) + g ≡ suc (length pre + g) = omega arith in
      rw e (drop-past pre old g)

  pub take-past : (pre old : List A) → take (length pre) (pre ++ old) ≡ pre
  take-past [] old = refl
  take-past (x ∷ pre) old = ap (λ zs. x ∷ zs) (take-past pre old)

chunk-copied :
    (pre old got : List ℕ)
    → length got ≤ length old
    → copy (pre ++ old) (length pre) got ≡ done ((pre ++ got) ++ drop (length got) old)
chunk-copied pre old got h =
    copy-done (pre ++ old) (length pre) got (omega (arith, length-append pre old))
    ∙ rw (take-past pre old, drop-past pre old (length got), append_assoc) refl

-- The bytes of a chunk, and then those of the others.
chunk-then :
    (pre chunk rest old : List ℕ) (k : ℕ)
    → let got = take k chunk in
      (pre ++ got) ++ (take (k - length got) rest ++ drop k old)
      ≡ pre ++ (take k (chunk ++ rest) ++ drop k old)
chunk-then pre chunk rest old k =
    rw
      (
        take-split k chunk rest,
        append_assoc pre (take k chunk) (take (k - length (take k chunk)) rest ++ drop k old),
        append_assoc (take k chunk) (take (k - length (take k chunk)) rest) (drop k old),
      )
      refl

client_recv_data-from :
    (chunks : List (List ℕ)) (pre old : List ℕ) (k : ℕ)
    → NoneEmpty chunks
    → k ≤ length (joined chunks)
    → k ≤ length old
    → client_recv_data chunks (pre ++ old) (length pre) (length pre + k)
      ≡ done (returned (length pre + k), pre ++ (take k (joined chunks) ++ drop k old))
unfolding client_recv_data
client_recv_data-from [] pre old zero a h r =
    let e : length pre + 0 ≡ length pre = omega arith in
    let f : ltb (length pre) (length pre) ≡ false = ground arith in rw (e, f) refl
client_recv_data-from [] pre old (suc k) a h r = absurd (omega arith)
client_recv_data-from ([] ∷ chunks) pre old k a h r = absurd (omega (arith, a.0))
client_recv_data-from ((c ∷ cs) ∷ chunks) pre old zero a h r =
    let e : length pre + 0 ≡ length pre = omega arith in
    let f : ltb (length pre) (length pre) ≡ false = ground arith in rw (e, f) refl
client_recv_data-from ((c ∷ cs) ∷ chunks) pre old (suc k) a h r =
    let got = take (suc k) (c ∷ cs) in
    let g = length got in
    let l = length-take (suc k) (c ∷ cs) in
    let all = length-append (c ∷ cs) (joined chunks) in
    let t : ltb (length pre) (length pre + suc k) ≡ true = ground arith in
    let d : length pre + suc k - length pre ≡ suc k = omega arith in
    let e1 : length (pre ++ got) ≡ length pre + g = length-append pre got in
    let e2 : length pre + g + (suc k - g) ≡ length pre + suc k = omega (arith, l) in
    let e3 : g + (suc k - g) ≡ suc k = omega (arith, l) in
    let ih =
      client_recv_data-from chunks (pre ++ got) (drop g old) (suc k - g) a.1 (omega (arith, l, all))
        (omega (arith, l, length-drop g old)) in
    rw (t, d, chunk-copied pre old got (omega (arith, l)))
      (rw (e1, e2, drop-drop g (suc k - g) old, e3) at ih
        ∙ ap (λ z. done (returned (length pre + suc k), z))
            (chunk-then pre (c ∷ cs) (joined chunks) old (suc k)))

-- Where the chunks that `recv` gives are not empty and together at least `len` bytes, and the
-- buffer has room for these: `client_recv_data` returns `len`, with the first `len` bytes of the
-- stream at the front of the buffer, however the stream is cut into chunks.
pub client_recv_data-stream :
    (chunks : List (List ℕ)) (buf : List ℕ) (len : ℕ)
    → NoneEmpty chunks
    → len ≤ length (joined chunks)
    → len ≤ length buf
    → client_recv_data chunks buf 0 len
      ≡ done (returned len, take len (joined chunks) ++ drop len buf)
client_recv_data-stream chunks buf len a h r =
    let e : 0 + len ≡ len = omega arith in rw e at (client_recv_data-from chunks [] buf len a h r)
