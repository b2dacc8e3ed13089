-- ===== src/Net/Http/Heart.antt =====
-- When the server counts as out of reach: `heart_err_time` of net/http_protocol.c.
use multi_port_convertor.Base.{
  dec_lt, ℕ, ◌+◌, ◌%◌, ◌≤◌, ◌<◌, ◌≡◌, ◌≢◌, refl, ◌∙◌, List, [], ◌∷◌, ◌++◌, arith, All, length,
  if◌then◌else◌, leb,
}
use multi_port_convertor.Net.Http.{Online, set_err, heart_beat}

-- The requests of `get_time_Url` with their codes, one after the other.
unfoldable pub heart_beats : List ℕ → Online → Online
heart_beats [] o = o
heart_beats (c ∷ cs) o = heart_beats cs (heart_beat c o)

-- What the server's state holds after `n` failures in a row.
pub record Failed (n : ℕ) (before after : Online) : Type 0 where
  pub count : after.heart_err_time ≡ (before.heart_err_time + n) % 3
  pub reached : before.heart_err_time + n < 3 → (after.net 3).err ≡ (before.net 3).err
  pub lost : 3 ≤ before.heart_err_time + n → (after.net 3).err ≡ 1
  pub others : (i : ℕ) → i ≢ 3 → after.net i ≡ before.net i

failure_beat : (c : ℕ) (o : Online) → c ≢ 0 → o.heart_err_time < 3 → Failed 1 o (heart_beat c o)
unfolding heart_beat
failure_beat c o n h = record {
  count = ground arith;
  reached = λ r. ground arith;
  lost = λ r. ground arith;
  others = λ i m. ground arith;
}

-- With a count below 3, after requests that all fail the server counts as lost if they make up
-- three or more failures with those counted before, and else as before; the count is their number
-- modulo 3, and the states of the other ports are as before.
pub heart_beats-failures :
    (codes : List ℕ) (o : Online)
    → All (λ c. c ≢ 0) codes
    → o.heart_err_time < 3
    → Failed (length codes) o (heart_beats codes o)
unfolding heart_beats
heart_beats-failures [] o a h = record {
  count = omega arith;
  reached = λ r. refl;
  lost = λ r. absurd (omega arith);
  others = λ i m. refl;
}
heart_beats-failures (c ∷ codes) o a h =
    let one = failure_beat c o a.0 h in
    let o' = heart_beat c o in
    let ih = heart_beats-failures codes o' a.1 (omega (arith, one.count)) in
    record {
      count = omega (arith, one.count, ih.count);
      reached = λ r. ih.reached (omega (arith, one.count)) ∙ one.reached (omega arith);
      lost = λ r. elim (dec_lt (o.heart_err_time + 1) 3) [
        | yes p ↦ ih.lost (omega (arith, one.count))
        | no p ↦ elim (dec_lt (length codes) 3) [
          | yes q ↦ ih.reached (omega (arith, one.count)) ∙ one.lost (omega arith)
          | no q ↦ ih.lost (omega (arith, one.count))
        ]
      ];
      others = λ i m. ih.others i m ∙ one.others i m;
    }

-- After any requests, one that succeeds and then some that all fail, the server counts as lost if
-- those are three or more, and else as reached.
pub heart_beats-recovery :
    (before failures : List ℕ) (o : Online)
    → All (λ c. c ≢ 0) failures
    → ((heart_beats (before ++ (0 ∷ failures)) o).net 3).err
      ≡ (if leb 3 (length failures) then 1 else 0)
unfolding heart_beats heart_beat
heart_beats-recovery [] failures o a =
    let reset = set_err 0 (record o { heart_err_time = 0 }) in
    let f = heart_beats-failures failures reset a (omega arith) in
    elim (dec_lt (length failures) 3) [
      | yes p ↦ f.reached (omega arith) ∙ ground arith
      | no p ↦ f.lost (omega arith) ∙ ground arith
    ]
heart_beats-recovery (c ∷ before) failures o a =
    heart_beats-recovery before failures (heart_beat c o) a
