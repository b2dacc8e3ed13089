-- ===== src/App/Main/Seconds.antt =====
-- How often the main task of app/main.c asks the server.
use multi_port_convertor.Base.{
  ℕ, zero, suc, ◌+◌, ◌/◌, ◌%◌, ◌<◌, ◌≡◌, refl, arith, dec_lt, Outcome, done, exits, faults, ◌>>=◌,
}
use multi_port_convertor.App.Main.{main_second, main_loop}

-- `n` runs of a task, one after the other.
abbrev pub times : {S : Type 0} → (S → Outcome S) → ℕ → S → Outcome S
times f zero s = done s
times f (suc n) s = f s >>= times f n

module _ {S : Type 0} (get_time_url : S → Outcome S) where
  -- The state behind `k` requests, with the seconds since the last.
  abbrev asked : ℕ → ℕ → S → Outcome (ℕ × S)
  asked k t s = times get_time_url k s >>= λ s'. done (t, s')

  before_minute : (t : ℕ) (s : S) → t < 59 → main_second get_time_url (t, s) ≡ done (t + 1, s)
  unfolding main_second
  before_minute t s h = ground arith

  at_minute :
      (s : S) (k : ℕ × S → Outcome (ℕ × S)) (m : ℕ) (t : ℕ)
      → ((s' : S) → k (0, s') ≡ asked m t s')
      → (main_second get_time_url (59, s) >>= k) ≡ asked (suc m) t s
  unfolding main_second
  at_minute s k m t h = by_beat (get_time_url s)
    where
      by_beat :
          (o : Outcome S)
          → ((o >>= λ s'. done (0, s')) >>= k)
            ≡ ((o >>= times get_time_url m) >>= λ s'. done (t, s'))
      by_beat (done s') = h s'
      by_beat exits = refl
      by_beat faults = refl

  main_loop-from :
      (n t : ℕ) (s : S)
      → t < 60
      → main_loop get_time_url n (t, s) ≡ asked ((t + n) / 60) ((t + n) % 60) s
  unfolding main_loop
  main_loop-from zero t s h =
      let q : (t + 0) / 60 ≡ 0 = omega arith in
      let r : (t + 0) % 60 ≡ t = omega arith in rw (q, r) refl
  main_loop-from (suc n) t s h = elim (dec_lt t 59) [
    | yes l ↦
        let e : t + suc n ≡ t + 1 + n = omega arith in
        rw (before_minute t s l, e) (main_loop-from n (t + 1) s (omega arith))
    | no g ↦
        let e : t ≡ 59 = omega arith in
        let q : (59 + suc n) / 60 ≡ suc (n / 60) = omega arith in
        let r : (59 + suc n) % 60 ≡ n % 60 = omega arith in
        let z : 0 + n ≡ n = omega arith in
        rw (e, q, r)
          (at_minute s (main_loop get_time_url n) (n / 60) (n % 60)
            (λ s'. rw z at (main_loop-from n 0 s' (omega arith))))
  ]

  -- The first `n` seconds of the main task are `n / 60` requests for the time, one after the other,
  -- and the interval then stands at `n % 60`; this holds for what the requests change, and for an
  -- end of the process in one of them.
  pub main_loop-times :
      (n : ℕ) (s : S)
      → main_loop get_time_url n (0, s)
        ≡ (times get_time_url (n / 60) s >>= λ s'. done (n % 60, s'))
  main_loop-times n s =
      let z : 0 + n ≡ n = omega arith in rw z at (main_loop-from n 0 s (omega arith))
