-- ===== src/App/Main.antt =====
-- app/main.c: the values with which the program starts, and the main task.
pub mod Seconds
use multi_port_convertor.Base.{
  ℕ, zero, suc, ◌+◌, Bool, true, false, List, [], ◌∷◌, Outcome, done, ◌>>=◌, leb, if◌then◌else◌,
  u32, replicate,
}
use multi_port_convertor.Uart.State.{SystemInfo}

-- `system_info`, with the zeros of the fields that its initialiser leaves out.
abbrev pub system_info : SystemInfo
system_info = record {
  firmware_ver = 1 ∷ 0 ∷ 0 ∷ [];
  hardware_ver = 1 ∷ 0 ∷ 0 ∷ [];
  protocol_ver = 1 ∷ 0 ∷ 0 ∷ [];
  mac = replicate 6 0;
  time_valid = 0;
  timezone = 0;
  poweron = 1;
}

module _ {S : Type 0} (get_time_url : S → Outcome S) where
  -- One second of the loop: `timing_interval`, and what `get_time_Url` changes.
  unfoldable pub main_second : ℕ × S → Outcome (ℕ × S)
  main_second (timing_interval, s) =
      let n = u32 (timing_interval + 1) in
      let beat = (do s' ← get_time_url s; done (0, s')) in if leb 60 n then beat else done (n, s)

  -- The first `n` seconds.
  unfoldable pub main_loop : ℕ → ℕ × S → Outcome (ℕ × S)
  unfolding main_second
  main_loop zero t = done t
  main_loop (suc n) t = main_second t >>= main_loop n
