-- ===== src/Net/Wifi.antt =====
-- net/wifi.h and net/wifi.c: is a wireless network among those that `iwlist` prints?
pub mod Search
use multi_port_convertor.Base.{
  ℕ, zero, suc, ◌+◌, ◌-◌, Bool, true, false, List, [], ◌∷◌, ◌++◌, Option, none, some, Outcome, done,
  ◌>>=◌, copy, if◌then◌else◌, length, take, drop, replicate,
}
use multi_port_convertor.Usb.Disk.{strstr}

-- `substr`: the bytes of `str` from `start` up to `end` are copied into an array of 256 bytes that is
-- zeroed, with a NUL behind them; the result is the text in the array. It faults where they do not fit.
unfoldable pub substr : List ℕ → (start finish : ℕ) → Outcome (List ℕ)
substr str start finish = do
  let text = take (finish - start) (drop start str)
  strbuf ← copy (replicate 256 0) 0 (text ++ (0 ∷ []))
  done text

-- What a run of the loop comes to: `waiting` is a run that has used up its fuel.
pub data Result : Type 0 where
  found missing waiting : Result

-- The loop of `sesrch_AP` from `p` on. `regexec` gives the bounds of the next match of `ESSID.*`, and
-- no such bounds where there is none.
module _ (regexec : List ℕ → Option (ℕ × ℕ)) (ssid : List ℕ) where
  abbrev after_match : Option (ℕ × ℕ) → List ℕ → (List ℕ → Outcome Result) → Outcome Result
  after_match none p later = done missing
  after_match (some (rm_so, rm_eo)) p later = do
    ap_name ← substr p rm_so rm_eo
    (if strstr ap_name ssid then done found else later (drop rm_eo p))

  unfoldable pub search_from : (fuel : ℕ) → List ℕ → Outcome Result
  unfolding substr
  search_from zero p = done waiting
  search_from (suc fuel) p = after_match (regexec p) p (search_from fuel)

-- `sesrch_AP`: found is 0, and missing is -1, as where the pattern does not compile. The text is what
-- `iwlist` prints, up to its first NUL.
unfoldable pub sesrch_ap :
    (regcomp : Bool)
    → (List ℕ → Option (ℕ × ℕ))
    → (ssid : List ℕ) → (text : List ℕ) → Outcome Result
unfolding search_from
sesrch_ap false regexec ssid text = done missing
sesrch_ap true regexec ssid text = search_from regexec ssid (suc (length text)) text
