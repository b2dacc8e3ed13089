-- ===== src/Net/Wifi/Search.antt =====
-- What `sesrch_AP` of net/wifi.c finds.
use multi_port_convertor.Base.{
  ◌+◌, ap, ◌∙◌, ℕ, zero, suc, ◌-◌, ◌≤◌, ◌<◌, ◌≡◌, refl, inl, inr, Bool, true, false, Bool-cases,
  List, [], ◌∷◌, ◌++◌, Option, none, some, arith, done, copy-done, if◌then◌else◌, length,
  length-append, length-take, length-drop, length-replicate, take, drop, replicate,
}
use mathlib.Core.Path.{sym}
use multi_port_convertor.Usb.Disk.{strstr}
use multi_port_convertor.Net.Wifi.{substr, found, missing, search_from, sesrch_ap}

substr-done :
    (str : List ℕ) (start finish : ℕ)
    → finish - start < 256
    → substr str start finish ≡ done (take (finish - start) (drop start str))
unfolding substr
substr-done str start finish h =
    let text = take (finish - start) (drop start str) in
    rw
      (copy-done (replicate 256 0) 0 (text ++ (0 ∷ [])) (
        omega (
          arith,
          length-append text (0 ∷ []),
          length-take (finish - start) (drop start str),
          length-replicate {A = ℕ} 256 0,
        )))
      refl

drop-nil : (n : ℕ) → drop {A = ℕ} n [] ≡ []
drop-nil zero = refl
drop-nil (suc n) = refl

drop-drop : (k n : ℕ) (xs : List ℕ) → drop n (drop k xs) ≡ drop (k + n) xs
drop-drop zero n xs = ap (λ i. drop i xs) (omega arith)
drop-drop (suc k) n [] = drop-nil n ∙ sym (drop-nil (suc k + n))
drop-drop (suc k) n (x ∷ xs) =
    let e : suc (k + n) ≡ suc k + n = omega arith in
    drop-drop k n xs ∙ ap (λ (i : ℕ). drop i (x ∷ xs)) e

-- What POSIX says of a match of `ESSID.*`, which is not empty; and that the matches on this text, which
-- end with their lines, are short.
pub record Matches (regexec : List ℕ → Option (ℕ × ℕ)) (text : List ℕ) : Type 0 where
  pub not_empty : (p : List ℕ) (so eo : ℕ) → regexec p ≡ some (so, eo) → so < eo
  pub inside : (p : List ℕ) (so eo : ℕ) → regexec p ≡ some (so, eo) → eo ≤ length p
  pub short : (k so eo : ℕ) → regexec (drop k text) ≡ some (so, eo) → eo - so < 256

module _ (regexec : List ℕ → Option (ℕ × ℕ)) (ssid : List ℕ) where
  -- The networks that the text names, one after the other: behind each match the search goes on.
  pub data Names : List ℕ → List (List ℕ) → Type 0 where
    last : {p : List ℕ} → regexec p ≡ none → Names p []
    then_more :
        {p : List ℕ} {so eo : ℕ} {rest : List (List ℕ)}
        → regexec p ≡ some (so, eo)
        → Names (drop eo p) rest
        → Names p (take (eo - so) (drop so p) ∷ rest)

  -- Is one of the texts a superstring of the name?
  abbrev pub one_with : List (List ℕ) → Bool
  one_with [] = false
  one_with (n ∷ ns) = if strstr n ssid then true else one_with ns

  -- The search from a text on ends with the networks that it names.
  abbrev Ends : ℕ → List ℕ → Type 0
  Ends fuel p =
      (names : List (List ℕ)) × Names p names
      × (search_from regexec ssid fuel p ≡ done (if one_with names then found else missing))

  module _ (text : List ℕ) (m : Matches regexec text) where
    next_match :
        (fuel k : ℕ) (o : Option (ℕ × ℕ))
        → regexec (drop k text) ≡ o
        → length (drop k text) < suc fuel
        → ((n : ℕ) → length (drop n text) < fuel → Ends fuel (drop n text))
        → Ends (suc fuel) (drop k text)
    unfolding search_from
    next_match fuel k none e h ih = ([], last e, rw e refl)
    next_match fuel k (some (so, eo)) e h ih =
        let p = drop k text in
        let lt = m.not_empty p so eo e in
        let small : length (drop eo p) < fuel =
          omega (arith, length-drop eo p, m.inside p so eo e) in
        let later : Ends fuel (drop eo p) =
          rw (drop-drop k eo text) (ih (k + eo) (rw (sym (drop-drop k eo text)) small)) in
        let (names, named, q) = later in
        let name = take (eo - so) (drop so p) in
        (
          name ∷ names,
          then_more e named,
          rw (e, substr-done p so eo (m.short k so eo e))
              (elim (Bool-cases (strstr name ssid)) [ inl y ↦ rw y refl | inr n ↦ rw (n, q) refl ]),
        )

    search_names : (fuel k : ℕ) → length (drop k text) < fuel → Ends fuel (drop k text)
    search_names zero k h = absurd (omega arith)
    search_names (suc fuel) k h =
        next_match fuel k (regexec (drop k text)) refl h (search_names fuel)

  -- On a text where no match of the pattern from any place on is longer than 255 bytes, over
  -- matches that are not empty and inside the text, as those of `ESSID.*` are: the loop of
  -- `sesrch_AP` ends, and finds a network exactly if one of the matches, each taken behind the one
  -- before, has the name in it.
  pub sesrch_ap-names :
      (text : List ℕ)
      → Matches regexec text
      → (names : List (List ℕ)) × Names text names
        × (sesrch_ap true regexec ssid text ≡ done (if one_with names then found else missing))
  unfolding sesrch_ap
  sesrch_ap-names text m = search_names text m (suc (length text)) 0 (omega arith)
