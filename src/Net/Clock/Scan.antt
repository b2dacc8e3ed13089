-- ===== src/Net/Clock/Scan.antt =====
-- Scanning the text of a time as `get_time_parse` of net/http_protocol.c does.
use multi_port_convertor.Base.{◌≢◌, ℕ, ◌+◌, ◌/◌, ◌%◌, ◌<◌, ◌≡◌, refl, List, [], ◌∷◌, arith, some}
use multi_port_convertor.Net.Clock.{
  ◌==◌, false, scan_time, scan_fields, scan_int, scan_unsigned, scan_digits, scan_char, skip_spaces,
}

abbrev pub digit : ℕ → ℕ
digit d = 48 + d

module _ (n : ℕ) (rest : List ℕ) where
  scan_int-two : n < 100 → scan_int 2 (digit (n / 10) ∷ digit (n % 10) ∷ rest) ≡ some (n, rest)
  unfolding scan_int scan_unsigned scan_digits skip_spaces
  scan_int-two h = ground arith

  scan_int-three :
      n < 1000
      → scan_int 3 (digit (n / 100) ∷ digit (n / 10 % 10) ∷ digit (n % 10) ∷ rest) ≡ some (n, rest)
  unfolding scan_int scan_unsigned scan_digits skip_spaces
  scan_int-three h = ground arith

  scan_int-four :
      n < 10000
      → scan_int 4
          (digit (n / 1000) ∷ digit (n / 100 % 10) ∷ digit (n / 10 % 10) ∷ digit (n % 10) ∷ rest)
        ≡ some (n, rest)
  unfolding scan_int scan_unsigned scan_digits skip_spaces
  scan_int-four h = ground arith

-- A calendar time with its parts in their usual counts, and its milliseconds.
pub record Moment : Type 0 where
  pub year : ℕ
  pub month : ℕ
  pub day : ℕ
  pub hour : ℕ
  pub minute : ℕ
  pub second : ℕ
  pub milli : ℕ

pub record IsWritten (m : Moment) : Type 0 where
  pub year : m.year < 10000
  pub month : m.month < 100
  pub day : m.day < 100
  pub hour : m.hour < 100
  pub minute : m.minute < 100
  pub second : m.second < 100
  pub milli : m.milli < 1000

abbrev two : ℕ → List ℕ → List ℕ
two n rest = digit (n / 10) ∷ digit (n % 10) ∷ rest

-- What `"%03d\""` prints, and what the formats before it print in front of it.
abbrev milli_text : Moment → List ℕ
milli_text m = digit (m.milli / 100) ∷ digit (m.milli / 10 % 10) ∷ digit (m.milli % 10) ∷ 34 ∷ []

abbrev second_text : Moment → List ℕ
second_text m = two m.second (b'.' ∷ milli_text m)

abbrev minute_text : Moment → List ℕ
minute_text m = two m.minute (b':' ∷ second_text m)

abbrev hour_text : Moment → List ℕ
hour_text m = two m.hour (b':' ∷ minute_text m)

abbrev day_text : Moment → List ℕ
day_text m = two m.day (32 ∷ hour_text m)

abbrev month_text : Moment → List ℕ
month_text m = two m.month (b'-' ∷ day_text m)

abbrev year_text : Moment → List ℕ
year_text m =
    digit (m.year / 1000)
    ∷ digit (m.year / 100 % 10)
    ∷ digit (m.year / 10 % 10)
    ∷ digit (m.year % 10)
    ∷ b'-'
    ∷ month_text m

-- The text of the moment, as `cJSON_Print` gives a string.
abbrev pub text_of : Moment → List ℕ
text_of m = 34 ∷ year_text m

scan_char-space :
    (n : ℕ) (rest : List ℕ) → n < 100 → scan_char 32 (32 ∷ two n rest) ≡ some (two n rest)
unfolding scan_char skip_spaces
scan_char-space n rest h = ground arith

scan_char-same : (c : ℕ) (rest : List ℕ) → c ≢ 32 → scan_char c (c ∷ rest) ≡ some rest
unfolding scan_char
scan_char-same c rest h = ground arith

scan_fields-none : scan_fields [] [] ≡ []
unfolding scan_fields
scan_fields-none = refl

-- One number and the character behind it.
scan_step :
    (width c v : ℕ) (fs : List (ℕ × ℕ)) (cs rest next vs : List ℕ)
    → scan_int width cs ≡ some (v, rest)
    → scan_char c rest ≡ some next
    → scan_fields fs next ≡ vs
    → scan_fields ((width, c) ∷ fs) cs ≡ v ∷ vs
unfolding scan_fields
scan_step width c v fs cs rest next vs n s e = rw (n, s, e) refl

no_space : (c : ℕ) → (c == 32) ≡ false → c ≢ 32
no_space c h e = absurd (ground arith)

-- A number of two digits and a character that is no space.
scan_step-two :
    (n c : ℕ) (fs : List (ℕ × ℕ)) (rest : List ℕ) {vs : List ℕ}
    → n < 100
    → c ≢ 32
    → scan_fields fs rest ≡ vs
    → scan_fields ((2, c) ∷ fs) (two n (c ∷ rest)) ≡ n ∷ vs
scan_step-two n c fs rest {vs} h m e =
    scan_step 2 c n fs (two n (c ∷ rest)) (c ∷ rest) rest vs (scan_int-two n (c ∷ rest) h)
      (scan_char-same c rest m) e

-- Scanning the text of a moment gives its parts back.
pub scan_time-text_of :
    (m : Moment)
    → IsWritten m
    → scan_time (text_of m) ≡ m.year ∷ m.month ∷ m.day ∷ m.hour ∷ m.minute ∷ m.second ∷ m.milli ∷ []
unfolding scan_time
scan_time-text_of m w =
    let f3 : List (ℕ × ℕ) = (3, 34) ∷ [] in
    let f4 : List (ℕ × ℕ) = (2, b'.') ∷ f3 in
    let f5 : List (ℕ × ℕ) = (2, b':') ∷ f4 in
    let f6 : List (ℕ × ℕ) = (2, b':') ∷ f5 in
    let f7 : List (ℕ × ℕ) = (2, 32) ∷ f6 in
    let milli =
      scan_step 3 34 m.milli [] (milli_text m) (34 ∷ []) [] []
        (scan_int-three m.milli (34 ∷ []) w.milli) (scan_char-same 34 [] (no_space 34 refl))
        scan_fields-none in
    let second =
      scan_step-two m.second b'.' f3 (milli_text m) w.second (no_space b'.' refl) milli in
    let minute =
      scan_step-two m.minute b':' f4 (second_text m) w.minute (no_space b':' refl) second in
    let hour = scan_step-two m.hour b':' f5 (minute_text m) w.hour (no_space b':' refl) minute in
    let day =
      scan_step 2 32 m.day f6 (day_text m) (32 ∷ hour_text m) (hour_text m)
        (m.hour ∷ m.minute ∷ m.second ∷ m.milli ∷ []) (scan_int-two m.day (32 ∷ hour_text m) w.day)
        (scan_char-space m.hour (b':' ∷ minute_text m) w.hour) hour in
    let month = scan_step-two m.month b'-' f7 (day_text m) w.month (no_space b'-' refl) day in
    scan_step 4 b'-' m.year ((2, b'-') ∷ f7) (year_text m) (b'-' ∷ month_text m) (month_text m)
      (m.month ∷ m.day ∷ m.hour ∷ m.minute ∷ m.second ∷ m.milli ∷ [])
      (scan_int-four m.year (b'-' ∷ month_text m) w.year)
      (scan_char-same b'-' (month_text m) (no_space b'-' refl)) month
