-- ===== src/Net/Clock.antt =====
-- `get_time_parse` of net/http_protocol.c: the server's time sets the clock and the time zone.
pub mod Scan
pub mod Answer
use multi_port_convertor.Base.{
  ◌++◌, ℕ, zero, suc, ◌+◌, ◌-◌, ◌*◌, ◌/◌, ◌^◌, Bool, true, false, ◌&&◌, ◌||◌, List, [], ◌∷◌, Option,
  none, some, Outcome, done, ltb, leb, ◌==◌, if◌then◌else◌, u16, u32, length, get_or,
}
use multi_port_convertor.Uart.State.{SystemInfo}
use multi_port_convertor.Net.Http.{Cjson, cjson_number, Callback, errno}

-- `isspace`
abbrev is_space : ℕ → Bool
is_space c = (c == 32) || (leb 9 c && leb c 13)

abbrev is_digit : ℕ → Bool
is_digit c = leb 48 c && leb c 57

unfoldable pub skip_spaces : List ℕ → List ℕ
skip_spaces [] = []
skip_spaces (c ∷ cs) = let rest = skip_spaces cs in if is_space c then rest else c ∷ cs

-- The digits at the front of a text, `width` of them at most: the number with those read before, and
-- what follows.
unfoldable pub scan_digits : (width : ℕ) → (value : ℕ) → List ℕ → ℕ × List ℕ
scan_digits zero value cs = (value, cs)
scan_digits (suc width) value [] = (value, [])
scan_digits (suc width) value (c ∷ cs) =
    let more = scan_digits width (10 * value + (c - 48)) cs in
    if is_digit c then more else (value, c ∷ cs)

-- At least one digit has to be there. A number below 0 is its pattern of 32 bits.
unfoldable pub scan_unsigned : (width : ℕ) → (minus : Bool) → List ℕ → Option (ℕ × List ℕ)
unfolding scan_digits
scan_unsigned width minus [] = none
scan_unsigned width minus (c ∷ cs) =
    let (value, rest) = scan_digits width 0 (c ∷ cs) in
    let signed = if minus then u32 (2 ^ 32 - value) else u32 value in
    if is_digit c then some (signed, rest) else none

abbrev signed_from : (width : ℕ) → List ℕ → Option (ℕ × List ℕ)
signed_from width [] = none
signed_from width (c ∷ cs) =
    if c == b'-'
    then scan_unsigned (width - 1) true cs
    else if c == b'+'
    then scan_unsigned (width - 1) false cs
    else scan_unsigned width false (c ∷ cs)

-- `%0nd` of sscanf: the width counts the sign, and not the spaces before it.
unfoldable pub scan_int : (width : ℕ) → List ℕ → Option (ℕ × List ℕ)
unfolding skip_spaces scan_unsigned
scan_int width cs = signed_from width (skip_spaces cs)

-- A character of the format; a space stands for any number of them.
unfoldable pub scan_char : ℕ → List ℕ → Option (List ℕ)
unfolding skip_spaces
scan_char c [] = if c == 32 then some [] else none
scan_char c (x ∷ xs) =
    if c == 32 then some (skip_spaces (x ∷ xs)) else if x == c then some xs else none

abbrev scan_next : Option (List ℕ) → (List ℕ → List ℕ) → List ℕ
scan_next none later = []
scan_next (some rest) later = later rest

abbrev scan_behind : Option (ℕ × List ℕ) → ℕ → (List ℕ → List ℕ) → List ℕ
scan_behind none c later = []
scan_behind (some (v, rest)) c later = v ∷ scan_next (scan_char c rest) later

-- The numbers that are read, by their widths and the characters behind them.
unfoldable pub scan_fields : List (ℕ × ℕ) → List ℕ → List ℕ
unfolding scan_int scan_char
scan_fields [] cs = []
scan_fields ((width, c) ∷ fs) cs = scan_behind (scan_int width cs) c (scan_fields fs)

-- `"\"%04d-%02d-%02d %02d:%02d:%02d.%03d\""` behind its first character.
abbrev pub time_format : List (ℕ × ℕ)
time_format = (4, b'-') ∷ (2, b'-') ∷ (2, 32) ∷ (2, b':') ∷ (2, b':') ∷ (2, b'.') ∷ (3, 34) ∷ []

-- What `sscanf` has stored.
unfoldable pub scan_time : List ℕ → List ℕ
unfolding scan_fields
scan_time [] = []
scan_time (c ∷ cs) = if c == 34 then scan_fields time_format cs else []

-- `atoi`; no width ends the number.
unfoldable pub atoi : List ℕ → ℕ
unfolding scan_int
atoi cs = value_of (scan_int (suc (length cs)) cs)
  where
    value_of : Option (ℕ × List ℕ) → ℕ
    value_of none = 0
    value_of (some (v, rest)) = v

-- `/ 50` of an `int`, to 16 bits.
unfoldable pub half_hours : ℕ → ℕ
half_hours n = if ltb n (2 ^ 31) then u16 (n / 50) else u16 (2 ^ 32 - (2 ^ 32 - n) / 50)

-- `struct tm`, as far as `get_time_parse` writes it, in patterns of 32 bits; `tm_isdst` and the rest
-- are whatever the stack holds.
pub record TmFields : Type 0 where
  pub tm_year : ℕ
  pub tm_mon : ℕ
  pub tm_mday : ℕ
  pub tm_hour : ℕ
  pub tm_min : ℕ
  pub tm_sec : ℕ

-- `system_info`, and what the last `settimeofday` has set: the seconds and the microseconds.
pub record Clock : Type 0 where
  pub sys : SystemInfo
  pub set_to : Option (ℕ × ℕ)

-- The names `data`, `time` and `time_zone`.
abbrev pub name_data : List ℕ
name_data = b'd' ∷ b'a' ∷ b't' ∷ b'a' ∷ []

abbrev pub name_time : List ℕ
name_time = b't' ∷ b'i' ∷ b'm' ∷ b'e' ∷ []

abbrev pub name_time_zone : List ℕ
name_time_zone = b't' ∷ b'i' ∷ b'm' ∷ b'e' ∷ b'_' ∷ b'z' ∷ b'o' ∷ b'n' ∷ b'e' ∷ []

-- `mktime` is that function, which depends on the settings of the system; `stack i` is what the
-- variable with the number `i` of the scan holds before it.
module _ {Item : Type 0} (json : Cjson Item) (mktime : TmFields → ℕ) (stack : ℕ → ℕ) where
  unfoldable pub fields_of : List ℕ → TmFields
  fields_of vs = record {
    tm_year = u32 (get_or vs 0 (stack 0) + (2 ^ 32 - 1900));
    tm_mon = get_or vs 1 (stack 1);
    tm_mday = get_or vs 2 (stack 2);
    tm_hour = get_or vs 3 (stack 3);
    tm_min = get_or vs 4 (stack 4);
    tm_sec = get_or vs 5 (stack 5);
  }

  -- The clock is set from the text of the time.
  unfoldable pub set_clock : List ℕ → Clock → Clock
  unfolding scan_time fields_of
  set_clock text k =
      let vs = scan_time text in
      record k { set_to = some (mktime (fields_of vs), u32 (get_or vs 6 (stack 6) * 1000)) }

  abbrev set_zone : (size : ℕ) → Option Item → Clock → ℕ × Clock
  set_zone size none k = (0, k)
  set_zone size (some zone) k =
      let sys = record (k.sys) {
        timezone = half_hours (atoi (json.valuestring zone));
        time_valid = 1;
      } in
      if json.type zone == 4 then (size, record k { sys = sys }) else (size, k)

  abbrev on_time : (size : ℕ) → Item → Option Item → Clock → ℕ × Clock
  on_time size data_item none k = (0, k)
  on_time size data_item (some time) k =
      set_zone size (json.get_object_item data_item name_time_zone) (set_clock (json.print time) k)

  abbrev on_data : (size : ℕ) → Option Item → Clock → ℕ × Clock
  on_data size none k = (0, k)
  on_data size (some d) k = on_time size d (json.get_object_item d name_time) k

  abbrev on_errno : (size : ℕ) → Item → Option Item → Clock → ℕ × Clock
  on_errno size root none k = (0, k)
  on_errno size root (some e) k =
      if (json.type e == cjson_number) && (json.valueint e == 0)
      then on_data size (json.get_object_item root name_data) k
      else (size, k)

  abbrev on_root : (size : ℕ) → Option Item → Clock → ℕ × Clock
  on_root size none k = (0, k)
  on_root size (some root) k = on_errno size root (json.get_object_item root errno) k

  -- The count that the callback returns.
  unfoldable pub get_time_parse : Callback Clock
  unfolding set_clock atoi half_hours
  get_time_parse part k = done (on_root (length part) (json.parse (part ++ json.behind part)) k)
