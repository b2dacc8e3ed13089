-- ===== src/Net/Examples/Clocks.antt =====
-- An answer with the server's time, and a round of the detection, on concrete texts.
use multi_port_convertor.Base.{
  false, true, ℕ, ◌*◌, ◌≡◌, refl, List, [], ◌∷◌, some, none, arith, done, length, if◌then◌else◌,
  ◌==◌,
}
use multi_port_convertor.Net.Http.{Cjson}
use multi_port_convertor.Net.Clock.{TmFields, Clock, atoi, half_hours, get_time_parse}
use multi_port_convertor.Net.Clock.Scan.{Moment, IsWritten, text_of}
use multi_port_convertor.Net.Clock.Answer.{Tells, get_time_parse-set}
use multi_port_convertor.Net.Detect.{at_least, Net, Reading, net_detect}
use multi_port_convertor.Net.Detect.States.{HaveAddresses, Detected, net_detect-Detected}

abbrev moment : Moment
moment = record { year = 2017; month = 3; day = 13; hour = 8; minute = 5; second = 30; milli = 250 }

moment-IsWritten : IsWritten moment
moment-IsWritten = record {
  year = omega arith;
  month = omega arith;
  day = omega arith;
  hour = omega arith;
  minute = omega arith;
  second = omega arith;
  milli = omega arith;
}

-- "800"
abbrev zone : List ℕ
zone = b'8' ∷ b'0' ∷ b'0' ∷ []

-- The object 0 with the `errno` 1 and the `data` 2, which has the `time` 3 and the `time_zone` 4. The
-- names are told apart by their lengths.
abbrev tree : Cjson ℕ
tree = record {
  behind = λ part. [];
  parse = λ text. some 0;
  get_object_item = λ item name.
      some (
        if length name == 5 then 1 else if length name == 9 then 4 else if item == 0 then 2 else 3);
  type = λ item. if item == 1 then 3 else 4;
  valueint = λ item. 0;
  valuestring = λ item. zone;
  print = λ item. text_of moment;
}

abbrev clock : Clock
clock = record {
  sys = record {
    firmware_ver = [];
    hardware_ver = [];
    protocol_ver = [];
    mac = [];
    time_valid = 0;
    timezone = 0;
    poweron = 0;
  };
  set_to = none;
}

abbrev seconds : TmFields → ℕ
seconds t = t.tm_sec

tree-Tells : Tells tree seconds (λ i. 0) (1 ∷ 2 ∷ []) moment zone
tree-Tells = record {
  root = 0;
  errno_item = 1;
  data_item = 2;
  time_item = 3;
  zone_item = 4;
  parsed = refl;
  has_errno = refl;
  errno_type = refl;
  errno_value = refl;
  has_data = refl;
  has_time = refl;
  printed = refl;
  has_zone = refl;
  zone_type = refl;
  zone_value = refl;
}

get_time_parse-set_example :
    get_time_parse tree seconds (λ i. 0) (1 ∷ 2 ∷ []) clock
    ≡ done (
      2,
      record {
        sys = record (clock.sys) { timezone = half_hours (atoi zone); time_valid = 1 };
        set_to = some (30, 250 * 1000);
      },
    )
get_time_parse-set_example =
    get_time_parse-set tree seconds (λ i. 0) (1 ∷ 2 ∷ []) moment zone clock tree-Tells
      moment-IsWritten (omega arith)

abbrev ports : Net
ports i = record { state = i; course = 0; err = 0 }

-- The cable is out, and the wireless network gets an address at the second attempt.
abbrev reading : Reading
reading = record {
  cable = b'0' ∷ b'x' ∷ b'0' ∷ b'1' ∷ [];
  cable_address = [];
  wifi = b'o' ∷ b'k' ∷ [];
  wifi_address = false ∷ true ∷ [];
}

reading-HaveAddresses : HaveAddresses (reading ∷ [])
unfolding at_least
reading-HaveAddresses = ((λ e. cc), (λ e. refl), tt)

net_detect-Detected_example :
    (after : Net) × (net_detect true (reading ∷ []) ports ≡ done after)
    × Detected (reading ∷ []) ports after
net_detect-Detected_example = net_detect-Detected (reading ∷ []) ports reading-HaveAddresses
