-- ===== src/Net/Examples.antt =====
-- Requests with concrete answers.
mod Clocks
mod Streams
use multi_port_convertor.Base.{
  decimal, ◌++◌, inl, ℕ, ◌≡◌, refl, true, List, [], ◌∷◌, arith, Option, some, none, done, replicate,
  inl, inr,
}
use multi_port_convertor.Uart.Frame.{CmdFormat}
use multi_port_convertor.Uart.State.{zero_poll, Uart, SystemInfo}
use multi_port_convertor.Uart.Reply.{c_string}
use multi_port_convertor.Uart.Upload.{Tm, Measurement, zone_text, time_text, serial_text}
use multi_port_convertor.Uart.Upload.Fields.{measurement_of-fields}
use multi_port_convertor.Net.Upload.{Uploads, http_up_data_rsp}
use multi_port_convertor.Net.Http.{
  Cjson, Exchange, Online, set_err, curl_easy_perform, post_record_url,
}
use multi_port_convertor.Net.Http.Url.{IsNamed}
use multi_port_convertor.Net.Http.Heart.{
  heart_beats, Failed, heart_beats-failures, heart_beats-recovery,
}
use multi_port_convertor.Net.Http.Posts.{told, Answers, Fails, post-answered, post-unreachable}

-- "ex.org" in an array of 128 bytes.
abbrev pub server : List ℕ
server = (b'e' ∷ b'x' ∷ b'.' ∷ b'o' ∷ b'r' ∷ b'g' ∷ []) ++ replicate 122 0

pub server-IsNamed : IsNamed server
unfolding c_string
server-IsNamed = record {
  domain = b'e' ∷ b'x' ∷ b'.' ∷ b'o' ∷ b'r' ∷ b'g' ∷ [];
  text = refl;
  no_format = refl;
  short = omega arith;
}

abbrev pub online : Online
online = record {
  heart_err_time = 1;
  g_domain = server;
  net = λ i. record { state = i; course = 0; err = 0 };
}

heart_beats-failures_example : Failed 2 online (heart_beats (28 ∷ 7 ∷ []) online)
heart_beats-failures_example =
    heart_beats-failures (28 ∷ 7 ∷ []) online
      ((λ e. absurd (omega arith)), ((λ e. absurd (omega arith)), tt)) (omega arith)

-- A parser to which a text that is not empty is an object whose `errno` is its first byte.
abbrev pub json : Cjson ℕ
json = record {
  behind = λ part. [];
  parse = λ text. first text;
  get_object_item = λ item name. some item;
  type = λ item. 3;
  valueint = λ item. item;
  valuestring = λ item. [];
  print = λ item. [];
}
  where
    first : List ℕ → Option ℕ
    first [] = none
    first (x ∷ xs) = some x

abbrev pub old : List ℕ
old = replicate 129 0

abbrev pub stack : List ℕ
stack = replicate 128 0

-- One free buffer.
abbrev pub port : Uart
port = record {
  free = 3 ∷ [];
  sends = [];
  formats = λ b. record {
    poll = zero_poll;
    cmd = record {
      head = 0;
      length_msb = 0;
      length_lsb = 0;
      sta_param = 0;
      sn = 0;
      pdt_type = 0;
      cmd_id = 0;
      payload = old;
    };
  };
  mailbox = [];
  uart_send_sn = 0;
  mbx_id = 5;
}

abbrev pub silent : Exchange
silent = record { parts = []; code = 28 }

abbrev pub heard : Exchange
heard = record { parts = (6 ∷ 6 ∷ []) ∷ []; code = 0 }

pub silent-Fails : Fails json stack old port 3 [] refl refl refl refl silent
unfolding curl_easy_perform
silent-Fails = record { code = 28; nonzero = λ e. absurd (omega arith); ends = refl }

pub heard-Answers : Answers json stack old port 3 [] refl refl refl refl (6 ∷ 6 ∷ []) 6 heard
heard-Answers = record {
  parts = refl;
  code = refl;
  item = 6;
  errno = refl;
  type = refl;
  value = refl;
}

post-answered_example :
    (v : Online) × (post_record_url json stack true silent heard silent online port
      ≡ done (v, told json stack old port 3 [] refl refl refl refl 6))
    × ((v.net 3).err ≡ 0)
post-answered_example =
    post-answered json stack old port 3 [] refl refl refl refl (6 ∷ 6 ∷ []) 6 silent heard silent
      online server-IsNamed (inr (inl (silent-Fails, heard-Answers)))

post-unreachable_example :
    post_record_url json stack true silent silent silent online port
    ≡ done (set_err 1 online, told json stack old port 3 [] refl refl refl refl 2)
post-unreachable_example =
    post-unreachable json stack old port 3 [] refl refl refl refl silent silent silent online
      server-IsNamed silent-Fails silent-Fails silent-Fails

abbrev command : CmdFormat
command = record {
  head = 0xC0;
  length_msb = 0;
  length_lsb = 19;
  sta_param = 0;
  sn = 1;
  pdt_type = 0xA1;
  cmd_id = 0x31;
  payload = b'7' ∷ b'3' ∷ 0 ∷ 0 ∷ 16 ∷ 0 ∷ 0 ∷ 0 ∷ 30 ∷ 0 ∷ 120 ∷ 0 ∷ 80 ∷ 0 ∷ 66 ∷ 9 ∷ [];
}

abbrev day : ℕ → Tm
day t = record { tm_year = 117; tm_mon = 2; tm_mday = 13; tm_hour = 8; tm_min = 5; tm_sec = t }

abbrev system : SystemInfo
system = record {
  firmware_ver = 1 ∷ 0 ∷ 0 ∷ [];
  hardware_ver = 1 ∷ 0 ∷ 0 ∷ [];
  protocol_ver = 1 ∷ 0 ∷ 0 ∷ [];
  mac = 10 ∷ 11 ∷ 12 ∷ 13 ∷ 14 ∷ 15 ∷ [];
  time_valid = 1;
  timezone = 16;
  poweron = 0;
}

abbrev measured : Measurement
measured = record {
  queue_num = decimal 4;
  card_no = b'7' ∷ b'3' ∷ [];
  time_zone = zone_text 8;
  measure_time = time_text (day 30) ++ zone_text 8;
  tall_pressure = 120;
  low_pressure = 80;
  heart_rate = 66;
  device_serial = serial_text (10 ∷ 11 ∷ 12 ∷ 13 ∷ 14 ∷ 15 ∷ []);
}
