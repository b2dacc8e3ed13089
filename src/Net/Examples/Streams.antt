-- ===== src/Net/Examples/Streams.antt =====
-- Streams, networks and uploads with concrete data.
use multi_port_convertor.Base.{
  suc, drop, length-drop, ℕ, ◌≤◌, ◌<◌, ◌≡◌, refl, true, List, [], ◌∷◌, arith, Option, some, none,
  done, replicate, length, if◌then◌else◌, Outcome,
}
use multi_port_convertor.Tool.Mailbox.{Message, mailbox_pend}
use multi_port_convertor.Uart.Frame.{CmdFormat}
use multi_port_convertor.Uart.State.{Uart, SystemInfo}
use multi_port_convertor.Uart.Upload.{Tm}
use multi_port_convertor.Uart.Parse.{Surroundings}
use multi_port_convertor.Uart.Tasks.Receipts.{IsNotifier}
use multi_port_convertor.Net.Upload.{Uploads}
use multi_port_convertor.Net.Upload.Notifies.{upload, upload-IsNotifier}
use multi_port_convertor.Net.Tcp.{
  Link, Outgoing, returned, client_recv_data, net_send, net_protocol_dispose,
}
use multi_port_convertor.Net.Tcp.Streams.{client_recv_data-stream}
use multi_port_convertor.Net.Tcp.Sending.{net_protocol_dispose-sent}
use multi_port_convertor.Net.Wifi.{found, missing, sesrch_ap}
use multi_port_convertor.Net.Wifi.Search.{Matches, Names, one_with, sesrch_ap-names}
use multi_port_convertor.Net.Examples.{json, stack, online, silent}

client_recv_data-stream_example :
    client_recv_data ((1 ∷ 2 ∷ []) ∷ (3 ∷ 4 ∷ 5 ∷ []) ∷ []) (replicate 5 0) 0 4
    ≡ done (returned 4, 1 ∷ 2 ∷ 3 ∷ 4 ∷ 0 ∷ [])
client_recv_data-stream_example =
    client_recv_data-stream ((1 ∷ 2 ∷ []) ∷ (3 ∷ 4 ∷ 5 ∷ []) ∷ []) (replicate 5 0) 4 (omega arith)
      (omega arith) (omega arith)

abbrev link : Link
link = record { conn_state = true; sem = 1; client = true }

abbrev outgoing : Outgoing
outgoing = record { free = 4 ∷ 5 ∷ []; data_of = λ b. replicate 128 0; mailbox = [] }

net_protocol_dispose-sent_example :
    (p q : Outgoing) × (m : Message) × (net_protocol_dispose (7 ∷ 8 ∷ 9 ∷ []) 3 1 outgoing ≡ done p)
    × (mailbox_pend p.mailbox ≡ some (m, []))
    × (net_send m (2 ∷ 1 ∷ []) link (record p { mailbox = [] }) ≡ done (7 ∷ 8 ∷ 9 ∷ [], q))
    × (q.free ≡ 5 ∷ 4 ∷ [])
net_protocol_dispose-sent_example =
    net_protocol_dispose-sent (7 ∷ 8 ∷ 9 ∷ []) 3 1 4 (5 ∷ []) (2 ∷ 1 ∷ []) link outgoing refl refl
      (omega arith) (omega arith) (omega arith) (omega arith)

-- A text without a line's end, if it is not empty, is a match.
whole_line : List ℕ → Option (ℕ × ℕ)
whole_line [] = none
whole_line (c ∷ cs) = some (0, suc (length cs))

whole_line-not_empty : (p : List ℕ) (so eo : ℕ) → whole_line p ≡ some (so, eo) → so < eo
unfolding whole_line
whole_line-not_empty [] so eo e = cc
whole_line-not_empty (c ∷ cs) so eo e = ground arith

whole_line-inside : (p : List ℕ) (so eo : ℕ) → whole_line p ≡ some (so, eo) → eo ≤ length p
unfolding whole_line
whole_line-inside [] so eo e = cc
whole_line-inside (c ∷ cs) so eo e = ground arith

whole_line-Matches : Matches whole_line (65 ∷ 66 ∷ [])
whole_line-Matches = record {
  not_empty = whole_line-not_empty;
  inside = whole_line-inside;
  short = λ k so eo e. omega (
    arith,
    whole_line-inside (drop k (65 ∷ 66 ∷ [])) so eo e,
    length-drop {A = ℕ} k (65 ∷ 66 ∷ []),
  );
}

sesrch_ap-names_example :
    (names : List (List ℕ)) × Names whole_line (66 ∷ []) (65 ∷ 66 ∷ []) names
    × (sesrch_ap true whole_line (66 ∷ []) (65 ∷ 66 ∷ [])
        ≡ done (if one_with whole_line (66 ∷ []) names then found else missing))
sesrch_ap-names_example = sesrch_ap-names whole_line (66 ∷ []) (65 ∷ 66 ∷ []) whole_line-Matches

abbrev system : SystemInfo
system = record {
  firmware_ver = 1 ∷ 0 ∷ 0 ∷ [];
  hardware_ver = 1 ∷ 0 ∷ 0 ∷ [];
  protocol_ver = 1 ∷ 0 ∷ 0 ∷ [];
  mac = replicate 6 7;
  time_valid = 1;
  timezone = 16;
  poweron = 0;
}

abbrev midnight : ℕ → Tm
midnight n = record { tm_year = 117; tm_mon = 0; tm_mday = 1; tm_hour = 0; tm_min = 0; tm_sec = 0 }

abbrev uploads : Uploads
uploads = record { http_send_sn = 0; online = online }

abbrev uploading : CmdFormat → Uart → Outcome Uart
uploading = upload json stack midnight system true silent silent silent uploads

abbrev env : Surroundings
env = record {
  sys = system;
  net = λ i. record { state = i; course = 0; err = 0 };
  tv_sec = 0;
  access = 0;
  http_up_data_rsp = uploading;
}

upload-IsNotifier_example : IsNotifier env
upload-IsNotifier_example =
    upload-IsNotifier json stack midnight system true silent silent silent uploads env refl
