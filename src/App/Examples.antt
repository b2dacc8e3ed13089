-- ===== src/App/Examples.antt =====
-- Runs of the start and of the main task, over a key file that holds one text.
mod Runs
use multi_port_convertor.Base.{
  false, ◌<◌, ℕ, ◌+◌, ◌≡◌, refl, true, List, [], ◌∷◌, arith, none, some, Outcome, done, ◌>>=◌,
  replicate,
}
use multi_port_convertor.Tool.KeyFile.{Glib, Settings, null}
use multi_port_convertor.Uart.Reply.{c_string}
use multi_port_convertor.Net.Http.{Cjson, Exchange}
use multi_port_convertor.Net.Clock.{TmFields}
use multi_port_convertor.App.System.{
  Hardware, address, Shared, first_states, default_domain, sys_context_init,
}
use multi_port_convertor.App.Start.{Machine, Begun, context_init}
use multi_port_convertor.App.Start.Running.{Works, context_init-Run}
use multi_port_convertor.App.Tasks.{Run}
use multi_port_convertor.App.Examples.Runs.{memory, memory-IsCleared, stack, words, no_message}
use multi_port_convertor.Tool.Thread.{in_range, Accepts}
use multi_port_convertor.Uart.Port.{zero_termios}
use multi_port_convertor.Uart.Port.Settings.{line_of, no_parity}
use multi_port_convertor.Uart.Tasks.{start_of}
use multi_port_convertor.Usb.Disk.{Disk}
use multi_port_convertor.App.Main.{system_info, main_loop}
use multi_port_convertor.App.Main.Seconds.{times, main_loop-times}

-- The file is its one text, whatever the key.
abbrev one_text : Glib (List ℕ)
one_text = record {
  load_from_data = λ bytes. some bytes;
  to_data = λ f. f;
  get_integer = λ f group key. none;
  get_string = λ f group key. some f;
  set_integer = λ f group key value. f;
  set_string = λ f group key text. text;
}

abbrev settings : Settings (List ℕ)
settings = record { keyfile = null; files = λ name. none }

abbrev no_json : Cjson ℕ
no_json = record {
  behind = λ part. 7 ∷ [];
  parse = λ text. none;
  get_object_item = λ item name. none;
  type = λ item. 0;
  valueint = λ item. 0;
  valuestring = λ item. [];
  print = λ item. [];
}

abbrev shared : Shared (List ℕ)
shared = record {
  settings = settings;
  clock = record { sys = system_info; set_to = none };
  online = record {
    heart_err_time = 0;
    g_domain = replicate 128 0;
    net = λ i. record { state = 0; course = 0; err = 0 };
  };
}

abbrev wlan : Hardware
wlan = address (1 ∷ 2 ∷ 3 ∷ 4 ∷ 5 ∷ 6 ∷ [])

abbrev silent : Exchange
silent = record { parts = []; code = 28 }

abbrev any_time : TmFields → ℕ
any_time t = 0

-- Every call of the system succeeds, and the server does not answer.
abbrev machine : Machine
machine = record {
  hardware = wlan;
  handle = true;
  exchange = silent;
  fd = some 3;
  fcntl = true;
  got = true;
  set = true;
  uart_buffers = done memory;
  uart_queue = some 5;
  hid_buffers = done tt;
  hid_queue = some 6;
  threads = record {
    init = 0;
    setschedpolicy = 0;
    priority_max = 99;
    setschedparam = 0;
    setstacksize = λ size. 0;
    create = some 1;
    destroy = 0;
    stack_min = 16384;
  };
}

accepted :
    (priority stacksize : ℕ)
    → in_range machine.threads priority ≡ true
    → Accepts machine.threads priority stacksize
accepted priority stacksize e = record {
  init = refl;
  policy = refl;
  range = e;
  param = refl;
  stack = λ n. refl;
}

abbrev machine-Works : Works machine
machine-Works = record {
  fd = 3;
  uart_id = 5;
  hid_id = 6;
  memory = memory;
  opened = refl;
  flags = refl;
  got = refl;
  set = refl;
  uart_buffers = refl;
  uart_queue = refl;
  hid_buffers = refl;
  hid_queue = refl;
  sending = accepted 19 8192 refl;
  receiving = accepted 17 8192 refl;
  polling = accepted 18 8192 refl;
  reading = accepted 21 8192 refl;
  timing = accepted 20 8192 refl;
  typing = accepted 22 8192 refl;
  detecting = accepted 15 8192 refl;
  mounting = accepted 8 163840 refl;
}

abbrev no_disks : ℕ → Disk
no_disks i = record { port = 0; state = 0; all_capacity = 0; left_capacity = 0; dir = [] }

context_init-Run_example :
    (b : Begun (List ℕ)) × (context_init no_json one_text any_time
        (λ i. 0)
        machine
        words
        zero_termios
        no_disks
        shared
      ≡ done b)
    × Run stack words (record {
      system = start_of b.uart;
      reads = false;
      held = none;
      product = 0;
      msg = no_message;
      hid = b.hid;
    })
    × (line_of b.port ≡ record { speed = 115200; bits = 8; parity = no_parity; stop = 1 })
    × (c_string b.shared.online.g_domain ≡ done default_domain)
    × (b.shared.online.net ≡ first_states)
    × ((i : ℕ) → i < 3 → (b.g_udisk i).state ≡ 1)
context_init-Run_example =
    context_init-Run no_json one_text any_time (λ i. 0) stack machine words zero_termios no_disks
      shared 0 no_message machine-Works memory-IsCleared refl refl (omega arith) refl

-- A request that only counts.
abbrev counted : ℕ → Outcome ℕ
counted n = done (n + 1)

main_loop-times_example : main_loop counted 150 (0, 7) ≡ (times counted 2 7 >>= λ s'. done (30, s'))
main_loop-times_example = main_loop-times counted 150 7
