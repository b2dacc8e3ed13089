-- ===== src/Lib.antt =====
-- A converter between a device on a serial port, USB readers and a server. The device sends frames and
-- gets frames; card readers and scanners type texts that go to the device; measurements of the device
-- go to a server.
--
-- The parts and the files that model them, each path of the program from the repository's root:
--   Base: numbers of a machine word, lists, the results of a call (done, exits for the macro ERROR,
--     faults for an access outside an object), arrays of bytes.
--   Tool/List: tool/list.c on a heap. Tool/List/Ring says what a list stands for, Insert and Delete
--     what the operations do to it.
--   Tool/BufFactory: tool/buf_factory.c on that heap. Tool/FreeList is the queue of free buffers as
--     its users see it, which Tool/BufFactory/Refine ties to the heap; Create is the allocation.
--     Tool/Pool is the interface of a factory, with what its users rely on: the queue fills it, and
--     Tool/BufFactory/Runs and Serves fill it with the heap.
--   Tool/Mailbox: tool/mailbox.c, a message queue as the sequence of its messages.
--   Tool/KeyFile: tool/key_file.c. Tool/Thread: tool/thread.c.
--   Uart/Frame: the frame and its check sum, of uart/uart_communicat.h and uart/uart_protocol.c.
--   Uart/Receive: uart_get_data. Uart/State: the shared variables. Uart/Notify: uart_protocol_dispose
--     and the notifications. Uart/Poll: uart_poll_tsk. Uart/Send: uart_send_tsk. Uart/Reply: the
--     callbacks, and in Uart/Reply/Plain what sprintf makes of a text without a percent sign.
--     Uart/Parse: uart_protocol_parse, with ArgsParam in Uart/Parse/Args. Uart/Recv:
--     uart_recv_tsk. Uart/Race: a response and the sending of its frame. Uart/Port: uart/uart.c and
--     uart_context_init.
--   Uart/Tasks: the tasks of uart/ as one system of steps; its children say where the buffers are
--     (Places, Owned), what each task does to the send list (Effects, Answers, Receipts), what the
--     queued frames hold (Fits, Contents), and what follows for all runs (Line, Safety).
--   Uart/Upload: the measurement that http_up_data_rsp reads from a frame.
--   Usb/Keys: usb/hid_usage_id.h. Usb/Data: hid_data_tsk. Usb/Reader: hid_reopen_read_tsk. Usb/Open:
--     open_hid of usb/usb.c. Usb/Tasks: the three tasks of usb/usb_communicat.c as one system of
--     steps, with hid_context_init and set_hid. Usb/Disk: udisk_tsk of usb/udisk.c, and
--     GetStorageInfo in Usb/Disk/Storage and the settings file of a disk in Usb/Disk/Wireless.
--   Net/Http: the requests of net/http_protocol.c, with their addresses in Net/Http/Url. Net/Upload:
--     http_up_data_rsp with its request, and in Net/Upload/Notifies what it does to the state of the serial port. Net/Clock: get_time_parse.
--     Net/Detect: net_detect_tsk of net/net.c, with net/udp.c. Net/Tcp: net/tcp.c,
--     net/net_protocol.c, and net_connect_tsk and net_send_tsk of net/net.c. Net/Wifi: net/wifi.c.
--   App/System: app/system.c. App/Main: app/main.c. App/Tasks: the tasks of uart/ and usb/ that share the
--     serial port, together; Usb/Told says what those of usb/ do to the port. App/Start: the calls of
--     main before its loop, with net_context_init and udisk_context_init.
--
-- How the state corresponds. A buffer is named by its index in the array of its factory; that index
-- stands for the pointers to the buffer, to its memory and to the list node inside. The record Uart
-- holds the free buffers of g_uart_send_buf and the entries of g_uart_send_list in their order; the
-- record Hid holds the free buffers of g_hid_buf and the queue between its tasks. Each function takes
-- the state and gives the new one.
--
-- Tasks. A body that a mutex guards is one step, as is what a task does between two calls that may
-- wait; the reader's round is two steps, before and behind its read. Uart/Tasks and Usb/Tasks take
-- the steps of the tasks in any order, and the clock, the ports, the printer and the server may be
-- others at every step. A call of uart_protocol_dispose is one step: the runs are those in which
-- calls of it do not overlap. The program has no mutex for its static pointer Respdata and its
-- counter, so it relies on this as well; Uart/Notify/Overlap shows what a call that interrupts
-- another leaves. A run of Uart/Tasks is timely where no frame comes with the sequence number of a
-- notification that is not all sent, and no notification is given up or dropped while a message
-- for it waits: the program relies on this, and Uart/Race shows a run that is not. The port takes
-- a whole message in one call of write there; Uart/Send has the loop for partial writes.
--
-- Widths. Values of __u8, __u16 and __u32 are taken modulo a power of two where the program computes
-- them; sizes of a disk are 64-bit products that are cut to 32 bits. Loops over lists and byte
-- streams are structural recursion. The search in Net/Wifi has fuel, one more than the length of the
-- text, which is enough since each match takes a byte at least. A printed number has ten digits
-- at most, which is enough for 32 bits. A stream that ends stands for a read that fails or waits.
--
-- The environment is an argument: what malloc returns, what write, read, send and recv take and
-- give, the clock, gmtime and mktime, the presence of a device file, what pthread, termios and
-- ioctl return, the matches of regexec, libcurl, GLib and cJSON. What an uninitialised array holds
-- is an argument too, by the name stack. The callback http_up_data_rsp is an argument of
-- Uart/Parse, since it needs the requests of Net; Net/Upload models it. The callback of
-- get_time_Url is an argument of Net/Http, and Net/Clock models it. The memory that malloc gives
-- for the buffers of the port is an argument of the start; the runs start from memory that is
-- cleared. What stands in memory behind a part of an answer of libcurl, which has no NUL, is an
-- argument too.
--
-- Not modelled: the texts that printf prints, and the text that cJSON prints of a measurement;
-- getSystemTime and bus_str, which only serve such texts; net_recv_tsk, which discards what it reads;
-- hid_read and app_uart_get, which are calls of read. tool/cJSON.c is a copy of another project.
pub mod Base
pub mod Tool
pub mod Uart
pub mod Usb
pub mod Net
pub mod App
