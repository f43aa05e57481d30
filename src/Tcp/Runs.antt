-- ===== src/Tcp/Runs.antt =====
-- kernel/tcp.h: runs of calls on the one connection.
use mini_win.Base.{ℕ, List, [], ◌∷◌}
use mini_win.Net.{Net}
use mini_win.Ip.{Packet}
use mini_win.Tcp.{Host, connect}
use mini_win.Tcp.Send.{send_data, close, poll_retransmit}
use mini_win.Tcp.Receive.{poll_recv, handle_packet}
use mini_win.Tcp.Invariant.{IsSound}
use mini_win.Tcp.Sending.{connect-IsSound, send_data-IsSound, close-IsSound}
use mini_win.Tcp.Sending.{poll_retransmit-IsSound}
use mini_win.Tcp.Receiving.{poll_recv-IsSound, handle_packet-IsSound}

-- The calls of the rest of the kernel, and of the stack below; `passes` is what happens between two
-- calls: the clocks and the network change.
pub data Call : Type 0 where
  connects : ℕ → ℕ → Call
  sends : List ℕ → Call
  closes : Call
  polls : ℕ → Call
  arrives : Packet → Call
  ticks : Call
  passes : Net → ℕ → Call

unfoldable pub step : Host → Call → Host
step h (connects ip port) = connect h ip port
step h (sends bytes) = (send_data h bytes).1
step h closes = close h
step h (polls maxlen) = (poll_recv h maxlen).1
step h (arrives ip) = handle_packet h ip
step h ticks = poll_retransmit h
step h (passes net wall) = record h { net = net; wall = wall }

unfoldable pub run : Host → List Call → Host
run h [] = h
run h (c ∷ cs) = run (step h c) cs

step-IsSound : (h : Host) (c : Call) → IsSound h → IsSound (step h c)
unfolding step
step-IsSound h (connects ip port) inv = connect-IsSound h ip port
step-IsSound h (sends bytes) inv = send_data-IsSound h bytes inv
step-IsSound h closes inv = close-IsSound h inv
step-IsSound h (polls maxlen) inv = poll_recv-IsSound h maxlen inv
step-IsSound h (arrives ip) inv = handle_packet-IsSound h ip inv
step-IsSound h ticks inv = poll_retransmit-IsSound h inv
step-IsSound h (passes net wall) inv = record { sound = inv.sound }

kept : (h : Host) (cs : List Call) → IsSound h → IsSound (run h cs)
unfolding run
kept h [] inv = inv
kept h (c ∷ cs) inv = kept (step h c) cs (step-IsSound h c inv)

-- After tcp_connect, whatever is called and whatever arrives: the two buffers stay within their
-- arrays, what is in flight is a front part of the send queue of at most 1200 bytes and on a live
-- connection all that lies between snd_una and snd_nxt, it has been sent again at most 5 times, the
-- MSS of the peer is at least 64, and TCP_TIME_WAIT is never entered.
pub run-IsSound : (h : Host) (ip port : ℕ) (cs : List Call) → IsSound (run (connect h ip port) cs)
run-IsSound h ip port cs = kept (connect h ip port) cs (connect-IsSound h ip port)
