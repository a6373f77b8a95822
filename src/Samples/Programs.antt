-- ===== src/Samples/Programs.antt =====
-- client, udpTest_dhy, tcpTest and udpTest at concrete inputs.
use netfilter.Memory.{equal}
use netfilter.Memory.Text.{text_of}
use netfilter.Base.{
  ◌<◌, ◌^◌, ℕ, ◌≡◌, refl, Bool, true, false, List, [], ◌∷◌, some, arith, Bytes, codes, replicate,
  length-replicate, leb, if◌then◌else◌, ok, fault, write_overrun,
}
use netfilter.Base.Int.{pos}
use netfilter.NetLink.{Netlink, recv_msg_netlink}
use netfilter.Client.{System, Client, recv_buf_size, main}
use netfilter.Client.{quit}
use netfilter.Client.Lines.{arrivals}
use netfilter.Client.Parting.{quit-silent}
use netfilter.NetLink.Disconnect.{farewell}
use netfilter.Gate.{all_arrived, handle_all}
use netfilter.Gate.Sent.{Sends}
use netfilter.NetFilter.{Module, Verdict}
use netfilter.Samples.{loaded, source_ip, target_ip}
use netfilter.Samples.Passing.{gate, loaded-Shows, ping_arrival, ping_arrival-IsArrival}
use netfilter.EventReceiver.{buf_size, serving, main as print_packets}
use netfilter.EventReceiver.Served.{arrivals as packets_arrive, main_overrun}
use netfilter.TcpTest.Client.{Client as TcpClient, texts, main as tcp_client, main-texts}
use netfilter.TcpTest.Server.{
  Server as TcpServer, Received, recv_error, closed, bytes, main as tcp_server, main-arrivals,
  arrivals as times, closes,
}
use netfilter.UdpTest.Server.{Server, serving as going_on, main as udp_server}
use netfilter.UdpTest.Served.{quits, arrivals as datagrams_arrive, main_long_datagram}
use netfilter.UdpTest.Client.{
  Client as UdpClient, main as udp_client, sends_total as udp_total, successes, AreSends,
  main-successes,
}
use netfilter.UdpTest.Exchange.{main-arrays}
use netfilter.Samples.{kernel, kernel-sized, net}
use netfilter.Samples.Packets.{packet, packet-Carries}

abbrev system : System
system = record { socket = true; bind = true; getpid = 7; sendto = λ p. true }

abbrev client : Client
client = record { recv_buf = replicate recv_buf_size 0; sent = []; printed = [] }

-- Two log lines, one in a larger buffer.
abbrev log_lines : List (Bytes × Bytes)
log_lines = (codes "ICMP", []) ∷ (codes "IGMP", 0 ∷ 7 ∷ []) ∷ []

quit-silent_example :
    (message : Bytes) × (t : Netlink) × (verdicts : List Verdict) × (n : Module) × ((quit system
        client).sent
      ≡ message ∷ [])
    × (recv_msg_netlink kernel message net ≡ ok t)
    × Sends ((7, farewell) ∷ []) net t
    × (handle_all kernel (all_arrived (ping_arrival ∷ [])) (record loaded { net = t })
        ≡ ok (verdicts, n))
    × (n.net.sent ≡ t.sent)
quit-silent_example =
    quit-silent kernel (λ h n. refl) kernel-sized source_ip target_ip system client loaded gate
      (ping_arrival ∷ []) loaded-Shows (omega arith) (λ p. refl) (ping_arrival-IsArrival, tt)

abbrev messages : List Bytes
messages = codes "A2" ∷ codes "stop!" ∷ codes "B" ∷ []

main_overrun_example :
    print_packets true true (replicate buf_size 0) (packets_arrive (packet ∷ []))
    ≡ fault write_overrun
main_overrun_example =
    main_overrun (replicate buf_size 0) packet [] 6 (length-replicate {A = ℕ} buf_size 0)
      (packet-Carries, tt)

main-texts_example :
    (c : TcpClient) × (tcp_client true true (replicate 100 0) ≡ ok (some c))
    × (c.count ≡ 200000)
    × (c.sent ≡ texts 0 200000)
main-texts_example = main-texts (replicate 100 0) (length-replicate {A = ℕ} 100 0)

abbrev returns : List Received
returns = bytes (codes "a") ∷ recv_error ∷ bytes (codes "ab") ∷ closed ∷ []

few_returns : times returns < 2 ^ 31
unfolding netfilter.TcpTest.Server.arrivals
few_returns = omega arith

main-arrivals_example :
    (s : TcpServer) × (tcp_server true true true true (replicate 2000 0) returns ≡ ok (some s))
    × (s.count ≡ times returns)
    × (s.ended_loop ≡ closes returns)
main-arrivals_example =
    main-arrivals (replicate 2000 0) returns (length-replicate {A = ℕ} 2000 0) few_returns

abbrev datagrams : List Bytes
datagrams = codes "abc" ∷ codes "quit" ∷ []

abc-goes_on : quits (codes "abc" ∷ []) ≡ false
unfolding quits equal text_of
abc-goes_on = refl

main_long_datagram_example :
    udp_server true true (replicate 200 0) (datagrams_arrive (codes "abc" ∷ replicate 200 97 ∷ []))
    ≡ fault write_overrun
main_long_datagram_example =
    main_long_datagram (replicate 200 0) (codes "abc" ∷ []) (replicate 200 97) []
      (length-replicate {A = ℕ} 200 0) (omega arith, tt) abc-goes_on
      (omega (arith, length-replicate {A = ℕ} 200 97)) (omega arith)

abbrev sends : List Bool
sends = true ∷ false ∷ true ∷ []

main-successes_example :
    (c : UdpClient) × (udp_client (pos 3) (replicate 100 0) sends ≡ ok (some c))
    × (c.count ≡ (if leb udp_total (successes sends) then udp_total else successes sends))
    × (c.ended_loop ≡ leb udp_total (successes sends))
    × AreSends c.sent
main-successes_example = main-successes 3 (replicate 100 0) sends (length-replicate {A = ℕ} 100 0)

abbrev array : Bytes
array = 97 ∷ replicate 99 0

main-arrays_example :
    (s : Server) × (udp_server true true (replicate 200 0) (datagrams_arrive (array ∷ [])) ≡ ok s)
    × (s.count ≡ 1)
    × (s.status ≡ going_on)
main-arrays_example =
    main-arrays (replicate 200 0) (array ∷ []) (length-replicate {A = ℕ} 200 0)
      (omega (arith, length-replicate {A = ℕ} 99 0), refl, tt) (omega arith)
