-- ===== src/Samples/Packets.antt =====
-- src/netFilter.c and udpTest_dhy/uclient.c: packets at concrete inputs.
use netfilter.Base.{
  take, drop, Bool, ltb, ℕ, ◌≤◌, ◌≡◌, refl, true, ◌&&◌, List, [], ◌∷◌, ◌++◌, some, arith, Bytes,
  codes, length, replicate, length-replicate, ◌==◌, if◌then◌else◌, ok, fault, write_overrun,
}
use netfilter.Kernel.{u8_at, be16_at}
use netfilter.Memory.{equal}
use netfilter.Memory.Text.{holding}
use netfilter.NetFilter.{nf_accept, nf_drop, ipproto_udp, ipproto_tcp}
use netfilter.NetFilter.Hook.{hook_func}
use netfilter.NetFilter.Log.{logged}
use netfilter.NetFilter.Datagram.{body_after}
use netfilter.NetFilter.Packet.{skb_of}
use netfilter.NetFilter.Tcp.{
  Segment, IsSegment, segment_bytes, tcp_line, hook_func_tcp, hook_func_udp_short,
  hook_func_tcp_short,
}
use netfilter.DealConf.Legal.{is_legal}
use netfilter.EventSender.{buffer_size, Sender, running, main}
use netfilter.EventSender.Packets.{event_of, packet_text, Carries}
use netfilter.EventSender.Rounds.{Series, Outcome, main-Outcome, main-Series}
use netfilter.EventSender.Filtered.{VerdictOn, packet_datagram, hook_func-event}
use netfilter.EventSender.Stream.{AreCarriers, drops, handle_all-Series}
use netfilter.NetFilter.{Module, Verdict}
use netfilter.Gate.{Arrival, udp, all_arrived, handle_all}
use netfilter.Samples.Passing.{loaded-Shows}
use netfilter.EventSender.Legal.{is_legal-packet}
use netfilter.Samples.{
  kernel, kernel-sized, loaded, loaded-IsSized, loaded-Route, source_ip, target_ip, frame,
  frame-IsFrame, header, header-IsIpHeader, ours,
}

-- A segment of 28 bytes.
abbrev segment : Segment
segment = record {
  source = 4000;
  dest = 80;
  seq = 1;
  ack_seq = 0;
  doff = 5;
  res1 = 0;
  flags = replicate 7 0;
  payload = codes "GET /\r\n\r";
  trailer = [];
}

segment-IsSegment : IsSegment segment
unfolding replicate
segment-IsSegment = record {
  source_fits = omega arith;
  dest_fits = omega arith;
  res1_fits = omega arith;
  head_fits = refl;
  length_fits = omega arith;
}

hook_func_tcp_example :
    hook_func kernel frame (some (skb_of 0 [] (header ipproto_tcp) (segment_bytes segment))) loaded
    ≡ ok (
      nf_accept,
      logged kernel
          (tcp_line 16777226 33554442 segment)
          (record loaded { tcp_udp_body = body_after segment.payload loaded.tcp_udp_body }),
    )
hook_func_tcp_example =
    hook_func_tcp kernel frame loaded source_ip target_ip loaded-Route 0 [] (header ipproto_tcp)
      (header-IsIpHeader ipproto_tcp) loaded-IsSized (omega arith) (ours ipproto_tcp) kernel-sized
      (λ s. s) frame-IsFrame refl segment segment-IsSegment refl

-- A UDP header that says 0 bytes.
abbrev short_datagram : Bytes
short_datagram = replicate 8 0

short_datagram-length : be16_at short_datagram 4 ≡ ok 0
unfolding u8_at replicate
short_datagram-length = refl

hook_func_udp_short_example :
    hook_func kernel frame (some (skb_of 0 [] (header ipproto_udp) short_datagram)) loaded
    ≡ fault write_overrun
hook_func_udp_short_example =
    hook_func_udp_short kernel frame loaded source_ip target_ip loaded-Route 0 []
      (header ipproto_udp) (header-IsIpHeader ipproto_udp) loaded-IsSized (omega arith)
      (ours ipproto_udp) refl short_datagram 0 short_datagram-length (omega arith)
      (omega (arith, length-replicate {A = ℕ} 8 0))

-- A TCP header that says 60 bytes, in a packet of 48.
abbrev short_segment : Bytes
short_segment = replicate 12 0 ++ 240 ∷ replicate 47 0

short_segment-offset : u8_at short_segment 12 ≡ ok 240
unfolding u8_at replicate
short_segment-offset = refl

short_segment-reach : 60 ≤ length short_segment
unfolding replicate
short_segment-reach = omega arith

hook_func_tcp_short_example :
    hook_func kernel frame (some (skb_of 0 [] (header ipproto_tcp) short_segment)) loaded
    ≡ fault write_overrun
hook_func_tcp_short_example =
    hook_func_tcp_short kernel frame loaded source_ip target_ip loaded-Route 0 []
      (header ipproto_tcp) (header-IsIpHeader ipproto_tcp) loaded-IsSized (omega arith)
      (ours ipproto_tcp) refl short_segment 240 short_segment-offset (omega arith)
      short_segment-reach (omega arith) (omega arith)

abbrev sender : Sender
sender = record { ievent = 0; packet_data = replicate buffer_size 0; sent = [] }

-- A system that refuses the fourth packet.
abbrev three_sends : List Bytes → Bytes → Bool
three_sends ps p = ltb (length ps) 3

main-Outcome_example : Outcome three_sends 45 sender (main true three_sends 5 sender)
main-Outcome_example = main-Outcome three_sends 5 sender (length-replicate {A = ℕ} 1024 0)

-- The array with the event "B".
abbrev pub packet : Bytes
packet = holding (packet_text (codes "B")) (replicate 918 0)

pub packet-Carries : Carries (event_of 6) packet
packet-Carries = record {
  rest = replicate 918 0;
  is_packet = refl;
  packet_size = omega (arith, length-replicate {A = ℕ} 918 0);
}

hook_func-event_example :
    VerdictOn kernel frame loaded source_ip target_ip loaded-Route 0 []
      (header ipproto_udp)
      (header-IsIpHeader ipproto_udp)
      kernel-sized
      (λ s. s)
      frame-IsFrame
      loaded-IsSized
      (omega arith)
      (ours ipproto_udp)
      refl
      4000
      0
      (omega arith)
      packet
      (if equal (event_of 6) (codes "B") && loaded.net.operatorflag == 2
        then nf_drop
        else nf_accept)
hook_func-event_example =
    hook_func-event kernel frame loaded source_ip target_ip loaded-Route 0 [] (header ipproto_udp)
      (header-IsIpHeader ipproto_udp) kernel-sized (λ s. s) frame-IsFrame loaded-IsSized
      (omega arith) (ours ipproto_udp) refl 4000 0 (omega arith) 6 packet (omega arith)
      packet-Carries

is_legal-packet_example : is_legal (some packet) ≡ ok true
is_legal-packet_example = is_legal-packet 6 packet (omega arith) packet-Carries

-- What the program sends in one round.
first_round :
    (s : Sender) × (ps : List Bytes) × (main true (λ ps p. true) 1 sender ≡ ok (running s))
    × (s.sent ≡ ps)
    × (length ps ≡ 9)
    × Series 1 ps
first_round = main-Series (λ ps p. true) 1 sender (λ ps p. refl) (length-replicate {A = ℕ} 1024 0)

abbrev first_packets : List Bytes
first_packets = first_round.1

-- The packets as they come to the hook.
abbrev carrier : Bytes → Arrival
carrier p = record {
  locals = frame;
  pkt_type = 0;
  eth = [];
  ip = header ipproto_udp;
  body = udp (packet_datagram 4000 0 p);
}

abbrev carriers : List Bytes → List Arrival
carriers [] = []
carriers (p ∷ ps) = carrier p ∷ carriers ps

carriers-AreCarriers : (ps : List Bytes) → AreCarriers kernel source_ip target_ip ps (carriers ps)
carriers-AreCarriers [] = tt
carriers-AreCarriers (p ∷ ps) = (
  record {
    whole_locals = frame-IsFrame;
    whole_ip = header-IsIpHeader ipproto_udp;
    is_udp = refl;
    looked = rw (ours ipproto_udp) refl;
    port = 4000;
    port_fits = omega arith;
    checksum = 0;
    brings = refl;
  },
  carriers-AreCarriers ps,
)

handle_all-Series_example :
    (verdicts : List Verdict) × (n : Module) × (handle_all kernel
        (all_arrived (carriers first_packets))
        loaded
      ≡ ok (verdicts, n))
    × (length verdicts ≡ length first_packets)
    × (drops (take 8 (drop 1 verdicts)) ≡ true)
    × (n.net.operatorflag ≡ 2)
handle_all-Series_example =
    handle_all-Series kernel source_ip target_ip (λ h n. refl) kernel-sized loaded 7 1 first_packets
      (carriers first_packets) 1 loaded-Shows (omega arith) first_round.5
      (carriers-AreCarriers first_packets) (omega (arith, first_round.4))
