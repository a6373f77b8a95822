-- ===== src/Samples/Passing.antt =====
-- src/netFilter.c and src/netLink.c at a sequence of requests and packets.
use netfilter.Base.{◌≡◌, refl, List, [], ◌∷◌, arith, codes, ok}
use netfilter.NetLink.Receive.{connect, disconnect, command}
use netfilter.NetFilter.{Module, ipproto_udp, ipproto_icmp}
use netfilter.Gate.{
  Happening, asked, arrived, udp, other, AreHappenings, Arrival, IsArrival, Gate, gate_all,
  handle_all,
}
use netfilter.Gate.Sent.{Sends}
use netfilter.Gate.Refine.{Shows, handle_all-gate_all}
use netfilter.Samples.{
  kernel, kernel-sized, loaded, loaded-IsSized, loaded-Route, source_ip, target_ip, frame,
  frame-IsFrame, header, header-IsIpHeader, datagram, datagram-IsDatagram,
}

-- The packet with the message "B", and a ping.
abbrev b_arrival : Arrival
b_arrival = record {
  locals = frame;
  pkt_type = 0;
  eth = [];
  ip = header ipproto_udp;
  body = udp datagram;
}

abbrev pub ping_arrival : Arrival
ping_arrival = record {
  locals = frame;
  pkt_type = 0;
  eth = [];
  ip = header ipproto_icmp;
  body = other [];
}

b_arrival-IsArrival : IsArrival b_arrival
b_arrival-IsArrival = record {
  whole_locals = frame-IsFrame;
  whole_ip = header-IsIpHeader ipproto_udp;
  whole_body = (refl, datagram-IsDatagram);
}

pub ping_arrival-IsArrival : IsArrival ping_arrival
ping_arrival-IsArrival = record {
  whole_locals = frame-IsFrame;
  whole_ip = header-IsIpHeader ipproto_icmp;
  whole_body = (omega arith, omega arith, omega arith);
}

-- The client forbids the message, allows it, and leaves; then another one comes.
abbrev happenings : List Happening
happenings =
    arrived b_arrival
    ∷ asked (command (codes "pass") []) 21 7
    ∷ arrived b_arrival
    ∷ arrived ping_arrival
    ∷ asked disconnect 16 7
    ∷ arrived ping_arrival
    ∷ asked connect 16 9
    ∷ []

happenings-AreHappenings : AreHappenings happenings
happenings-AreHappenings = (
  b_arrival-IsArrival,
  (
    ((omega arith, omega arith, omega arith, omega arith, omega arith)),
    (
      b_arrival-IsArrival,
      (
        ping_arrival-IsArrival,
        (
          (tt, omega arith, omega arith, omega arith, omega arith),
          (ping_arrival-IsArrival, ((tt, omega arith, omega arith, omega arith, omega arith), tt)),
        ),
      ),
    ),
  ),
)

abbrev pub gate : Gate
gate = record { client = 7; choice = 2 }

pub loaded-Shows : Shows source_ip target_ip loaded gate
loaded-Shows = record {
  channel = record { socket = refl; alive = refl; same_client = refl; same_choice = refl };
  sized = loaded-IsSized;
  route = loaded-Route;
}

handle_all-gate_all_example :
    (n : Module) × (handle_all kernel happenings loaded
      ≡ ok ((gate_all kernel source_ip target_ip happenings gate).verdicts, n))
    × Sends (gate_all kernel source_ip target_ip happenings gate).told loaded.net n.net
    × Shows source_ip target_ip n (gate_all kernel source_ip target_ip happenings gate).after
handle_all-gate_all_example =
    handle_all-gate_all kernel (λ h n. refl) kernel-sized source_ip target_ip happenings loaded gate
      happenings-AreHappenings loaded-Shows
