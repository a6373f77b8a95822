-- ===== src/EventSender/Filtered.antt =====
-- udpTest_dhy/uclient.c and src/netFilter.c: what the hook makes of the packets.
use netfilter.Base.{
  ℕ, ◌<◌, ◌≡◌, ◌≢◌, refl, ap, ◌∙◌, true, ◌&&◌, List, [], some, arith, Bytes, codes, length, ◌==◌,
  if◌then◌else◌, ok,
}
use netfilter.Memory.{equal, starts_with}
use netfilter.Memory.Text.{IsText, text_of, text_of-holding}
use netfilter.Memory.Search.{split_on}
use netfilter.Kernel.{Unicast, Kernel}
use netfilter.DealConf.Spec.{content_of, or_empty}
use netfilter.NetFilter.{Module, Frame, Verdict, nf_accept, nf_drop, packet_broadcast, ipproto_udp}
use netfilter.NetFilter.Hook.{hook_func}
use netfilter.NetFilter.Log.{IsFrame}
use netfilter.NetFilter.Datagram.{IsSized, Datagram, IsDatagram, datagram_bytes, message_of}
use netfilter.NetFilter.Header.{IpHeader, IsIpHeader}
use netfilter.NetFilter.Packet.{Route, on_route, skb_of, hook_func_udp}
use netfilter.EventSender.Packets.{
  event_of, packet_text, packet_text-IsText, below_eleven, event_of-text, Carries,
}

-- The program sends to port 8888.
abbrev pub packet_datagram : ℕ → ℕ → Bytes → Datagram
packet_datagram source checksum p = record {
  source = source;
  dest = 8888;
  checksum = checksum;
  payload = p;
  trailer = [];
}

message-event :
    (i : ℕ)
    → i < 11
    → or_empty (content_of (codes "message") (packet_text (event_of i))) ≡ event_of i
unfolding content_of split_on starts_with
message-event =
    below_eleven
      (λ i. or_empty (content_of (codes "message") (packet_text (event_of i))) ≡ event_of i) refl
      refl refl refl refl refl refl refl refl refl refl

text-packet : {event p : Bytes} → IsText event → Carries event p → text_of p ≡ packet_text event
text-packet {event} {p} t c =
    ap text_of c.is_packet ∙ text_of-holding (packet_text event) c.rest (packet_text-IsText event t)

pub message-packet :
    (i source checksum : ℕ) (p : Bytes)
    → i < 11
    → Carries (event_of i) p
    → message_of (packet_datagram source checksum p) ≡ event_of i
message-packet i source checksum p small c =
    ap (λ t. or_empty (content_of (codes "message") t)) (text-packet (event_of-text i small).0 c)
    ∙ message-event i small

module _ (k : Kernel) (fr : Frame) (m : Module) (source target : Bytes)
    (route : Route m source target) (pkt_type : ℕ) (eth : Bytes) (h : IpHeader)
    (header : IsIpHeader h)
    (data_size : (q : List Unicast) (n : ℕ) → length (k.skb_payload q n) ≡ n)
    (alive : m.net.nl_sk ≡ true → m.net.live ≡ true) (frame : IsFrame fr) (sized : IsSized m)
    (seen : pkt_type ≢ packet_broadcast) (ours : on_route k source target h ≡ true)
    (udp : h.protocol ≡ ipproto_udp) (port checksum : ℕ) (port_fits : port < 65536) where
  -- The packet as it comes to the hook.
  abbrev pub VerdictOn : Bytes → Verdict → Type 0
  VerdictOn p v =
      (n : Module) × (hook_func k fr
          (some (skb_of pkt_type eth h (datagram_bytes (packet_datagram port checksum p)))) m
        ≡ ok (v, n))

  -- For a packet of the program in a UDP datagram from the source to the target that is not broadcast,
  -- buffers of the declared sizes, a channel whose set pointer has a socket behind it, and a kernel
  -- whose fresh buffers have the size asked for: the hook drops it exactly if its event is "B" and the
  -- operator chose to drop, and accepts it otherwise.
  pub hook_func-event :
      (i : ℕ) (p : Bytes)
      → i < 11
      → Carries (event_of i) p
      → VerdictOn p
          (if equal (event_of i) (codes "B") && m.net.operatorflag == 2 then nf_drop else nf_accept)
  hook_func-event i p small c =
      let d = packet_datagram port checksum p in
      let valid : IsDatagram d = record {
        source_fits = port_fits;
        dest_fits = omega arith;
        length_fits = omega (arith, c.packet_size);
      } in
      let (n, run, net) =
        hook_func_udp k fr m source target route pkt_type eth h header data_size alive frame sized
          seen ours udp d valid in
      (
        n,
        run
            ∙ ap
                (λ e. ok (
                  if equal e (codes "B") && m.net.operatorflag == 2 then nf_drop else nf_accept,
                  n,
                ))
                (message-packet i port checksum p small c),
      )
