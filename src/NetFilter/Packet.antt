-- ===== src/NetFilter/Packet.antt =====
-- src/netFilter.c: `hook_func` on whole IP packets.
use netfilter.Base.{
  ap, ℕ, ◌+◌, ◌*◌, ◌%◌, ◌<◌, ◌≡◌, ◌≢◌, ◌⊎◌, ◌∙◌, Bool, true, false, not, ◌&&◌, List, ◌++◌, some,
  arith, Bytes, codes, length, ◌==◌, if◌then◌else◌, ok,
}
use netfilter.Memory.{c_str}
use netfilter.Base.Int.{ℤ, sub_ℕ}
use netfilter.Kernel.{Unicast, Kernel}
use netfilter.NetFilter.{
  Module, SkBuff, Frame, nf_accept, nf_drop, packet_broadcast, ipproto_tcp, ipproto_udp,
  debug_addresses,
}
use netfilter.NetFilter.Hook.{
  handle_udp, protocol_label, by_protocol, addresses_match, filter_packet, hook_func,
}
use netfilter.NetLink.Deliver.{told}
use netfilter.DealConf.Address.Quad.{quoted_quad}
use netfilter.NetFilter.Log.{logged, debug_addresses-logged, IsFrame, line}
use netfilter.NetFilter.Datagram.{IsSized, Datagram, IsDatagram, datagram_bytes, says_b}
use netfilter.NetFilter.Udp.{udp_line, handle_udp_lem}
use netfilter.NetFilter.Labels.{labels, label_in, protocol_label-label_in}
use netfilter.NetFilter.Header.{
  IpHeader, IsIpHeader, ip_bytes, ip_ihl, ip_tot_len, ip_protocol, ip_saddr, ip_daddr, ip_body,
  protocol_label-IsText,
}

no_transport :
    (k : Kernel) (fr : Frame) (protocol : ℕ) (p : Bytes) (len : ℤ) (saddr daddr : ℕ) (m : Module)
    {n : Module}
    → protocol ≢ ipproto_tcp
    → protocol ≢ ipproto_udp
    → debug_addresses k fr (protocol_label protocol) saddr daddr m ≡ ok n
    → by_protocol k fr protocol p len saddr daddr m ≡ ok (nf_accept, n)
unfolding by_protocol
no_transport k fr protocol p len saddr daddr m t u e = ground (arith, e)

pub udp_transport :
    (k : Kernel) (fr : Frame) (p : Bytes) (len : ℤ) (saddr daddr : ℕ) (m : Module) {protocol : ℕ}
    → protocol ≡ ipproto_udp
    → by_protocol k fr protocol p len saddr daddr m ≡ handle_udp k fr p saddr daddr m
unfolding by_protocol
udp_transport k fr p len saddr daddr m e = rw e

-- A packet as the bridge hands it over: both pointers at the IP header, not broadcast.
abbrev pub skb_of : ℕ → Bytes → IpHeader → Bytes → SkBuff
skb_of pkt_type eth h p = record {
  pkt_type = pkt_type;
  network_header = some (ip_bytes h ++ p);
  mac_header = some eth;
  skb_data = some (ip_bytes h ++ p);
}

-- The configured addresses, and whether the packet goes from the one to the other.
pub record Route (m : Module) (source target : Bytes) : Type 0 where
  pub source_read : c_str m.conf.sourceip ≡ ok source
  pub target_read : c_str m.conf.targetip ≡ ok target

abbrev pub on_route : Kernel → Bytes → Bytes → IpHeader → Bool
on_route k source target h = h.saddr == k.in_aton source && h.daddr == k.in_aton target

addresses_match-on_route :
    (k : Kernel) (m : Module) (source target : Bytes) (h : IpHeader)
    → Route m source target
    → addresses_match k m.conf h.saddr h.daddr ≡ ok (on_route k source target h)
unfolding addresses_match
addresses_match-on_route k m source target h r = ground (arith, r.source_read, r.target_read)

module _ (k : Kernel) (fr : Frame) (m : Module) (source target : Bytes)
    (route : Route m source target) (pkt_type : ℕ) (eth : Bytes) (h : IpHeader)
    (header : IsIpHeader h) where
  -- The hook up to the switch.
  hook_func-by_protocol :
      (p : Bytes)
      → hook_func k fr (some (skb_of pkt_type eth h p)) m ≡ (
          if pkt_type == packet_broadcast
          then ok (nf_accept, m)
          else if not (on_route k source target h)
          then ok (nf_accept, m)
          else by_protocol k fr h.protocol p
              (sub_ℕ h.tot_len ((64 + h.ihl) % 16 * 4))
              h.saddr
              h.daddr
              m)
  unfolding hook_func filter_packet
  hook_func-by_protocol p = rw (
    ip_ihl h p,
    ip_tot_len h p,
    ip_saddr h p header.saddr_fits,
    ip_daddr h p header.daddr_fits,
    addresses_match-on_route k m source target h route,
    ip_body h p header,
    ip_protocol h p,
  )

  -- A packet that the tests before the switch let in.
  pub hook_func-switched :
      (p : Bytes)
      → pkt_type ≢ packet_broadcast
      → on_route k source target h ≡ true
      → hook_func k fr (some (skb_of pkt_type eth h p)) m
        ≡ by_protocol k fr h.protocol p (sub_ℕ h.tot_len ((64 + h.ihl) % 16 * 4)) h.saddr h.daddr m
  hook_func-switched p seen ours = rw (hook_func-by_protocol p) (ground arith)

  -- A packet with a whole IP header that is broadcast, or does not go from the configured source to the
  -- configured target, is accepted whatever its body is, and the module stays as it is.
  pub hook_func_passes :
      (p : Bytes)
      → (pkt_type ≡ packet_broadcast) ⊎ (on_route k source target h ≡ false)
      → hook_func k fr (some (skb_of pkt_type eth h p)) m ≡ ok (nf_accept, m)
  hook_func_passes p away = rw (hook_func-by_protocol p) (ground arith)

  module _ (data_size : (q : List Unicast) (n : ℕ) → length (k.skb_payload q n) ≡ n)
      (alive : m.net.nl_sk ≡ true → m.net.live ≡ true) (frame : IsFrame fr) (sized : IsSized m)
      (seen : pkt_type ≢ packet_broadcast) (ours : on_route k source target h ≡ true) where
    -- For a whole UDP datagram with any bytes as its payload, in a packet that is not broadcast and
    -- goes from the source to the target, buffers of the declared sizes, a channel whose set
    -- pointer has a socket behind it, and a kernel whose fresh buffers have the size asked for: the
    -- hook ends; it drops the packet exactly if the message in the text of the payload is "B" and
    -- the operator chose to drop, and accepts it otherwise; and it tells the client of the ports,
    -- addresses and text exactly if the message is "B".
    pub hook_func_udp :
        h.protocol ≡ ipproto_udp
        → (d : Datagram) → IsDatagram d
        → (n : Module) × (hook_func k fr (some (skb_of pkt_type eth h (datagram_bytes d))) m
            ≡ ok (if says_b d && m.net.operatorflag == 2 then nf_drop else nf_accept, n))
          × (n.net ≡ (if says_b d then told k m.net (line (udp_line h.saddr h.daddr d)) else m.net))
    hook_func_udp udp d valid =
        let (n, run, net) =
          handle_udp_lem k fr m data_size alive frame sized d valid h.saddr h.daddr in
        (
          n,
          hook_func-switched (datagram_bytes d) seen ours
              ∙ udp_transport k fr (datagram_bytes d) _ h.saddr h.daddr m udp
              ∙ run,
          net,
        )

    -- For a packet with a whole IP header that is not broadcast and goes from the source to the target,
    -- buffers of the declared sizes, a channel whose set pointer has a socket behind it, and a kernel
    -- whose fresh buffers have the size asked for: if the protocol's number is neither 6, for TCP, nor
    -- 17, for UDP, the packet is accepted whatever its body is, and one line goes to the client if
    -- there is one: the label that the table has for that number, or the number itself where it has
    -- none, and the two addresses in quotes.
    pub hook_func-logged :
        (p : Bytes)
        → h.protocol < 256
        → h.protocol ≢ 6
        → h.protocol ≢ 17
        → hook_func k fr (some (skb_of pkt_type eth h p)) m
          ≡ ok (
            nf_accept,
            logged k
                (label_in labels h.protocol
                  ++ (quoted_quad h.saddr ++ (codes " ---> " ++ quoted_quad h.daddr)))
                m,
          )
    hook_func-logged p small not_tcp not_udp =
        let (text, short) = protocol_label-IsText h.protocol small in
        let logs =
          debug_addresses-logged k fr m data_size alive frame (protocol_label h.protocol) h.saddr
            h.daddr text (omega (arith, sized.line_size)) in
        hook_func-switched p seen ours
        ∙ no_transport k fr h.protocol p _ h.saddr h.daddr m not_tcp not_udp logs
        ∙ ap
            (λ label. ok (
              nf_accept,
              logged k (label ++ (quoted_quad h.saddr ++ (codes " ---> " ++ quoted_quad h.daddr)))
                  m,
            ))
            (protocol_label-label_in h.protocol)
