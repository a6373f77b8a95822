-- ===== src/NetFilter/Tcp.antt =====
-- src/netFilter.c: the TCP case on a whole segment.
use netfilter.Base.{
  ℕ, ◌+◌, ◌-◌, ◌*◌, ◌/◌, ◌%◌, ◌^◌, ◌≤◌, ◌<◌, ◌≡◌, ◌≢◌, refl, ap, ◌∙◌, true, List, ◌∷◌, ◌++◌, some,
  arith, Bytes, codes, length, drop, le→leb, ok, fault, write_overrun,
}
use netfilter.Base.Int.{ℤ, pos, negsuc, sub_ℕ, size_t}
use netfilter.Memory.{advance}
use netfilter.Memory.Text.{text_of, text_of-IsText, c_str-holding, advance-append}
use netfilter.Memory.Copy.{strncpy_overrun}
use netfilter.Kernel.{Unicast, Kernel, u8_at, be16_at}
use netfilter.NetFilter.{
  Module, Frame, nf_accept, copy_body, ipproto_tcp, ipproto_udp, packet_broadcast,
}
use netfilter.NetFilter.Hook.{handle_tcp, handle_udp, by_protocol, hook_func}
use netfilter.NetFilter.Log.{IsFrame, logged, ports_text, debug_ports-logged}
use netfilter.NetFilter.Datagram.{IsSized, be16, body_after, copy_body-holding}
use netfilter.NetFilter.Header.{IpHeader, IsIpHeader}
use netfilter.NetFilter.Packet.{Route, on_route, skb_of, hook_func-switched, udp_transport}

abbrev be32 : ℕ → Bytes
be32 x = be16 (x / 65536) ++ be16 (x % 65536)

-- A TCP header and its payload, and what the packet's memory holds behind them. `flags` is the rest of
-- the header, from the flags to the last option.
pub record Segment : Type 0 where
  pub source : ℕ
  pub dest : ℕ
  pub seq : ℕ
  pub ack_seq : ℕ
  pub doff : ℕ
  pub res1 : ℕ
  pub flags : Bytes
  pub payload : Bytes
  pub trailer : Bytes

abbrev segment_head : Segment → Bytes
segment_head g =
    be16 g.source
    ++ (be16 g.dest ++ (be32 g.seq ++ (be32 g.ack_seq ++ ((g.doff * 16 + g.res1) ∷ g.flags))))

unfoldable pub segment_bytes : Segment → Bytes
segment_bytes g = segment_head g ++ (g.payload ++ g.trailer)

pub record IsSegment (g : Segment) : Type 0 where
  pub source_fits : g.source < 65536
  pub dest_fits : g.dest < 65536
  pub res1_fits : g.res1 < 16
  pub head_fits : 13 + length g.flags ≡ g.doff * 4
  pub length_fits : length g.payload < 65536

tcp_source : (g : Segment) → be16_at (segment_bytes g) 0 ≡ ok g.source
unfolding segment_bytes u8_at
tcp_source g = ap ok (omega arith)

tcp_dest : (g : Segment) → be16_at (segment_bytes g) 2 ≡ ok g.dest
unfolding segment_bytes u8_at
tcp_dest g = ap ok (omega arith)

tcp_offset : (g : Segment) → u8_at (segment_bytes g) 12 ≡ ok (g.doff * 16 + g.res1)
unfolding segment_bytes u8_at
tcp_offset g = refl

tcp_body :
    (g : Segment)
    → IsSegment g
    → advance (segment_bytes g) (g.doff * 4) ≡ ok (g.payload ++ g.trailer)
unfolding segment_bytes
tcp_body g v =
    let size : g.doff * 4 ≡ length (segment_head g) = omega (arith, v.head_fits) in
    rw size (advance-append (segment_head g) (g.payload ++ g.trailer))

-- The line that the client gets for a segment.
abbrev pub tcp_line : ℕ → ℕ → Segment → Bytes
tcp_line saddr daddr g = ports_text (codes "TCP:") saddr g.source daddr g.dest (text_of g.payload)

module _ (k : Kernel) (fr : Frame) (m : Module)
    (data_size : (h : List Unicast) (n : ℕ) → length (k.skb_payload h n) ≡ n)
    (alive : m.net.nl_sk ≡ true → m.net.live ≡ true) (frame : IsFrame fr) (sized : IsSized m) where
  handle_tcp_lem :
      (g : Segment) (saddr daddr : ℕ)
      → IsSegment g
      → handle_tcp k fr (segment_bytes g) (pos (g.doff * 4 + length g.payload)) saddr daddr m
        ≡ ok (
          nf_accept,
          logged k
              (tcp_line saddr daddr g)
              (record m { tcp_udp_body = body_after g.payload m.tcp_udp_body }),
        )
  unfolding handle_tcp
  handle_tcp_lem g saddr daddr v =
      let offset : (g.doff * 16 + g.res1) / 16 ≡ g.doff = omega (arith, v.res1_fits) in
      let len : sub_ℕ (g.doff * 4 + length g.payload) (g.doff * 4) ≡ pos (length g.payload) =
        ground arith in
      let (text, short) = text_of-IsText g.payload in
      let logs =
        debug_ports-logged k fr (record m { tcp_udp_body = body_after g.payload m.tcp_udp_body })
          data_size alive frame (codes "TCP:") saddr g.source daddr g.dest (text_of g.payload)
          (omega arith) text v.source_fits v.dest_fits (c_str-holding (text_of g.payload) _ text)
          (omega (arith, sized.line_size, v.length_fits, short)) in
      rw
        (
          tcp_offset g,
          offset,
          len,
          tcp_body g v,
          copy_body-holding m g.payload g.trailer (omega (arith, sized.body_size, v.length_fits)),
          tcp_source g,
          tcp_dest g,
          logs,
        )
        (ground arith)

tcp_transport :
    (k : Kernel) (fr : Frame) (p : Bytes) (len : ℤ) (saddr daddr : ℕ) (m : Module) {protocol : ℕ}
    → protocol ≡ ipproto_tcp
    → by_protocol k fr protocol p len saddr daddr m ≡ handle_tcp k fr p len saddr daddr m
unfolding by_protocol
tcp_transport k fr p len saddr daddr m e = rw e

copy_body_negative :
    (m : Module) (p : Bytes) (n : ℕ)
    → length m.tcp_udp_body ≡ 100000
    → n < 2 ^ 32
    → copy_body m p (negsuc n) ≡ fault write_overrun
unfolding copy_body
copy_body_negative m p n size small =
    rw (strncpy_overrun m.tcp_udp_body p (size_t (negsuc n)) (omega arith)) refl

advance_inside : (p : Bytes) (n : ℕ) → n ≤ length p → advance p n ≡ ok (drop n p)
unfolding advance
advance_inside p n h = rw (le→leb n (length p) h)

handle_udp_short :
    (k : Kernel) (fr : Frame) (m : Module) (p : Bytes) (saddr daddr len : ℕ)
    → length m.tcp_udp_body ≡ 100000
    → be16_at p 4 ≡ ok len
    → len < 8
    → 8 ≤ length p
    → handle_udp k fr p saddr daddr m ≡ fault write_overrun
unfolding handle_udp
handle_udp_short k fr m p saddr daddr len size field short inside =
    let negative : sub_ℕ len 8 ≡ negsuc (8 - len - 1) = ground arith in
    rw
      (
        field,
        advance_inside p 8 inside,
        negative,
        copy_body_negative m (drop 8 p) (8 - len - 1) size (omega arith),
      )
      refl

handle_tcp_short :
    (k : Kernel) (fr : Frame) (m : Module) (p : Bytes) (saddr daddr len offset : ℕ)
    → length m.tcp_udp_body ≡ 100000
    → u8_at p 12 ≡ ok offset
    → offset < 256
    → len < offset / 16 * 4
    → offset / 16 * 4 ≤ length p
    → handle_tcp k fr p (pos len) saddr daddr m ≡ fault write_overrun
unfolding handle_tcp
handle_tcp_short k fr m p saddr daddr len offset size field byte short inside =
    let n = offset / 16 * 4 - len - 1 in
    let negative : sub_ℕ len (offset / 16 * 4) ≡ negsuc n = ground arith in
    rw
      (
        field,
        advance_inside p (offset / 16 * 4) inside,
        negative,
        copy_body_negative m (drop (offset / 16 * 4) p) n size (omega arith),
      )
      refl

module _ (k : Kernel) (fr : Frame) (m : Module) (source target : Bytes)
    (route : Route m source target) (pkt_type : ℕ) (eth : Bytes) (h : IpHeader)
    (header : IsIpHeader h) (sized : IsSized m) (seen : pkt_type ≢ packet_broadcast)
    (ours : on_route k source target h ≡ true) where
  -- For a whole TCP segment with any bytes as its payload, alone in a packet that is not broadcast
  -- and goes from the source to the target, buffers of the declared sizes, a channel whose set
  -- pointer has a socket behind it, and a kernel whose fresh buffers have the size asked for: the
  -- packet is accepted, the buffer for bodies then holds the text of the payload, and one line with
  -- the addresses, the ports and that text goes to the client if there is one.
  pub hook_func_tcp :
      ((q : List Unicast) (n : ℕ) → length (k.skb_payload q n) ≡ n)
      → (m.net.nl_sk ≡ true → m.net.live ≡ true)
      → IsFrame fr
      → h.protocol ≡ ipproto_tcp
      → (g : Segment) → IsSegment g
      → h.tot_len ≡ h.ihl * 4 + (g.doff * 4 + length g.payload)
      → hook_func k fr (some (skb_of pkt_type eth h (segment_bytes g))) m
        ≡ ok (
          nf_accept,
          logged k
              (tcp_line h.saddr h.daddr g)
              (record m { tcp_udp_body = body_after g.payload m.tcp_udp_body }),
        )
  hook_func_tcp data_size alive frame tcp g v whole =
      let len : sub_ℕ h.tot_len ((64 + h.ihl) % 16 * 4) ≡ pos (g.doff * 4 + length g.payload) =
        ground (arith, header.ihl_fits) in
      hook_func-switched k fr m source target route pkt_type eth h header (segment_bytes g) seen
        ours
      ∙ tcp_transport k fr (segment_bytes g) _ h.saddr h.daddr m tcp
      ∙ ap (λ i. handle_tcp k fr (segment_bytes g) i h.saddr h.daddr m) len
      ∙ handle_tcp_lem k fr m data_size alive frame sized g h.saddr h.daddr v

  -- In a packet that is not broadcast and goes from the source to the target, with buffers of the
  -- declared sizes: a UDP datagram whose length field is less than its header makes the hook write
  -- outside the buffer for bodies, whatever stands in the datagram.
  pub hook_func_udp_short :
      h.protocol ≡ ipproto_udp
      → (p : Bytes) (len : ℕ) → be16_at p 4 ≡ ok len
      → len < 8
      → 8 ≤ length p
      → hook_func k fr (some (skb_of pkt_type eth h p)) m ≡ fault write_overrun
  hook_func_udp_short udp p len field short inside =
      hook_func-switched k fr m source target route pkt_type eth h header p seen ours
      ∙ udp_transport k fr p _ h.saddr h.daddr m udp
      ∙ handle_udp_short k fr m p h.saddr h.daddr len sized.body_size field short inside

  -- In a packet that is not broadcast and goes from the source to the target, with buffers of the
  -- declared sizes, a total length that covers the IP header, and memory as long as the TCP header
  -- says: where the total length is less than the two headers together, the hook writes outside the
  -- buffer for bodies, whatever else stands in the segment.
  pub hook_func_tcp_short :
      h.protocol ≡ ipproto_tcp
      → (p : Bytes) (offset : ℕ) → u8_at p 12 ≡ ok offset
      → offset < 256
      → offset / 16 * 4 ≤ length p
      → h.ihl * 4 ≤ h.tot_len
      → h.tot_len < h.ihl * 4 + offset / 16 * 4
      → hook_func k fr (some (skb_of pkt_type eth h p)) m ≡ fault write_overrun
  hook_func_tcp_short tcp p offset field byte inside has_ip short =
      let len : sub_ℕ h.tot_len ((64 + h.ihl) % 16 * 4) ≡ pos (h.tot_len - h.ihl * 4) =
        ground (arith, header.ihl_fits) in
      hook_func-switched k fr m source target route pkt_type eth h header p seen ours
      ∙ tcp_transport k fr p _ h.saddr h.daddr m tcp
      ∙ ap (λ i. handle_tcp k fr p i h.saddr h.daddr m) len
      ∙ handle_tcp_short k fr m p h.saddr h.daddr (h.tot_len - h.ihl * 4) offset sized.body_size
          field byte (omega arith) inside
