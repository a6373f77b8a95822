-- ===== src/NetFilter/Hook.antt =====
-- src/netFilter.c: `hook_func`.
use netfilter.Base.{
  ℕ, ◌*◌, ◌/◌, ◌%◌, Bool, false, not, ◌||◌, ◌++◌, Option, none, some, Bytes, codes, ◌==◌,
  if◌then◌else◌, Result, ok, fault, null_dereference, ◌>>=◌,
}
use netfilter.Memory.{c_str, advance, strcmp_is_zero}
use netfilter.Base.Int.{ℤ, sub_ℕ, sub_length, lt_length}
use netfilter.Base.Decimal.{decimal}
use netfilter.Kernel.{Kernel, u8_at, be16_at, le32_at}
use netfilter.DealConf.Extract.{literal, extract}
use netfilter.DealConf.Config.{Config}
use netfilter.NetFilter.{
  Module, SkBuff, Frame, Verdict, nf_accept, nf_drop, packet_broadcast, ipproto_ip, ipproto_icmp,
  ipproto_igmp, ipproto_tcp, ipproto_pup, ipproto_udp, ipproto_idp, ipproto_gre, ipproto_esp,
  ipproto_ah, ipproto_raw, debug_addresses, debug_ports, copy_body,
}

-- src/netFilter.c: MIN_SIZE
abbrev pub min_size : ℕ
min_size = 96

-- `case IPPROTO_TCP`; `p` is the pointer to the TCP header. The size test has the same outcome on
-- both sides.
unfoldable pub handle_tcp : Kernel → Frame → Bytes → ℤ → ℕ → ℕ → Module → Result (Verdict × Module)
handle_tcp k fr p ip_body_len saddr daddr m = do
  offset ← u8_at p 12
  let tcp_head_len = offset / 16 * 4
  let tcp_body_len = sub_length ip_body_len tcp_head_len
  body ← advance p tcp_head_len
  m1 ← copy_body m body tcp_body_len
  source ← be16_at p 0
  dest ← be16_at p 2
  m2 ← debug_ports k fr (codes "TCP:") saddr source daddr dest m1
  ok (if lt_length tcp_body_len min_size then (nf_accept, m2) else (nf_accept, m2))

-- The end of the UDP case: `found` tells whether the message of the packet is "B".
abbrev pub judge_udp : Kernel → Frame → Bytes → ℕ → ℕ → Bool → Module → Result (Verdict × Module)
judge_udp k fr p saddr daddr found m =
    if found
    then (do
      source ← be16_at p 0
      dest ← be16_at p 2
      m' ← debug_ports k fr (codes "UDP:") saddr source daddr dest m
      if m'.net.operatorflag == 2 then ok (nf_drop, m') else ok (nf_accept, m'))
    else ok (nf_accept, m)

-- `case IPPROTO_UDP`
unfoldable pub handle_udp : Kernel → Frame → Bytes → ℕ → ℕ → Module → Result (Verdict × Module)
handle_udp k fr p saddr daddr m = do
  len ← be16_at p 4
  let udp_body_len = sub_ℕ len 8
  body ← advance p 8
  m1 ← copy_body m body udp_body_len
  (xmldest, newcontent) ←
      extract m1.conf.newcontent m1.xmldest (literal (codes "message")) m1.tcp_udp_body 0 100
  let m2 = record m1 { conf = record m1.conf { newcontent = newcontent }; xmldest = xmldest }
  found ← strcmp_is_zero m2.xmldest (literal (codes "B"))
  judge_udp k fr p saddr daddr found m2

abbrev pub accept_after : Result Module → Result (Verdict × Module)
accept_after r = r >>= λ m. ok (nf_accept, m)

-- The labels of the cases that log the addresses and break.
unfoldable pub protocol_label : ℕ → Bytes
protocol_label protocol =
    if protocol == ipproto_esp || protocol == ipproto_ah
    then codes "ESP AND AH:"
    else if protocol == ipproto_icmp
    then codes "ICMP:"
    else if protocol == ipproto_igmp
    then codes "IGMP:"
    else if protocol == ipproto_pup
    then codes "PUP:"
    else if protocol == ipproto_idp
    then codes "IDP:"
    else if protocol == ipproto_ip
    then codes "IP:"
    else if protocol == ipproto_raw
    then codes "RAW:"
    else if protocol == ipproto_gre
    then codes "GRE:"
    else codes "Other Protocol=" ++ (decimal protocol ++ codes ", ")

-- The `switch` on the protocol.
unfoldable pub by_protocol :
    Kernel → Frame → ℕ → Bytes → ℤ → ℕ → ℕ → Module → Result (Verdict × Module)
by_protocol k fr protocol p ip_body_len saddr daddr m =
    if protocol == ipproto_tcp
    then handle_tcp k fr p ip_body_len saddr daddr m
    else if protocol == ipproto_udp
    then handle_udp k fr p saddr daddr m
    else accept_after (debug_addresses k fr (protocol_label protocol) saddr daddr m)

-- The two addresses of the packet are the configured ones; the second is compared only if the first
-- agrees.
unfoldable pub addresses_match : Kernel → Config → ℕ → ℕ → Result Bool
addresses_match k c saddr daddr = do
  source ← c_str c.sourceip
  if not (saddr == k.in_aton source)
      then ok false
      else do target ← c_str c.targetip; ok (daddr == k.in_aton target)

-- From the header length on.
unfoldable pub filter_packet : Kernel → Frame → Bytes → Bytes → Module → Result (Verdict × Module)
filter_packet k fr iph dat m = do
  version_ihl ← u8_at iph 0
  let ip_head_len = version_ihl % 16 * 4
  tot_len ← be16_at iph 2
  let ip_body_len = sub_ℕ tot_len ip_head_len
  saddr ← le32_at iph 12
  daddr ← le32_at iph 16
  ours ← addresses_match k m.conf saddr daddr
  if not ours then ok (nf_accept, m) else do
    p ← advance dat ip_head_len
    protocol ← u8_at iph 9
    by_protocol k fr protocol p ip_body_len saddr daddr m

-- The null tests and the broadcast test.
abbrev pub with_pointers :
    Kernel
    → Frame
    → SkBuff
    → Option Bytes
    → Option Bytes
    → Option Bytes
    → Module
    → Result (Verdict × Module)
with_pointers k fr skb (some iph) (some eth) (some dat) m =
    if skb.pkt_type == packet_broadcast then ok (nf_accept, m) else filter_packet k fr iph dat m
with_pointers k fr skb _ _ _ m = ok (nf_accept, m)

-- `eth_hdr(skb)` and `ip_hdr(skb)` read through `skb` before it is tested.
unfoldable pub hook_func : Kernel → Frame → Option SkBuff → Module → Result (Verdict × Module)
hook_func k fr none m = fault null_dereference
hook_func k fr (some skb) m =
    with_pointers k fr skb skb.network_header skb.mac_header skb.skb_data m
