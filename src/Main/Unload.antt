-- ===== src/Main/Unload.antt =====
-- src/main.c: the time in `fini` between `deleteNetlink` and `releaseNetFilter`.
use netfilter.Base.{
  ℕ, suc, ◌+◌, ◌-◌, ◌<◌, ◌≡◌, ◌≢◌, refl, ◌∙◌, true, false, List, ◌++◌, some, arith, Bytes, codes,
  length, drop, length-append, fault, use_after_free,
}
use netfilter.Base.Int.{ℤ}
use netfilter.Memory.Text.{IsText, holding, c_str-holding, write_text-holding, IsText-append}
use netfilter.Kernel.{Unicast, Kernel, nlmsghdr_size, nlmsg_space}
use netfilter.DealConf.Address.Quad.{quoted_quad, quoted_quad-IsText}
use netfilter.NetLink.{Netlink, delete_netlink, send_begin, send_end, send_msg_netlink}
use netfilter.NetFilter.{
  Module, Frame, packet_broadcast, ipproto_tcp, ipproto_udp, debug, debug_addresses,
}
use netfilter.NetFilter.Hook.{hook_func, by_protocol, protocol_label}
use netfilter.NetFilter.Log.{IsFrame, line, address_text_lem}
use netfilter.NetFilter.Header.{IpHeader, IsIpHeader, protocol_label-IsText}
use netfilter.NetFilter.Packet.{Route, on_route, skb_of, hook_func-switched}

-- A message to a connected client through a pointer to a socket that is gone.
send_released :
    (k : Kernel) (s : Netlink) (text rest : Bytes)
    → ((h : List Unicast) (n : ℕ) → length (k.skb_payload h n) ≡ n)
    → k.alloc_skb s.sent (nlmsg_space (length text + 1)) ≡ true
    → s.nl_sk ≡ true
    → s.live ≡ false
    → s.pid ≢ 0
    → IsText text
    → send_msg_netlink k (holding text rest) s ≡ fault use_after_free
unfolding send_msg_netlink send_begin send_end
send_released k s text rest data_size room is_set gone client t =
    let n = length text in
    let fits : n < length (k.skb_payload s.sent (nlmsg_space (n + 1) - nlmsghdr_size)) =
      omega (arith, data_size s.sent (nlmsg_space (n + 1) - nlmsghdr_size)) in
    ground (
      arith,
      c_str-holding text rest t,
      write_text-holding (k.skb_payload s.sent (nlmsg_space (n + 1) - nlmsghdr_size)) text fits,
    )

debug_released :
    (k : Kernel) (m : Module) (text : Bytes)
    → ((h : List Unicast) (n : ℕ) → length (k.skb_payload h n) ≡ n)
    → ((n : ℕ) → k.alloc_skb m.net.sent n ≡ true)
    → m.net.nl_sk ≡ true
    → m.net.live ≡ false
    → m.net.pid ≢ 0
    → IsText text
    → length text + 6 < length m.mymessagebuf
    → debug k text m ≡ fault use_after_free
unfolding debug
debug_released k m text data_size room is_set gone client t fits =
    let whole : IsText (line text) =
      (omega arith, (omega arith, (omega arith, (omega arith, (omega arith, (omega arith, t)))))) in
    rw
      (
        write_text-holding m.mymessagebuf (line text) (omega arith),
        send_released k m.net (line text) (drop (suc (length (line text))) m.mymessagebuf) data_size
            (room (nlmsg_space (length (line text) + 1))) is_set gone client whole,
      )
      refl

addresses_released :
    (k : Kernel) (fr : Frame) (m : Module) (name : Bytes) (saddr daddr : ℕ)
    → ((h : List Unicast) (n : ℕ) → length (k.skb_payload h n) ≡ n)
    → ((n : ℕ) → k.alloc_skb m.net.sent n ≡ true)
    → m.net.nl_sk ≡ true
    → m.net.live ≡ false
    → m.net.pid ≢ 0
    → IsFrame fr
    → IsText name
    → length name + 60 < length m.mymessagebuf
    → debug_addresses k fr name saddr daddr m ≡ fault use_after_free
unfolding debug_addresses
addresses_released k fr m name saddr daddr data_size room is_set gone client frame tn fits =
    let (t1, l1) = quoted_quad-IsText saddr in
    let (t2, l2) = quoted_quad-IsText daddr in
    let tail = codes " ---> " ++ quoted_quad daddr in
    rw
      (
        address_text_lem fr.sip fr.str saddr frame.sip_size frame.str_size,
        address_text_lem fr.dip fr.str daddr frame.dip_size frame.str_size,
      )
      (debug_released k m (name ++ (quoted_quad saddr ++ tail)) data_size room is_set gone client
        (IsText-append name _ tn (
          IsText-append (quoted_quad saddr) _ t1
            (IsText-append (codes " ---> ") _ (omega arith) t2)))
        (omega (
          arith,
          length-append name (quoted_quad saddr ++ tail),
          length-append (quoted_quad saddr) tail,
        )))

by_protocol_released :
    (k : Kernel) (fr : Frame) (protocol : ℕ) (p : Bytes) (len : ℤ) (saddr daddr : ℕ) (m : Module)
    → protocol ≢ ipproto_tcp
    → protocol ≢ ipproto_udp
    → debug_addresses k fr (protocol_label protocol) saddr daddr m ≡ fault use_after_free
    → by_protocol k fr protocol p len saddr daddr m ≡ fault use_after_free
unfolding by_protocol
by_protocol_released k fr protocol p len saddr daddr m t u e = ground (arith, e)

-- After `deleteNetlink`, with a client connected, memory, and buffers of 18, 4 and more than 100 bytes:
-- a packet from the configured source to the configured target that is not broadcast and neither TCP
-- nor UDP makes the hook use the socket that is gone.
pub hook_func-released :
    (k : Kernel) (fr : Frame) (m : Module) (source target : Bytes) (pkt_type : ℕ) (eth : Bytes)
    (h : IpHeader) (p : Bytes)
    → ((q : List Unicast) (n : ℕ) → length (k.skb_payload q n) ≡ n)
    → ((n : ℕ) → k.alloc_skb m.net.sent n ≡ true)
    → m.net.nl_sk ≡ true
    → m.net.pid ≢ 0
    → IsFrame fr
    → 100 < length m.mymessagebuf
    → Route m source target
    → IsIpHeader h
    → pkt_type ≢ packet_broadcast
    → on_route k source target h ≡ true
    → h.protocol < 256
    → h.protocol ≢ ipproto_tcp
    → h.protocol ≢ ipproto_udp
    → hook_func k fr (some (skb_of pkt_type eth h p)) (record m { net = delete_netlink m.net })
      ≡ fault use_after_free
unfolding delete_netlink
hook_func-released k fr m source target pkt_type eth h p data_size room is_set client frame size
      route header seen ours small not_tcp not_udp =
    let n = record m { net = delete_netlink m.net } in
    let route' : Route n source target = record {
      source_read = route.source_read;
      target_read = route.target_read;
    } in
    let gone : n.net.live ≡ false = ground arith in
    let still : n.net.nl_sk ≡ true = ground arith in
    let same : n.net.pid ≡ m.net.pid = ground arith in
    let sent : n.net.sent ≡ m.net.sent = ground arith in
    let (text, short) = protocol_label-IsText h.protocol small in
    let dead =
      addresses_released k fr n (protocol_label h.protocol) h.saddr h.daddr data_size
        (λ x. rw sent (room x)) still gone (rw same client) frame text (omega arith) in
    hook_func-switched k fr n source target route' pkt_type eth h header p seen ours
    ∙ by_protocol_released k fr h.protocol p _ h.saddr h.daddr n not_tcp not_udp dead
