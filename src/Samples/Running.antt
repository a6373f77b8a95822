-- ===== src/Samples/Running.antt =====
-- src/netLink.c and src/netFilter.c at concrete inputs.
use netfilter.NetLink.Interleave.{threads, Run, losses, IsSound, Run-IsSound, step-loses}
use netfilter.NetLink.Disconnect.{farewell, disconnect-loses}
use netfilter.Gate.Sent.{IsDelivery}
use netfilter.Kernel.{Unicast}
use netfilter.Base.{
  ◌≡◌, refl, ◌∙◌, true, ◌&&◌, List, [], ◌∷◌, ◌++◌, some, inl, arith, codes, ◌==◌, if◌then◌else◌, ok,
  fault, use_after_free,
}
use netfilter.Base.Int.{negsuc}
use netfilter.Memory.{starts_with, equal}
use netfilter.Memory.Text.{text_of, holding}
use netfilter.Memory.Search.{split_on}
use netfilter.DealConf.Spec.{content_of}
use netfilter.DealConf.Address.Quad.{quoted_quad}
use netfilter.NetLink.{
  Netlink, Attempt, send_begin, finish_attempt, netlink_test_disconnect, send_msg_netlink,
  recv_msg_netlink, delete_netlink, netlink_test_command,
}
use netfilter.NetLink.Deliver.{told, delivery, ready, send_msg_netlink_lem}
use netfilter.NetLink.Wire.{nlmsghdr}
use netfilter.NetLink.Receive.{command, payload_of, serve, recv_msg_netlink-serve}
use netfilter.NetFilter.{
  Module, SkBuff, nf_accept, nf_drop, packet_broadcast, ipproto_icmp, ipproto_udp,
}
use netfilter.NetFilter.Hook.{hook_func}
use netfilter.NetFilter.Labels.{labels, label_in}
use netfilter.NetFilter.Frames.{SameSettings}
use netfilter.NetFilter.Reasons.{Dropped, hook_func-drop, hook_func-SameSettings}
use netfilter.NetFilter.Log.{line, logged}
use netfilter.NetFilter.Datagram.{datagram_bytes, says_b}
use netfilter.NetFilter.Udp.{udp_line}
use netfilter.NetFilter.Packet.{skb_of, hook_func_passes, hook_func_udp, hook_func-logged}
use netfilter.Main.Unload.{hook_func-released}
use netfilter.Session.{Event, request, run, handle, chosen, run-chosen, dropped-chosen}
use netfilter.Samples.{
  kernel, kernel-sized, net, loaded, passing, loaded-IsSized, loaded-Route, shut-length, source_ip,
  target_ip, frame, frame-IsFrame, header, header-IsIpHeader, ours, datagram, datagram-IsDatagram,
}

-- The UDP packet with the message "B", and a ping.
abbrev udp_packet : SkBuff
udp_packet = skb_of 0 [] (header ipproto_udp) (datagram_bytes datagram)

abbrev ping : SkBuff
ping = skb_of 0 [] (header ipproto_icmp) []

datagram-says_b : says_b datagram ≡ true
unfolding content_of split_on starts_with equal text_of
datagram-says_b = refl

hook_func_udp_example :
    (n : Module) × (hook_func kernel frame (some udp_packet) loaded
      ≡ ok (if says_b datagram && loaded.net.operatorflag == 2 then nf_drop else nf_accept, n))
    × (n.net ≡ (
        if says_b datagram
        then told kernel loaded.net (line (udp_line 16777226 33554442 datagram))
        else loaded.net))
hook_func_udp_example =
    hook_func_udp kernel frame loaded source_ip target_ip loaded-Route 0 [] (header ipproto_udp)
      (header-IsIpHeader ipproto_udp) kernel-sized (λ s. s) frame-IsFrame loaded-IsSized
      (omega arith) (ours ipproto_udp) refl datagram datagram-IsDatagram

-- The run that drops the packet.
dropping : (n : Module) × (hook_func kernel frame (some udp_packet) loaded ≡ ok (nf_drop, n))
dropping =
    let (n, hooked, sent) =
      hook_func_udp kernel frame loaded source_ip target_ip loaded-Route 0 [] (header ipproto_udp)
        (header-IsIpHeader ipproto_udp) kernel-sized (λ s. s) frame-IsFrame loaded-IsSized
        (omega arith) (ours ipproto_udp) refl datagram datagram-IsDatagram in
    (n, hooked ∙ rw datagram-says_b refl)

hook_func-drop_example : Dropped kernel udp_packet loaded dropping.0
hook_func-drop_example = hook_func-drop kernel frame udp_packet loaded dropping.0 dropping.1

hook_func-SameSettings_example : SameSettings loaded dropping.0
hook_func-SameSettings_example =
    hook_func-SameSettings kernel frame (some udp_packet) loaded dropping.0 nf_drop dropping.1

hook_func_passes_example :
    hook_func kernel frame (some (skb_of packet_broadcast [] (header ipproto_icmp) [])) loaded
    ≡ ok (nf_accept, loaded)
hook_func_passes_example =
    hook_func_passes kernel frame loaded source_ip target_ip loaded-Route packet_broadcast []
      (header ipproto_icmp) (header-IsIpHeader ipproto_icmp) [] (inl refl)

hook_func-logged_example :
    hook_func kernel frame (some ping) loaded
    ≡ ok (
      nf_accept,
      logged kernel
          (label_in labels ipproto_icmp
            ++ (quoted_quad 16777226 ++ (codes " ---> " ++ quoted_quad 33554442)))
          loaded,
    )
hook_func-logged_example =
    hook_func-logged kernel frame loaded source_ip target_ip loaded-Route 0 [] (header ipproto_icmp)
      (header-IsIpHeader ipproto_icmp) kernel-sized (λ s. s) frame-IsFrame loaded-IsSized
      (omega arith) (ours ipproto_icmp) [] (omega arith) (omega arith) (omega arith)

hook_func-released_example :
    hook_func kernel frame (some ping) (record loaded { net = delete_netlink net })
    ≡ fault use_after_free
hook_func-released_example =
    hook_func-released kernel frame loaded source_ip target_ip 0 [] (header ipproto_icmp) []
      kernel-sized (λ n. refl) refl (omega arith) frame-IsFrame (omega (arith, shut-length))
      loaded-Route (header-IsIpHeader ipproto_icmp) (omega arith) (ours ipproto_icmp) (omega arith)
      (omega arith) (omega arith)

send_msg_netlink_lem_example : send_msg_netlink kernel (holding (codes "hello") []) net ≡ (
    if ready kernel net (codes "hello")
    then ok (
      kernel.netlink_unicast net.sent (delivery kernel net (codes "hello")),
      record net { sent = net.sent ++ delivery kernel net (codes "hello") ∷ [] },
    )
    else ok (negsuc 0, net))
send_msg_netlink_lem_example =
    send_msg_netlink_lem kernel net (codes "hello") [] kernel-sized (λ s. s) (omega arith)

recv_msg_netlink-serve_example :
    recv_msg_netlink kernel
      (nlmsghdr 21 netlink_test_command 7 ++ payload_of (command (codes "drop") []))
      net
    ≡ ok (serve kernel 7 (command (codes "drop") []) net)
recv_msg_netlink-serve_example =
    recv_msg_netlink-serve kernel net kernel-sized (λ s. s) (command (codes "drop") []) 21 7
      (omega arith) (omega arith) (omega arith) (omega arith) (omega arith)

-- The client sends "drop" to a module that lets packets pass.
abbrev events : List Event
events = request (command (codes "drop") []) 21 7 ∷ []

events-run : run kernel events passing ≡ ok loaded
unfolding run handle serve equal
events-run =
    rw
      (recv_msg_netlink-serve kernel passing.net kernel-sized (λ s. s) (command (codes "drop") [])
        21 7 (omega arith) (omega arith) (omega arith) (omega arith) (omega arith))
      refl

run-chosen_example : loaded.net.operatorflag ≡ chosen events passing.net.operatorflag
run-chosen_example =
    run-chosen kernel kernel-sized events passing loaded
      ((omega arith, omega arith, omega arith, omega arith, omega arith), tt) (λ s. s) events-run

dropped-chosen_example : chosen events passing.net.operatorflag ≡ 2
dropped-chosen_example =
    dropped-chosen kernel kernel-sized events passing loaded dropping.0 frame udp_packet
      ((omega arith, omega arith, omega arith, omega arith, omega arith), tt) (λ s. s) events-run
      dropping.1

disconnect-loses_example :
    (a : Attempt) × (t : Netlink) × (v : Netlink) × (u : Unicast) × (send_begin kernel
        (holding (codes "hello") [])
        net
      ≡ ok (a, t))
    × (recv_msg_netlink kernel (nlmsghdr 16 netlink_test_disconnect 7) t ≡ ok v)
    × (finish_attempt kernel (a, v) ≡ ok (negsuc 0, v))
    × (v.pid ≡ 0)
    × (v.sent ≡ u ∷ [])
    × IsDelivery (7, farewell) u
    × (v.skbs ≡ 1)
disconnect-loses_example =
    disconnect-loses kernel net (codes "hello") [] 7 kernel-sized (λ h n. refl) (omega arith) refl
      refl (omega arith) (omega arith)

-- The run in which the client of a waiting call goes away.
losing :
    (r : Run kernel (threads net []) (threads (record net { pid = 0; skbs = 1 }) [])) × (losses r
      ≡ 1)
losing = step-loses kernel net (codes "hello") [] [] kernel-sized (omega arith) refl

Run-IsSound_example : IsSound (losses losing.0) (threads (record net { pid = 0; skbs = 1 }) [])
Run-IsSound_example =
    Run-IsSound kernel net (threads (record net { pid = 0; skbs = 1 }) []) refl refl losing.0
