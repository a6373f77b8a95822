-- ===== src/Gate/Arrivals.antt =====
-- src/netFilter.c: the hook on one whole packet, against the gate.
use netfilter.Base.{
  ℕ, ◌≡◌, ◌≢◌, ◌⊎◌, refl, ◌∙◌, Bool, true, false, ◌&&◌, List, Option, none, some, inl, inr, arith,
  Bytes, length, ◌==◌, if◌then◌else◌, Bool-cases, ok,
}
use netfilter.Kernel.{Unicast, Kernel}
use netfilter.NetLink.{Netlink}
use netfilter.NetLink.Deliver.{told}
use netfilter.NetFilter.{Module, Frame, nf_accept, nf_drop, packet_broadcast}
use netfilter.NetFilter.Hook.{hook_func}
use netfilter.NetFilter.Log.{IsFrame, line}
use netfilter.NetFilter.Header.{IpHeader, IsIpHeader}
use netfilter.NetFilter.Datagram.{IsSized, says_b}
use netfilter.NetFilter.Udp.{udp_line}
use netfilter.NetFilter.Tcp.{hook_func_tcp}
use netfilter.NetFilter.Packet.{
  Route, on_route, skb_of, hook_func_passes, hook_func_udp, hook_func-logged,
}
use netfilter.Gate.{Body, udp, tcp, other, body_bytes, IsBody, report, is_b, looked_at}

abbrev pub tell_net : Kernel → Netlink → Option Bytes → Netlink
tell_net k s none = s
tell_net k s (some text) = told k s (line text)

-- The verdict of the gate, and the channel after the hook.
abbrev pub Seen : Kernel → Module → Frame → ℕ → Bytes → IpHeader → Body → Bool → Type 0
Seen k m fr pkt_type eth ip b looked =
    (n : Module) × (hook_func k fr (some (skb_of pkt_type eth ip (body_bytes b))) m
      ≡ ok (if looked && (is_b b && m.net.operatorflag == 2) then nf_drop else nf_accept, n))
    × (n.net ≡ (if looked then tell_net k m.net (report ip b) else m.net))

tell_udp :
    (k : Kernel) (s : Netlink) (says : Bool) (text : Bytes)
    → (if says then told k s (line text) else s) ≡ tell_net k s (if says then some text else none)
tell_udp k s true text = refl
tell_udp k s false text = refl

module _ (k : Kernel) (m : Module) (source target : Bytes)
    (data_size : (h : List Unicast) (n : ℕ) → length (k.skb_payload h n) ≡ n)
    (alive : m.net.nl_sk ≡ true → m.net.live ≡ true) (sized : IsSized m)
    (route : Route m source target) (fr : Frame) (pkt_type : ℕ) (eth : Bytes) (ip : IpHeader)
    (frame : IsFrame fr) (header : IsIpHeader ip) where
  inside-Seen :
      (b : Body)
      → IsBody ip b
      → pkt_type ≢ packet_broadcast
      → on_route k source target ip ≡ true
      → Seen k m fr pkt_type eth ip b true
  inside-Seen (udp d) (protocol, valid) direct ours =
      let (n, run, net) =
        hook_func_udp k fr m source target route pkt_type eth ip header data_size alive frame sized
          direct ours protocol d valid in
      (n, run, net ∙ tell_udp k m.net (says_b d) (udp_line ip.saddr ip.daddr d))
  inside-Seen (tcp g) (protocol, valid, whole) direct ours = (
    _,
    hook_func_tcp k fr m source target route pkt_type eth ip header sized direct ours data_size
        alive frame protocol g valid whole,
    refl,
  )
  inside-Seen (other p) (small, not_tcp, not_udp) direct ours = (
    _,
    hook_func-logged k fr m source target route pkt_type eth ip header data_size alive frame sized
        direct ours p small not_tcp not_udp,
    refl,
  )

  outside-Seen :
      (b : Body)
      → (pkt_type ≡ packet_broadcast) ⊎ (on_route k source target ip ≡ false)
      → Seen k m fr pkt_type eth ip b false
  outside-Seen b away = (
    m,
    hook_func_passes k fr m source target route pkt_type eth ip header (body_bytes b) away,
    refl,
  )

  -- Any whole packet.
  pub hook_func-Seen :
      (b : Body)
      → IsBody ip b
      → Seen k m fr pkt_type eth ip b (looked_at k source target pkt_type ip)
  hook_func-Seen b whole = elim (Bool-cases (pkt_type == packet_broadcast)) [
    | inl cast ↦ rw cast (outside-Seen b (inl (ground arith)))
    | inr direct ↦ elim (Bool-cases (on_route k source target ip)) [
      | inl ours ↦ rw (direct, ours) (inside-Seen b whole (ground arith) ours)
      | inr away ↦ rw (direct, away) (outside-Seen b (inr away))
    ]
  ]
