-- ===== src/NetFilter/Reasons.antt =====
-- src/netFilter.c: when `hook_func` drops a packet, and what every run of it leaves alone.
use netfilter.Base.{
  ℕ, ◌*◌, ◌%◌, ◌≡◌, ◌≢◌, refl, ap, ◌∙◌, Bool, true, false, not, Option, none, some, inl, inr, arith,
  Bytes, codes, ◌==◌, if◌then◌else◌, Bool-cases, Result-cases, ok, ◌>>=◌, Ensures, >>=-Ensures,
}
use netfilter.Memory.{c_str, advance}
use netfilter.Base.Int.{ℤ, sub_ℕ}
use netfilter.Kernel.{Kernel, u8_at, be16_at, le32_at}
use netfilter.DealConf.Config.{Config}
use netfilter.NetFilter.{
  Module, SkBuff, Frame, Verdict, nf_accept, nf_drop, packet_broadcast, ipproto_udp,
}
use netfilter.NetFilter.Hook.{by_protocol, addresses_match, filter_packet, with_pointers, hook_func}
use netfilter.NetFilter.Frames.{SameSettings}
use netfilter.NetFilter.Drop.{Judged, by_protocol-Judged}

-- All that a drop of the packet with the IP header `iph` tells.
pub record DropReason (k : Kernel) (iph : Bytes) (m n : Module) : Type 0 where
  pub from_source :
      (source : Bytes) × (c_str m.conf.sourceip ≡ ok source)
      × (le32_at iph 12 ≡ ok (k.in_aton source))
  pub to_target :
      (target : Bytes) × (c_str m.conf.targetip ≡ ok target)
      × (le32_at iph 16 ≡ ok (k.in_aton target))
  pub is_udp : u8_at iph 9 ≡ ok ipproto_udp
  pub told_to_drop : m.net.operatorflag ≡ 2
  pub message_is_b : c_str n.xmldest ≡ ok (codes "B")

addresses_match-true :
    (k : Kernel) (c : Config) (saddr daddr : ℕ)
    → addresses_match k c saddr daddr ≡ ok true
    → ((source : Bytes) × (c_str c.sourceip ≡ ok source) × (saddr ≡ k.in_aton source))
      × ((target : Bytes) × (c_str c.targetip ≡ ok target) × (daddr ≡ k.in_aton target))
unfolding addresses_match
addresses_match-true k c saddr daddr e = elim (Result-cases (c_str c.sourceip)) [
  | inr (f, none_read) ↦ ground (arith, none_read)
  | inl (source, read) ↦ elim (Result-cases (c_str c.targetip)) [
    | inr (f, none_read) ↦ ground (arith, read, none_read)
    | inl (target, read') ↦
        ((source, read, ground (arith, read, read')), (target, read', ground (arith, read, read')))
  ]
]

filter_packet-Judged :
    (k : Kernel) (fr : Frame) (iph dat : Bytes) (m : Module)
    → Ensures (Judged (DropReason k iph m) m) (filter_packet k fr iph dat m)
unfolding filter_packet
filter_packet-Judged k fr iph dat m = >>=-Ensures _ (u8_at iph 0) _ λ version_ihl _.
    >>=-Ensures _ (be16_at iph 2) _ λ tot_len _. >>=-Ensures _ (le32_at iph 12) _ λ saddr at_source.
      >>=-Ensures _ (le32_at iph 16) _ λ daddr at_target.
        >>=-Ensures _ (addresses_match k m.conf saddr daddr) _ λ ours matched.
          last version_ihl (sub_ℕ tot_len (version_ihl % 16 * 4)) saddr daddr at_source at_target
            ours matched
  where
    judge :
        (len : ℤ) (saddr daddr : ℕ) (p : Bytes)
        → le32_at iph 12 ≡ ok saddr
        → le32_at iph 16 ≡ ok daddr
        → addresses_match k m.conf saddr daddr ≡ ok true
        → (protocol : ℕ) → u8_at iph 9 ≡ ok protocol
        → Ensures (Judged (DropReason k iph m) m) (by_protocol k fr protocol p len saddr daddr m)
    judge len saddr daddr p at_source at_target matched protocol at_protocol (v, n) e =
        let (same, why) = by_protocol-Judged k fr protocol p len saddr daddr m (v, n) e in
        let ((source, read, is), (target, read', is')) =
          addresses_match-true k m.conf saddr daddr matched in
        (
          same,
          λ d.
              let (udp, saw) = why d in
              record {
                from_source = (source, read, at_source ∙ ap ok is);
                to_target = (target, read', at_target ∙ ap ok is');
                is_udp = at_protocol ∙ ap ok udp;
                told_to_drop = saw.told_to_drop;
                message_is_b = saw.message_is_b;
              },
        )

    last :
        (version_ihl : ℕ) (len : ℤ) (saddr daddr : ℕ)
        → le32_at iph 12 ≡ ok saddr
        → le32_at iph 16 ≡ ok daddr
        → (ours : Bool) → addresses_match k m.conf saddr daddr ≡ ok ours
        → Ensures (Judged (DropReason k iph m) m) (
            if not ours then ok (nf_accept, m) else do
              p ← advance dat (version_ihl % 16 * 4)
              protocol ← u8_at iph 9
              by_protocol k fr protocol p len saddr daddr m)
    last version_ihl len saddr daddr at_source at_target false matched (v, n) e =
        (ground arith, λ d. ground arith)
    last version_ihl len saddr daddr at_source at_target true matched (v, n) e =
        (>>=-Ensures (Judged (DropReason k iph m) m) (advance dat (version_ihl % 16 * 4)) _ λ p _.
            >>=-Ensures _ (u8_at iph 9) _ λ protocol at_protocol.
              judge len saddr daddr p at_source at_target matched protocol at_protocol)
          (v, n) e

-- The packet that a drop came from.
pub record Dropped (k : Kernel) (skb : SkBuff) (m n : Module) : Type 0 where
  pub not_broadcast : skb.pkt_type ≢ packet_broadcast
  pub reason : (iph : Bytes) × (skb.network_header ≡ some iph) × DropReason k iph m n

hook_func-Judged :
    (k : Kernel) (fr : Frame) (skb : SkBuff) (m : Module)
    → Ensures (Judged (Dropped k skb m) m) (hook_func k fr (some skb) m)
unfolding hook_func
hook_func-Judged k fr skb m = cases skb.network_header skb.mac_header skb.skb_data refl
  where
    cases :
        (iph eth dat : Option Bytes)
        → skb.network_header ≡ iph
        → Ensures (Judged (Dropped k skb m) m) (with_pointers k fr skb iph eth dat m)
    cases (some iph) (some eth) (some dat) there (v, n) e =
        elim (Bool-cases (skb.pkt_type == packet_broadcast)) [
          | inl cast ↦ (ground arith, λ d. ground arith)
          | inr direct ↦
              let (same, why) = filter_packet-Judged k fr iph dat m (v, n) (rw direct at e) in
              (same, λ d. record { not_broadcast = ground arith; reason = (iph, there, why d) })
        ]
    cases (some iph) (some eth) none there (v, n) e = (ground arith, λ d. ground arith)
    cases (some iph) none dat there (v, n) e = (ground arith, λ d. ground arith)
    cases none eth dat there (v, n) e = (ground arith, λ d. ground arith)

-- For any bytes in the packet and any state of the module: if the hook ends with a drop, the packet is
-- not broadcast, its IP header names UDP and the two configured addresses, the operator chose to
-- drop, and the buffer for the message holds "B".
pub hook_func-drop :
    (k : Kernel) (fr : Frame) (skb : SkBuff) (m n : Module)
    → hook_func k fr (some skb) m ≡ ok (nf_drop, n)
    → Dropped k skb m n
hook_func-drop k fr skb m n e = (hook_func-Judged k fr skb m (nf_drop, n) e).1 refl

-- For any packet and any state: a run of the hook that ends, with either verdict, changes neither the
-- client nor the operator's choice, the socket, the registration, the direction or the two addresses.
pub hook_func-SameSettings :
    (k : Kernel) (fr : Frame) (skb : Option SkBuff) (m n : Module) (v : Verdict)
    → hook_func k fr skb m ≡ ok (v, n)
    → SameSettings m n
hook_func-SameSettings k fr none m n v e = unfold hook_func in cc
hook_func-SameSettings k fr (some skb) m n v e = (hook_func-Judged k fr skb m (v, n) e).0
