-- ===== src/NetFilter/SizedHook.antt =====
-- src/netFilter.c: a run of the hook leaves buffers of the declared sizes.
use netfilter.Base.{
  ℕ, ◌*◌, ◌/◌, ◌%◌, ◌≡◌, ◌∙◌, subst, Bool, true, false, not, Option, none, some, inl, inr, arith,
  Bytes, codes, ◌==◌, if◌then◌else◌, Bool-cases, Result, ok, ◌>>=◌, Ensures, >>=-Ensures,
}
use netfilter.Base.Int.{ℤ, sub_ℕ, sub_length, lt_length}
use netfilter.Memory.{advance, strcmp_is_zero}
use netfilter.Kernel.{Kernel, u8_at, be16_at, le32_at}
use netfilter.DealConf.Extract.{extract, literal}
use netfilter.DealConf.Kept.{Kept, extract-Kept}
use netfilter.NetFilter.{
  Module, Frame, SkBuff, Verdict, nf_accept, debug_ports, debug_addresses, copy_body, ipproto_tcp,
  ipproto_udp, packet_broadcast,
}
use netfilter.NetFilter.Hook.{
  judge_udp, handle_udp, handle_tcp, by_protocol, protocol_label, filter_packet, addresses_match,
  with_pointers, hook_func, min_size,
}
use netfilter.NetFilter.Datagram.{IsSized}
use netfilter.NetFilter.Sizes.{debug_ports-IsSized, debug_addresses-IsSized, copy_body-IsSized}

judge_udp-IsSized :
    (k : Kernel) (fr : Frame) (p : Bytes) (saddr daddr : ℕ) (found : Bool) (m : Module)
    → IsSized m
    → Ensures (λ (v, n). IsSized n) (judge_udp k fr p saddr daddr found m)
judge_udp-IsSized k fr p saddr daddr false m sized =
    λ (v, n) e. let same : m ≡ n = ground arith in subst IsSized same sized
judge_udp-IsSized k fr p saddr daddr true m sized = >>=-Ensures _ (be16_at p 0) _ λ source _.
    >>=-Ensures _ (be16_at p 2) _ λ dest _.
      >>=-Ensures _ (debug_ports k fr (codes "UDP:") saddr source daddr dest m) _ λ m' logged.
        λ (v, n) e.
          let same : m' ≡ n = ground arith in
          subst IsSized same
            (debug_ports-IsSized k fr (codes "UDP:") saddr source daddr dest m sized m' logged)

-- A run of the UDP case that ends leaves buffers of the declared sizes.
handle_udp-IsSized :
    (k : Kernel) (fr : Frame) (p : Bytes) (saddr daddr : ℕ) (m : Module)
    → IsSized m
    → Ensures (λ (v, n). IsSized n) (handle_udp k fr p saddr daddr m)
unfolding handle_udp
handle_udp-IsSized k fr p saddr daddr m sized = >>=-Ensures _ (be16_at p 4) _ λ len _.
    >>=-Ensures _ (advance p 8) _ λ body _.
      >>=-Ensures _ (copy_body m body (sub_ℕ len 8)) _ λ m1 copied.
        >>=-Ensures _
          (extract m1.conf.newcontent m1.xmldest (literal (codes "message")) m1.tcp_udp_body 0 100)
          _
          λ (x, nc) extracted.
            >>=-Ensures _ (strcmp_is_zero x (literal (codes "B"))) _ λ found compared.
              judge_udp-IsSized k fr p saddr daddr found _ (
                put_back m1 x nc (copy_body-IsSized m body (sub_ℕ len 8) sized m1 copied) (
                  extract-Kept m1.conf.newcontent m1.xmldest (literal (codes "message"))
                    m1.tcp_udp_body 0 100 (x, nc) extracted))
  where
    put_back :
        (m1 : Module) (x nc : Bytes)
        → IsSized m1
        → Kept m1.conf.newcontent m1.xmldest (x, nc)
        → IsSized (record m1 { conf = record m1.conf { newcontent = nc }; xmldest = x })
    put_back m1 x nc s k = record {
      newcontent_size = k.1 ∙ s.newcontent_size;
      xmldest_size = k.0 ∙ s.xmldest_size;
      body_size = s.body_size;
      line_size = s.line_size;
    }

handle_tcp-IsSized :
    (k : Kernel) (fr : Frame) (p : Bytes) (len : ℤ) (saddr daddr : ℕ) (m : Module)
    → IsSized m
    → Ensures (λ (v, n). IsSized n) (handle_tcp k fr p len saddr daddr m)
unfolding handle_tcp
handle_tcp-IsSized k fr p len saddr daddr m sized = >>=-Ensures _ (u8_at p 12) _ λ offset _.
    >>=-Ensures _ (advance p (offset / 16 * 4)) _ λ body _.
      >>=-Ensures _ (copy_body m body (sub_length len (offset / 16 * 4))) _ λ m1 copied.
        >>=-Ensures _ (be16_at p 0) _ λ source _. >>=-Ensures _ (be16_at p 2) _ λ dest _.
          >>=-Ensures _ (debug_ports k fr (codes "TCP:") saddr source daddr dest m1) _ λ m2 logged.
            λ (v, n) e.
              let first =
                copy_body-IsSized m body (sub_length len (offset / 16 * 4)) sized m1 copied in
              let same : m2 ≡ n =
                last (lt_length (sub_length len (offset / 16 * 4)) min_size) m2 v n e in
              subst IsSized same
                (debug_ports-IsSized k fr (codes "TCP:") saddr source daddr dest m1 first m2 logged)
  where
    last :
        (short : Bool) (m2 : Module) (v : Verdict) (n : Module)
        → ◌≡◌ {A = Result (Verdict × Module)}
            (ok (if short then (nf_accept, m2) else (nf_accept, m2)))
            (ok (v, n))
        → m2 ≡ n
    last short m2 v n e = ground arith

by_protocol-IsSized :
    (k : Kernel) (fr : Frame) (protocol : ℕ) (p : Bytes) (len : ℤ) (saddr daddr : ℕ) (m : Module)
    → IsSized m
    → Ensures (λ (v, n). IsSized n) (by_protocol k fr protocol p len saddr daddr m)
unfolding by_protocol
by_protocol-IsSized k fr protocol p len saddr daddr m sized =
    elim (Bool-cases (protocol == ipproto_tcp)) [
      | inl tcp ↦ λ r e. handle_tcp-IsSized k fr p len saddr daddr m sized r (rw tcp at e)
      | inr no_tcp ↦ elim (Bool-cases (protocol == ipproto_udp)) [
        | inl udp ↦ λ r e. handle_udp-IsSized k fr p saddr daddr m sized r (rw (no_tcp, udp) at e)
        | inr no_udp ↦ λ r e.
            (>>=-Ensures (λ ((v, n) : Verdict × Module). IsSized n)
                (debug_addresses k fr (protocol_label protocol) saddr daddr m) _
                λ m1 logged. λ (v, n) e1.
                  let same : m1 ≡ n = ground arith in
                  subst IsSized same (
                    debug_addresses-IsSized k fr (protocol_label protocol) saddr daddr m sized m1
                      logged))
              r (rw (no_tcp, no_udp) at e)
      ]
    ]

filter_packet-IsSized :
    (k : Kernel) (fr : Frame) (iph dat : Bytes) (m : Module)
    → IsSized m
    → Ensures (λ (v, n). IsSized n) (filter_packet k fr iph dat m)
unfolding filter_packet
filter_packet-IsSized k fr iph dat m sized = >>=-Ensures _ (u8_at iph 0) _ λ version_ihl _.
    >>=-Ensures _ (be16_at iph 2) _ λ tot_len _. >>=-Ensures _ (le32_at iph 12) _ λ saddr _.
      >>=-Ensures _ (le32_at iph 16) _ λ daddr _.
        >>=-Ensures _ (addresses_match k m.conf saddr daddr) _
          λ ours _. last version_ihl tot_len saddr daddr ours
  where
    last :
        (version_ihl tot_len saddr daddr : ℕ) (ours : Bool)
        → Ensures
            (λ (v, n). IsSized n)
            (if not ours then ok (nf_accept, m) else do
              p ← advance dat (version_ihl % 16 * 4)
              protocol ← u8_at iph 9
              by_protocol k fr protocol p (sub_ℕ tot_len (version_ihl % 16 * 4)) saddr daddr m)
    last version_ihl tot_len saddr daddr false =
        λ (v, n) e. let same : m ≡ n = ground arith in subst IsSized same sized
    last version_ihl tot_len saddr daddr true =
        >>=-Ensures _ (advance dat (version_ihl % 16 * 4)) _ λ p _.
          >>=-Ensures _ (u8_at iph 9) _ λ protocol _.
            by_protocol-IsSized k fr protocol p (sub_ℕ tot_len (version_ihl % 16 * 4)) saddr daddr m
              sized

-- A run of the hook that ends leaves buffers of the declared sizes, whatever the packet is.
pub hook_func-IsSized :
    (k : Kernel) (fr : Frame) (skb : SkBuff) (m : Module)
    → IsSized m
    → Ensures (λ (v, n). IsSized n) (hook_func k fr (some skb) m)
unfolding hook_func
hook_func-IsSized k fr skb m sized = cases skb.network_header skb.mac_header skb.skb_data
  where
    cases :
        (iph eth dat : Option Bytes)
        → Ensures (λ (v, n). IsSized n) (with_pointers k fr skb iph eth dat m)
    cases (some iph) (some eth) (some dat) = elim (Bool-cases (skb.pkt_type == packet_broadcast)) [
      | inl cast ↦ λ (v, n) e. let same : m ≡ n = ground arith in subst IsSized same sized
      | inr direct ↦ λ r e. filter_packet-IsSized k fr iph dat m sized r (rw direct at e)
    ]
    cases (some iph) (some eth) none =
        λ (v, n) e. let same : m ≡ n = ground arith in subst IsSized same sized
    cases (some iph) none dat =
        λ (v, n) e. let same : m ≡ n = ground arith in subst IsSized same sized
    cases none eth dat = λ (v, n) e. let same : m ≡ n = ground arith in subst IsSized same sized
