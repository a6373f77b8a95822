-- ===== src/NetFilter/Drop.antt =====
-- src/netFilter.c: the one way to `NF_DROP`, and what every run of the hook leaves alone.
use netfilter.Base.{
  ℕ, ◌*◌, ◌/◌, ◌≡◌, Bool, true, false, [], inl, inr, arith, Bytes, codes, ◌==◌, if◌then◌else◌,
  Bool-cases, ==_iff, Result, ok, Ensures, >>=-Ensures,
}
use netfilter.Memory.{c_str, advance, strcmp_is_zero}
use netfilter.Memory.Text.{strcmp_is_zero-true}
use netfilter.Base.Int.{ℤ, sub_ℕ, sub_length, lt_length}
use netfilter.Kernel.{Kernel, u8_at, be16_at}
use netfilter.DealConf.Extract.{literal, extract}
use netfilter.NetFilter.{
  Module, Frame, Verdict, nf_accept, nf_drop, ipproto_tcp, ipproto_udp, debug_addresses,
  debug_ports, copy_body,
}
use netfilter.NetFilter.Hook.{
  min_size, handle_tcp, judge_udp, handle_udp, accept_after, protocol_label, by_protocol,
}
use netfilter.NetFilter.Frames.{
  SameSettings, OnlyLogs, debug_addresses-OnlyLogs, debug_ports-OnlyLogs, copy_body-SameSettings,
}

-- A run from `m` to `n` that dropped was told to, and saw the message "B".
pub record SawB (m n : Module) : Type 0 where
  pub told_to_drop : m.net.operatorflag ≡ 2
  pub message_is_b : c_str n.xmldest ≡ ok (codes "B")

-- What a run came to: a drop has the reason `P`.
abbrev pub Judged : (Module → Type 0) → Module → Verdict × Module → Type 0
Judged P m (v, n) = SameSettings m n × (v ≡ nf_drop → P n)

abbrev UdpReason : Bool → Module → Module → Type 0
UdpReason found m n = (found ≡ true) × (m.net.operatorflag ≡ 2) × (n.xmldest ≡ m.xmldest)

judge_udp-Judged :
    (k : Kernel) (fr : Frame) (p : Bytes) (saddr daddr : ℕ) (found : Bool) (m : Module)
    → Ensures (Judged (UdpReason found m) m) (judge_udp k fr p saddr daddr found m)
judge_udp-Judged k fr p saddr daddr false m = λ (v, n) e. (ground arith, λ d. ground arith)
judge_udp-Judged k fr p saddr daddr true m = >>=-Ensures _ (be16_at p 0) _ λ source _.
    >>=-Ensures _ (be16_at p 2) _ λ dest _.
      >>=-Ensures _ (debug_ports k fr (codes "UDP:") saddr source daddr dest m) _ λ m' logged.
        last m' (debug_ports-OnlyLogs k fr (codes "UDP:") saddr source daddr dest m logged)
  where
    last :
        (m' : Module)
        → OnlyLogs m m'
        → Ensures
            (Judged (UdpReason true m) m)
            (if m'.net.operatorflag == 2 then ok (nf_drop, m') else ok (nf_accept, m'))
    last m' same (v, n) e = (ground arith, λ d. ground arith)

handle_udp-Judged :
    (k : Kernel) (fr : Frame) (p : Bytes) (saddr daddr : ℕ) (m : Module)
    → Ensures (Judged (SawB m) m) (handle_udp k fr p saddr daddr m)
unfolding handle_udp
handle_udp-Judged k fr p saddr daddr m = >>=-Ensures _ (be16_at p 4) _ λ len _.
    >>=-Ensures _ (advance p 8) _ λ body _.
      >>=-Ensures _ (copy_body m body (sub_ℕ len 8)) _ λ m1 copied.
        >>=-Ensures _
          (extract m1.conf.newcontent m1.xmldest (literal (codes "message")) m1.tcp_udp_body 0 100)
          _
          λ (x, nc) _. >>=-Ensures _ (strcmp_is_zero x (literal (codes "B"))) _ λ found compared.
            last m1 x nc found (copy_body-SameSettings m body (sub_ℕ len 8) copied) compared
  where
    last :
        (m1 : Module) (x nc : Bytes) (found : Bool)
        → SameSettings m m1
        → strcmp_is_zero x (literal (codes "B")) ≡ ok found
        → Ensures (Judged (SawB m) m) (
            judge_udp k fr p saddr daddr found
              (record m1 { conf = record m1.conf { newcontent = nc }; xmldest = x }))
    last m1 x nc found first compared (v, n) e =
        let m2 = record m1 { conf = record m1.conf { newcontent = nc }; xmldest = x } in
        let (rest, why) = judge_udp-Judged k fr p saddr daddr found m2 (v, n) e in
        (ground arith, λ d. saw (why d))
      where
        saw :
            UdpReason found (record m1 { conf = record m1.conf { newcontent = nc }; xmldest = x }) n
            → SawB m n
        saw (yes_b, flag, same_dest) = record {
          told_to_drop = ground arith;
          message_is_b =
              rw same_dest
                (strcmp_is_zero-true x (codes "B") [] (omega arith) (rw yes_b at compared));
        }

handle_tcp-Judged :
    (k : Kernel) (fr : Frame) (p : Bytes) (len : ℤ) (saddr daddr : ℕ) (m : Module)
    → Ensures (Judged (λ _. ⊥) m) (handle_tcp k fr p len saddr daddr m)
unfolding handle_tcp
handle_tcp-Judged k fr p len saddr daddr m = >>=-Ensures _ (u8_at p 12) _ λ offset _.
    >>=-Ensures _ (advance p (offset / 16 * 4)) _ λ body _.
      >>=-Ensures _ (copy_body m body (sub_length len (offset / 16 * 4))) _ λ m1 copied.
        >>=-Ensures _ (be16_at p 0) _ λ source _. >>=-Ensures _ (be16_at p 2) _ λ dest _.
          >>=-Ensures _ (debug_ports k fr (codes "TCP:") saddr source daddr dest m1) _ λ m2 logged.
            last (lt_length (sub_length len (offset / 16 * 4)) min_size) m1 m2
              (copy_body-SameSettings m body (sub_length len (offset / 16 * 4)) copied)
              (debug_ports-OnlyLogs k fr (codes "TCP:") saddr source daddr dest m1 logged)
  where
    last :
        (short : Bool) (m1 m2 : Module)
        → SameSettings m m1
        → OnlyLogs m1 m2
        → Ensures (Judged (λ _. ⊥) m) (ok (if short then (nf_accept, m2) else (nf_accept, m2)))
    last short m1 m2 first rest (v, n) e = (ground arith, λ d. ground arith)

logged-Judged :
    (k : Kernel) (fr : Frame) (name : Bytes) (saddr daddr : ℕ) (m : Module)
    → Ensures (Judged (λ _. ⊥) m) (accept_after (debug_addresses k fr name saddr daddr m))
logged-Judged k fr name saddr daddr m =
    >>=-Ensures _ (debug_addresses k fr name saddr daddr m) _
      λ m' logged. last m' (debug_addresses-OnlyLogs k fr name saddr daddr m logged)
  where
    last : (m' : Module) → OnlyLogs m m' → Ensures (Judged (λ _. ⊥) m) (ok (nf_accept, m'))
    last m' same (v, n) e = (ground arith, λ d. ground arith)

abbrev pub ProtocolReason : ℕ → Module → Module → Type 0
ProtocolReason protocol m n = (protocol ≡ ipproto_udp) × SawB m n

pub never :
    (P : Module → Type 0) (m : Module) (r : Result (Verdict × Module))
    → Ensures (Judged (λ _. ⊥) m) r
    → Ensures (Judged P m) r
never P m r h (v, n) e = let (same, why) = h (v, n) e in (same, λ d. absurd (why d))

pub by_protocol-Judged :
    (k : Kernel) (fr : Frame) (protocol : ℕ) (p : Bytes) (len : ℤ) (saddr daddr : ℕ) (m : Module)
    → Ensures (Judged (ProtocolReason protocol m) m) (by_protocol k fr protocol p len saddr daddr m)
unfolding by_protocol
by_protocol-Judged k fr protocol p len saddr daddr m = elim (Bool-cases (protocol == ipproto_tcp)) [
  | inl tcp ↦ rw tcp (never _ m _ (handle_tcp-Judged k fr p len saddr daddr m))
  | inr other ↦ rw other (elim (Bool-cases (protocol == ipproto_udp)) [
    | inl udp ↦ rw udp λ vn e.
        let (same, why) = handle_udp-Judged k fr p saddr daddr m vn e in
        (same, λ d. ((==_iff protocol ipproto_udp).0 udp, why d))
    | inr rest ↦ rw rest (never _ m _ (logged-Judged k fr (protocol_label protocol) saddr daddr m))
  ])
]
