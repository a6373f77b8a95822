-- ===== src/NetFilter/Frames.antt =====
-- src/netFilter.c: what a run of the hook leaves alone, whatever the packet.
use netfilter.Base.{ℕ, ◌≡◌, refl, ◌++◌, arith, Bytes, codes, ok, >>=-eq-ok}
use netfilter.Memory.{c_str, write_text, strncpy}
use netfilter.Base.Int.{ℤ, size_t}
use netfilter.Kernel.{Kernel}
use netfilter.NetLink.{send_msg_netlink}
use netfilter.NetLink.Deliver.{SameControl, SameControl-refl, send-SameControl}
use netfilter.NetFilter.{
  Module, Frame, debug, debug_addresses, debug_ports, copy_body, put_int, address_text,
}

-- The client, the operator'"'"'s choice, the registration and the settings are as before.
pub record SameSettings (m n : Module) : Type 0 where
  pub same_control : SameControl m.net n.net
  pub same_registered : n.registered ≡ m.registered
  pub same_sourceip : n.conf.sourceip ≡ m.conf.sourceip
  pub same_targetip : n.conf.targetip ≡ m.conf.targetip
  pub same_direction : n.conf.direction ≡ m.conf.direction

pub SameSettings-refl : (m : Module) → SameSettings m m
SameSettings-refl m = record {
  same_control = SameControl-refl m.net;
  same_registered = refl;
  same_sourceip = refl;
  same_targetip = refl;
  same_direction = refl;
}

pub SameSettings-trans : {l m n : Module} → SameSettings l m → SameSettings m n → SameSettings l n
SameSettings-trans a b = ground arith

-- A log line changes the line buffer and the channel alone.
pub record OnlyLogs (m n : Module) : Type 0 where
  pub same_conf : n.conf ≡ m.conf
  pub same_body : n.tcp_udp_body ≡ m.tcp_udp_body
  pub same_dest : n.xmldest ≡ m.xmldest
  pub settings : SameSettings m n

pub debug-OnlyLogs :
    (k : Kernel) (text : Bytes) (m : Module) {n : Module} → debug k text m ≡ ok n → OnlyLogs m n
unfolding debug
debug-OnlyLogs k text m e =
    let (buf, _, e1) = >>=-eq-ok (write_text m.mymessagebuf (codes "DEBUG:" ++ text)) _ e in
    let ((r, net), sent, e2) = >>=-eq-ok (send_msg_netlink k buf m.net) _ e1 in
    let same = send-SameControl k buf m.net sent in ground arith

pub debug_addresses-OnlyLogs :
    (k : Kernel) (fr : Frame) (name : Bytes) (saddr daddr : ℕ) (m : Module) {n : Module}
    → debug_addresses k fr name saddr daddr m ≡ ok n
    → OnlyLogs m n
unfolding debug_addresses
debug_addresses-OnlyLogs k fr name saddr daddr m e =
    let (s, _, e1) = >>=-eq-ok (address_text fr.sip fr.str saddr) _ e in
    let (d, _, e2) = >>=-eq-ok (address_text fr.dip fr.str daddr) _ e1 in debug-OnlyLogs k _ m e2

pub debug_ports-OnlyLogs :
    (k : Kernel) (fr : Frame) (name : Bytes) (saddr source daddr dest : ℕ) (m : Module) {n : Module}
    → debug_ports k fr name saddr source daddr dest m ≡ ok n
    → OnlyLogs m n
unfolding debug_ports
debug_ports-OnlyLogs k fr name saddr source daddr dest m e =
    let (s, _, e1) = >>=-eq-ok (address_text fr.sip fr.str saddr) _ e in
    let (d, _, e2) = >>=-eq-ok (address_text fr.dip fr.str daddr) _ e1 in
    let (b, _, e3) = >>=-eq-ok (c_str m.tcp_udp_body) _ e2 in debug-OnlyLogs k _ m e3

pub copy_body-SameSettings :
    (m : Module) (p : Bytes) (len : ℤ) {n : Module} → copy_body m p len ≡ ok n → SameSettings m n
unfolding copy_body
copy_body-SameSettings m p len e =
    let (copied, _, e1) = >>=-eq-ok (strncpy m.tcp_udp_body p (size_t len)) _ e in
    let (body, _, e2) = >>=-eq-ok (put_int copied len 0) _ e1 in ground arith
