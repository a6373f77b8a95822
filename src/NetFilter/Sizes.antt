-- ===== src/NetFilter/Sizes.antt =====
-- src/netFilter.c: the writes of the hook into its buffers keep their sizes.
use netfilter.Base.{ℕ, ◌≡◌, ap, ◌∙◌, ◌++◌, arith, Bytes, codes, length, Ensures, >>=-Ensures}
use netfilter.Base.Int.{ℤ, pos, negsuc, size_t}
use netfilter.Memory.{write_text, strncpy, c_str}
use netfilter.Memory.Copy.{length-strncpy, length-put, length-write}
use netfilter.Kernel.{Kernel}
use netfilter.DealConf.Config.{Config}
use netfilter.NetLink.{send_msg_netlink}
use netfilter.NetFilter.{
  Module, Frame, debug, debug_ports, debug_addresses, address_text, put_int, copy_body,
}
use netfilter.NetFilter.Frames.{OnlyLogs, debug_ports-OnlyLogs, debug_addresses-OnlyLogs}
use netfilter.NetFilter.Datagram.{IsSized}

debug-line :
    (k : Kernel) (text : Bytes) (m : Module)
    → Ensures (λ n. length n.mymessagebuf ≡ length m.mymessagebuf) (debug k text m)
unfolding debug
debug-line k text m = >>=-Ensures _ (write_text m.mymessagebuf (codes "DEBUG:" ++ text)) _ λ buf w.
    >>=-Ensures _ (send_msg_netlink k buf m.net) _
      λ (r, net) _. λ n e. ground (arith, length-write m.mymessagebuf _ buf w)

only_logged :
    (m n : Module)
    → IsSized m
    → OnlyLogs m n
    → length n.mymessagebuf ≡ length m.mymessagebuf
    → IsSized n
only_logged m n sized same line = record {
  newcontent_size = ap (λ (c : Config). length c.newcontent) same.same_conf ∙ sized.newcontent_size;
  xmldest_size = ap length same.same_dest ∙ sized.xmldest_size;
  body_size = ap length same.same_body ∙ sized.body_size;
  line_size = line ∙ sized.line_size;
}

pub debug_ports-IsSized :
    (k : Kernel) (fr : Frame) (name : Bytes) (saddr source daddr dest : ℕ) (m : Module)
    → IsSized m
    → Ensures IsSized (debug_ports k fr name saddr source daddr dest m)
debug_ports-IsSized k fr name saddr source daddr dest m sized n e =
    only_logged m n sized (debug_ports-OnlyLogs k fr name saddr source daddr dest m e)
      (debug_ports-line n e)
  where
    debug_ports-line :
        Ensures
          (λ n. length n.mymessagebuf ≡ length m.mymessagebuf)
          (debug_ports k fr name saddr source daddr dest m)
    debug_ports-line =
        unfold debug_ports in
        >>=-Ensures _ (address_text fr.sip fr.str saddr) _ λ s _.
          >>=-Ensures _ (address_text fr.dip fr.str daddr) _
            λ d _. >>=-Ensures _ (c_str m.tcp_udp_body) _ λ b _. debug-line k _ m

pub debug_addresses-IsSized :
    (k : Kernel) (fr : Frame) (name : Bytes) (saddr daddr : ℕ) (m : Module)
    → IsSized m
    → Ensures IsSized (debug_addresses k fr name saddr daddr m)
debug_addresses-IsSized k fr name saddr daddr m sized n e =
    only_logged m n sized (debug_addresses-OnlyLogs k fr name saddr daddr m e)
      (debug_addresses-line n e)
  where
    debug_addresses-line :
        Ensures
          (λ n. length n.mymessagebuf ≡ length m.mymessagebuf)
          (debug_addresses k fr name saddr daddr m)
    debug_addresses-line =
        unfold debug_addresses in
        >>=-Ensures _ (address_text fr.sip fr.str saddr) _
          λ s _. >>=-Ensures _ (address_text fr.dip fr.str daddr) _ λ d _. debug-line k _ m

pub copy_body-IsSized :
    (m : Module) (p : Bytes) (len : ℤ) → IsSized m → Ensures IsSized (copy_body m p len)
unfolding copy_body
copy_body-IsSized m p len sized =
    >>=-Ensures _ (strncpy m.tcp_udp_body p (size_t len)) _ λ copied c.
      >>=-Ensures _ (put_int copied len 0) _ λ body b. λ n e.
        let kept = length-strncpy m.tcp_udp_body p (size_t len) c in
        let kept2 = length-put_int copied len body b in
        record {
          newcontent_size = ground (arith, sized.newcontent_size);
          xmldest_size = ground (arith, sized.xmldest_size);
          body_size = ground (arith, sized.body_size);
          line_size = ground (arith, sized.line_size);
        }
  where
    length-put_int : (p : Bytes) (i : ℤ) → Ensures (λ q. length q ≡ length p) (put_int p i 0)
    length-put_int p (pos i) = length-put p i 0
    length-put_int p (negsuc i) = λ q e. cc
