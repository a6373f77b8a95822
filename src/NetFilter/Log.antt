-- ===== src/NetFilter/Log.antt =====
-- src/netFilter.c: the log lines of the hook, and that the client is told of them.
use netfilter.Base.{
  ℕ, suc, ◌+◌, ◌≤◌, ◌<◌, ◌≡◌, true, List, ◌++◌, arith, Bytes, codes, length, drop, length-append,
  ok,
}
use netfilter.Memory.{c_str}
use netfilter.Memory.Text.{IsText, IsText-append, holding, c_str-holding, write_text-holding}
use netfilter.Base.Decimal.{decimal}
use netfilter.Kernel.{Unicast, Kernel}
use netfilter.NetFilter.{Module, Frame, debug, debug_addresses, debug_ports, address_text}
use netfilter.Base.Decimal.{length-decimal_port}
use netfilter.DealConf.Address.Quad.{quoted_quad, quoted_quad-IsText, in_ntoa_lem, decimal-IsText'}
use netfilter.NetLink.Deliver.{told, send-told}

-- The arrays are as large as their declarations say, or larger.
pub record IsFrame (fr : Frame) : Type 0 where
  pub sip_size : 18 ≤ length fr.sip
  pub dip_size : 18 ≤ length fr.dip
  pub str_size : 4 ≤ length fr.str

-- A log line as the client gets it.
abbrev pub line : Bytes → Bytes
line text = codes "DEBUG:" ++ text

-- The state behind a log line.
abbrev pub logged : Kernel → Bytes → Module → Module
logged k text m = record m {
  mymessagebuf = holding (line text) (drop (suc (length (line text))) m.mymessagebuf);
  net = told k m.net (line text);
}

abbrev pub ports_text : Bytes → ℕ → ℕ → ℕ → ℕ → Bytes → Bytes
ports_text name saddr source daddr dest body =
    name
    ++ (quoted_quad saddr
        ++ (codes ":"
            ++ (decimal source
                ++ (codes " ---> "
                    ++ (quoted_quad daddr
                        ++ (codes ":" ++ (decimal dest ++ (codes "::" ++ body))))))))

ports_text-IsText :
    (name : Bytes) (saddr source daddr dest : ℕ) (body : Bytes)
    → IsText name
    → IsText body
    → IsText (ports_text name saddr source daddr dest body)
ports_text-IsText name saddr source daddr dest body tn tb = IsText-append name _ tn (
    IsText-append (quoted_quad saddr) _ (quoted_quad-IsText saddr).0 (
      omega arith,
      IsText-append (decimal source) _ (decimal-IsText' source) (
          IsText-append (codes " ---> ") _ (omega arith) (
            IsText-append (quoted_quad daddr) _ (quoted_quad-IsText daddr).0 (
              omega arith,
              IsText-append (decimal dest) _ (decimal-IsText' dest)
                  (omega arith, (omega arith, tb)),
            ))),
    ))

length-ports_text :
    (name : Bytes) (saddr source daddr dest : ℕ) (body : Bytes)
    → source < 65536
    → dest < 65536
    → length (ports_text name saddr source daddr dest body) ≤ length name + length body + 54
length-ports_text name saddr source daddr dest body hs hd =
    let t4 = codes "::" ++ body in
    let t3 = codes ":" ++ (decimal dest ++ t4) in
    let t2 = codes " ---> " ++ (quoted_quad daddr ++ t3) in
    let t1 = codes ":" ++ (decimal source ++ t2) in
    omega (
      arith,
      length-append name (quoted_quad saddr ++ t1),
      length-append (quoted_quad saddr) t1,
      length-append (decimal source) t2,
      length-append (quoted_quad daddr) t3,
      length-append (decimal dest) t4,
      (quoted_quad-IsText saddr).1,
      (quoted_quad-IsText daddr).1,
      length-decimal_port source hs,
      length-decimal_port dest hd,
    )

pub address_text_lem :
    (sip str : Bytes) (addr : ℕ)
    → 18 ≤ length sip
    → 4 ≤ length str
    → address_text sip str addr ≡ ok (quoted_quad addr)
address_text_lem sip str addr l k =
    let (rest, run) = in_ntoa_lem sip str addr l k in
    rw (run, c_str-holding (quoted_quad addr) rest (quoted_quad-IsText addr).0)

module _ (k : Kernel) (fr : Frame) (m : Module)
    (data_size : (h : List Unicast) (n : ℕ) → length (k.skb_payload h n) ≡ n)
    (alive : m.net.nl_sk ≡ true → m.net.live ≡ true) (frame : IsFrame fr) where
  pub debug-logged :
      (text : Bytes)
      → IsText text
      → length text + 6 < length m.mymessagebuf
      → debug k text m ≡ ok (logged k text m)
  unfolding debug
  debug-logged text t fits =
      let whole : IsText (line text) = (
        omega arith,
        (omega arith, (omega arith, (omega arith, (omega arith, (omega arith, t))))),
      ) in
      let (ret, sent) =
        send-told k m.net (line text) (drop (suc (length (line text))) m.mymessagebuf) data_size
          alive whole in
      rw (write_text-holding m.mymessagebuf (line text) (omega arith), sent)

  pub debug_ports-logged :
      (name : Bytes) (saddr source daddr dest : ℕ) (body : Bytes)
      → IsText name
      → IsText body
      → source < 65536
      → dest < 65536
      → c_str m.tcp_udp_body ≡ ok body
      → length name + length body + 60 < length m.mymessagebuf
      → debug_ports k fr name saddr source daddr dest m
        ≡ ok (logged k (ports_text name saddr source daddr dest body) m)
  unfolding debug_ports
  debug_ports-logged name saddr source daddr dest body tn tb hs hd read fits =
      rw
        (
          address_text_lem fr.sip fr.str saddr frame.sip_size frame.str_size,
          address_text_lem fr.dip fr.str daddr frame.dip_size frame.str_size,
          read,
        )
        (debug-logged (ports_text name saddr source daddr dest body)
          (ports_text-IsText name saddr source daddr dest body tn tb)
          (omega (arith, length-ports_text name saddr source daddr dest body hs hd)))

  pub debug_addresses-logged :
      (name : Bytes) (saddr daddr : ℕ)
      → IsText name
      → length name + 60 < length m.mymessagebuf
      → debug_addresses k fr name saddr daddr m
        ≡ ok (logged k (name ++ (quoted_quad saddr ++ (codes " ---> " ++ quoted_quad daddr))) m)
  unfolding debug_addresses
  debug_addresses-logged name saddr daddr tn fits =
      let (t1, l1) = quoted_quad-IsText saddr in
      let (t2, l2) = quoted_quad-IsText daddr in
      let tail = codes " ---> " ++ quoted_quad daddr in
      rw
        (
          address_text_lem fr.sip fr.str saddr frame.sip_size frame.str_size,
          address_text_lem fr.dip fr.str daddr frame.dip_size frame.str_size,
        )
        (debug-logged (name ++ (quoted_quad saddr ++ tail))
          (IsText-append name _ tn (
            IsText-append (quoted_quad saddr) _ t1
              (IsText-append (codes " ---> ") _ (omega arith) t2)))
          (omega (
            arith,
            length-append name (quoted_quad saddr ++ tail),
            length-append (quoted_quad saddr) tail,
          )))
