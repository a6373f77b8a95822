-- ===== src/NetFilter.antt =====
-- src/netFilter.c: the hook. `Module` is the state of the whole kernel module.
pub mod Hook
pub mod Frames
pub mod Drop
pub mod Reasons
pub mod Log
pub mod Datagram
pub mod Udp
pub mod Header
pub mod Labels
pub mod Packet
pub mod Tcp
pub mod Sizes
pub mod SizedHook
use netfilter.Base.{
  ℕ, zero, suc, ◌+◌, ◌-◌, ◌*◌, ◌/◌, ◌%◌, ◌^◌, ◌≤◌, ◌<◌, ◌≡◌, ◌≢◌, ◌↔◌, ◌⊎◌, refl, sym, ap, ap₂, ◌∙◌,
  subst, Bool, true, false, not, ◌&&◌, ◌||◌, List, [], ◌∷◌, ◌++◌, append_assoc, append-nil, Option,
  none, some, inl, inr, arith, Bytes, codes, length, set, get_or, take, drop, replicate,
  length-append, length-set, length-take, length-drop, length-replicate, drop-append, take-append,
  take-append-drop, set-append, take_all, drop-drop_one, ltb, leb, ◌==◌, if◌then◌else◌, Bool-cases,
  Option-cases, le→leb, lt→leb_false, lt→ltb, le→ltb_false, ==_iff, ==_refl, Result, Result-cases,
  ok, fault, Fault, read_overrun, write_overrun, use_after_free, null_dereference, ◌>>=◌, >>=-eq-ok,
}
use netfilter.Memory.{
  c_str, strlen, advance, starts_with, equal, strcmp_is_zero, search, strstr, write, write_text,
  put, padded, strncpy, strcat,
}
use netfilter.Base.Int.{ℤ, pos, negsuc, sub_ℕ, sub_length, lt_length, size_t}
use netfilter.Base.Decimal.{decimal}
use netfilter.Kernel.{Kernel, u8_at, be16_at, le32_at}
use netfilter.DealConf.Extract.{literal, extract}
use netfilter.DealConf.Config.{Config}
use netfilter.DealConf.Address.{in_ntoa}
use netfilter.NetLink.{Netlink, send_msg_netlink}

pub record Module : Type 0 where
  pub conf : Config
  pub net : Netlink
  -- whether `nfho_single` is registered with netfilter
  pub registered : Bool
  -- the static buffers of netFilter.c
  pub mymessagebuf : Bytes
  pub tcp_udp_body : Bytes
  pub xmldest : Bytes

-- What the hook reads of a `struct sk_buff`: pointers that may be null.
pub record SkBuff : Type 0 where
  pub pkt_type : ℕ
  pub network_header : Option Bytes
  pub mac_header : Option Bytes
  pub skb_data : Option Bytes

-- The local arrays of the hook and of `in_ntoa`, which nothing initialises.
pub record Frame : Type 0 where
  pub sip : Bytes
  pub dip : Bytes
  pub str : Bytes

pub data Verdict : Type 0 where
  nf_accept nf_drop : Verdict

abbrev pub packet_broadcast : ℕ
packet_broadcast = 1

-- The protocol numbers of linux/in.h.
abbrev pub ipproto_ip : ℕ
ipproto_ip = 0

abbrev pub ipproto_icmp : ℕ
ipproto_icmp = 1

abbrev pub ipproto_igmp : ℕ
ipproto_igmp = 2

abbrev pub ipproto_tcp : ℕ
ipproto_tcp = 6

abbrev pub ipproto_pup : ℕ
ipproto_pup = 12

abbrev pub ipproto_udp : ℕ
ipproto_udp = 17

abbrev pub ipproto_idp : ℕ
ipproto_idp = 22

abbrev pub ipproto_gre : ℕ
ipproto_gre = 47

abbrev pub ipproto_esp : ℕ
ipproto_esp = 50

abbrev pub ipproto_ah : ℕ
ipproto_ah = 51

abbrev pub ipproto_raw : ℕ
ipproto_raw = 255

-- The value of `strcmp(direction, s) == 0`.
abbrev pub direction_is : Config → Bytes → Result Bool
direction_is c s = strcmp_is_zero c.direction (literal s)

-- Only the one-way setting registers the hook.
unfoldable pub init_net_filter : Module → Result Module
init_net_filter m = do
  one_way ← direction_is m.conf (codes "=>")
  if one_way
      then ok (record m { registered = true })
      else do two_way ← direction_is m.conf (codes "<=>"); ok m

unfoldable pub release_net_filter : Module → Result Module
release_net_filter m = do
  one_way ← direction_is m.conf (codes "=>")
  if one_way
      then ok (record m { registered = false })
      else do two_way ← direction_is m.conf (codes "<=>"); ok m

-- The macro `DEBUG` of this file: `sprintf` into the buffer, and the message to the client.
unfoldable pub debug : Kernel → Bytes → Module → Result Module
debug k text m = do
  buf ← write_text m.mymessagebuf (codes "DEBUG:" ++ text)
  (ret, net) ← send_msg_netlink k buf m.net
  ok (record m { mymessagebuf = buf; net = net })

-- `in_ntoa(sip, addr)` under `%s`.
abbrev pub address_text : Bytes → Bytes → ℕ → Result Bytes
address_text sip str addr = do text ← in_ntoa sip str addr; c_str text

-- `DEBUG("<name>:%s ---> %s", …)`
unfoldable pub debug_addresses : Kernel → Frame → Bytes → ℕ → ℕ → Module → Result Module
debug_addresses k fr name saddr daddr m = do
  s ← address_text fr.sip fr.str saddr
  d ← address_text fr.dip fr.str daddr
  debug k (name ++ (s ++ (codes " ---> " ++ d))) m

-- `DEBUG("<name>:%s:%d ---> %s:%d::%s", …)`
unfoldable pub debug_ports : Kernel → Frame → Bytes → ℕ → ℕ → ℕ → ℕ → Module → Result Module
debug_ports k fr name saddr source daddr dest m = do
  s ← address_text fr.sip fr.str saddr
  d ← address_text fr.dip fr.str daddr
  body ← c_str m.tcp_udp_body
  debug k
      (name
        ++ (s
            ++ (codes ":"
                ++ (decimal source
                    ++ (codes " ---> "
                        ++ (d ++ (codes ":" ++ (decimal dest ++ (codes "::" ++ body)))))))))
      m

-- `buf[i] = v` for an `int`.
abbrev pub put_int : Bytes → ℤ → ℕ → Result Bytes
put_int buf (pos i) v = put buf i v
put_int buf (negsuc i) v = fault write_overrun

-- `strncpy(tcp_udp_body, data, len); tcp_udp_body[len] = '\0';`
unfoldable pub copy_body : Module → Bytes → ℤ → Result Module
copy_body m p len = do
  copied ← strncpy m.tcp_udp_body p (size_t len)
  body ← put_int copied len 0
  ok (record m { tcp_udp_body = body })
