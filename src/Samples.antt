-- ===== src/Samples.antt =====
-- Concrete values for the tests and the examples: a kernel, a configuration, the module with a client,
-- a packet.
use netfilter.Base.{
  ℕ, zero, suc, ◌+◌, ◌-◌, ◌*◌, ◌/◌, ◌%◌, ◌^◌, ◌≤◌, ◌<◌, ◌≡◌, ◌≢◌, ◌↔◌, ◌⊎◌, refl, sym, ap, ap₂, ◌∙◌,
  subst, Bool, true, false, not, ◌&&◌, ◌||◌, List, [], ◌∷◌, ◌++◌, append_assoc, append-nil, Option,
  none, some, inl, inr, arith, Bytes, codes, length, set, get_or, take, drop, replicate,
  length-append, length-set, length-take, length-drop, length-replicate, drop-append, take-append,
  take-append-drop, set-append, take_all, drop-drop_one, ltb, leb, ◌==◌, if◌then◌else◌, Bool-cases,
  Option-cases, le→leb, lt→leb_false, lt→ltb, le→ltb_false, ==_iff, ==_refl, Result, Result-cases,
  ok, fault, Fault, read_overrun, write_overrun, use_after_free, null_dereference, ◌>>=◌, >>=-eq-ok,
  Ensures, >>=-Ensures,
}
use netfilter.Base.Int.{pos}
use netfilter.Memory.{c_str, equal}
use netfilter.Memory.Text.{holding}
use netfilter.Kernel.{Unicast, Kernel}
use netfilter.DealConf.Extract.{content_max_len}
use netfilter.DealConf.Config.{Config, data_size}
use netfilter.DealConf.Settings.{AreBuffers}
use netfilter.NetLink.{Netlink}
use netfilter.NetFilter.{Module, Frame}
use netfilter.NetFilter.Log.{IsFrame}
use netfilter.NetFilter.Datagram.{IsSized, Datagram, IsDatagram}
use netfilter.NetFilter.Header.{IpHeader, IsIpHeader}
use netfilter.NetFilter.Packet.{Route, on_route}
pub mod Dealing
pub mod Running
pub mod Packets
pub mod Passing
pub mod Limits
pub mod Programs

abbrev pub source_ip : Bytes
source_ip = codes "10.0.0.1"

abbrev pub target_ip : Bytes
target_ip = codes "10.0.0.2"

abbrev pub conf_text : Bytes
conf_text = codes "<direction>=></direction><sourceip>10.0.0.1</sourceip>"

-- Memory is there, and is clear; the two addresses are 10.0.0.1 and 10.0.0.2.
abbrev pub kernel : Kernel
kernel = record {
  alloc_skb = λ h n. true;
  skb_payload = λ h n. replicate n 0;
  netlink_unicast = λ h u. pos 0;
  netlink_kernel_create = true;
  conf_file = some conf_text;
  in_aton = λ s. if equal s source_ip then 16777226 else 33554442;
}

pub kernel-sized : (h : List Unicast) (n : ℕ) → length (kernel.skb_payload h n) ≡ n
kernel-sized h n = length-replicate n 0

abbrev pub clear_setting : Bytes
clear_setting = replicate content_max_len 0

abbrev pub conf : Config
conf = record {
  newcontent = clear_setting;
  direction = clear_setting;
  content_flag = clear_setting;
  content = clear_setting;
  sourceip = holding source_ip (replicate 91 0);
  targetip = holding target_ip (replicate 91 0);
  action = clear_setting;
  titlecontent = clear_setting;
  isapi = clear_setting;
  file_data = replicate data_size 0;
}

pub clear-length : length clear_setting ≡ content_max_len
clear-length = length-replicate content_max_len 0

-- The configuration before the module is loaded.
abbrev pub clear_conf : Config
clear_conf = record conf { sourceip = clear_setting; targetip = clear_setting }

pub clear_conf-AreBuffers : AreBuffers clear_conf
clear_conf-AreBuffers = record {
  newcontent_size = clear-length;
  direction_size = clear-length;
  content_flag_size = clear-length;
  content_size = clear-length;
  sourceip_size = clear-length;
  targetip_size = clear-length;
  action_size = clear-length;
  titlecontent_size = clear-length;
  isapi_size = clear-length;
}

-- A channel with a client, and the choice to drop.
abbrev pub net : Netlink
net = record { nl_sk = true; live = true; pid = 7; operatorflag = 2; sent = []; skbs = 0 }

abbrev pub shut : Bytes
shut = replicate 100000 0

pub shut-length : length shut ≡ 100000
shut-length = length-replicate 100000 0

abbrev pub loaded : Module
loaded = record {
  conf = conf;
  net = net;
  registered = true;
  mymessagebuf = shut;
  tcp_udp_body = shut;
  xmldest = shut;
}

-- The same with the choice to pass.
abbrev pub passing : Module
passing = record loaded { net = record net { operatorflag = 1 } }

pub loaded-IsSized : IsSized loaded
loaded-IsSized = record {
  newcontent_size = clear-length;
  xmldest_size = shut-length;
  body_size = shut-length;
  line_size = shut-length;
}

pub loaded-Route : Route loaded source_ip target_ip
unfolding c_str
loaded-Route = record { source_read = refl; target_read = refl }

abbrev pub frame : Frame
frame = record { sip = replicate 100 0; dip = replicate 100 0; str = replicate 10 0 }

pub frame-IsFrame : IsFrame frame
frame-IsFrame = record {
  sip_size = omega (arith, length-replicate {A = ℕ} 100 0);
  dip_size = omega (arith, length-replicate {A = ℕ} 100 0);
  str_size = omega (arith, length-replicate {A = ℕ} 10 0);
}

-- A packet of that protocol from 10.0.0.1 to 10.0.0.2.
abbrev pub header : ℕ → IpHeader
header protocol = record {
  ihl = 5;
  tos = 0;
  tot_len = 48;
  id = 1;
  frag_off = 0;
  ttl = 64;
  protocol = protocol;
  check = 0;
  saddr = 16777226;
  daddr = 33554442;
  options = [];
}

pub header-IsIpHeader : (protocol : ℕ) → IsIpHeader (header protocol)
header-IsIpHeader protocol = record {
  ihl_fits = omega arith;
  options_fit = refl;
  saddr_fits = omega arith;
  daddr_fits = omega arith;
}

pub ours : (protocol : ℕ) → on_route kernel source_ip target_ip (header protocol) ≡ true
unfolding equal
ours protocol = refl

abbrev pub datagram : Datagram
datagram = record {
  source = 4000;
  dest = 5000;
  checksum = 0;
  payload = codes "<message>B</message>";
  trailer = [];
}

pub datagram-IsDatagram : IsDatagram datagram
datagram-IsDatagram = record {
  source_fits = omega arith;
  dest_fits = omega arith;
  length_fits = omega arith;
}
