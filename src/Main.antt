-- ===== src/Main.antt =====
-- src/main.c: loading and unloading the module.
pub mod Lifecycle
pub mod Unload
use netfilter.Base.{
  ℕ, zero, suc, ◌+◌, ◌-◌, ◌*◌, ◌/◌, ◌%◌, ◌^◌, ◌≤◌, ◌<◌, ◌≡◌, ◌≢◌, ◌↔◌, ◌⊎◌, refl, sym, ap, ap₂, ◌∙◌,
  subst, Bool, true, false, not, ◌&&◌, ◌||◌, List, [], ◌∷◌, ◌++◌, append_assoc, append-nil, Option,
  none, some, inl, inr, arith, Bytes, codes, length, set, get_or, take, drop, replicate,
  length-append, length-set, length-take, length-drop, length-replicate, drop-append, take-append,
  take-append-drop, set-append, take_all, drop-drop_one, ltb, leb, ◌==◌, if◌then◌else◌, Bool-cases,
  Option-cases, le→leb, lt→leb_false, lt→ltb, le→ltb_false, ==_iff, ==_refl, Result, Result-cases,
  ok, fault, Fault, read_overrun, write_overrun, use_after_free, null_dereference, ◌>>=◌, >>=-eq-ok,
}
use netfilter.Base.Int.{ℤ, pos, negsuc}
use netfilter.Kernel.{Kernel}
use netfilter.Memory.{c_str}
use netfilter.DealConf.Config.{read_conf, parse_conf}
use netfilter.NetLink.{create_netlink, delete_netlink}
use netfilter.NetFilter.{Module, init_net_filter, release_net_filter}

-- Behind `readConf`: the pointer that it returned.
abbrev pub with_conf : Option Bytes → Module → Result (ℤ × Module)
with_conf none m = ok (pos 1, m)
with_conf (some dat) m = do
  shown ← c_str dat
  conf ← parse_conf m.conf dat
  m' ← init_net_filter (record m { conf = conf })
  ok (pos 0, m')

-- The return value of `createNetlink` is not looked at.
unfoldable pub init : Kernel → Module → Result (ℤ × Module)
init k m =
    let (ret, net) = create_netlink k m.net in
    let (dat, conf) = read_conf k m.conf in with_conf dat (record m { net = net; conf = conf })

unfoldable pub fini : Module → Result Module
fini m = release_net_filter (record m { net = delete_netlink m.net })
