-- ===== src/Main/Lifecycle.antt =====
-- src/main.c and src/netFilter.c: what loading the module sets up, and what unloading it takes down.
use netfilter.Base.Lists.{take_long}
use netfilter.Base.Lists.{drop_long}
use netfilter.Memory.Text.{c_str_unended}
use netfilter.Base.{
  ◌≤◌, fault, read_overrun, take, drop, ◌++◌, ap₂, append-nil, ℕ, zero, suc, ◌+◌, ◌-◌, ◌<◌, ◌≡◌,
  refl, ap, ◌∙◌, false, not, ◌&&◌, ◌||◌, [], ◌∷◌, some, arith, Bytes, codes, length, take, drop,
  replicate, length-replicate, ok,
}
use netfilter.Base.Int.{pos}
use netfilter.Memory.{c_str, equal}
use netfilter.Memory.Text.{IsText, holding, c_str-holding}
use netfilter.Kernel.{Kernel}
use netfilter.DealConf.Config.{Config, data_size, read_conf}
use netfilter.DealConf.Settings.{setting, AreBuffers, AreShort, Reads, parse_conf-Reads}
use netfilter.NetLink.{create_netlink, delete_netlink}
use netfilter.NetFilter.{Module, init_net_filter, release_net_filter, direction_is}
use netfilter.Main.{init, fini}

drop-replicate : (n j m a : ℕ) → m ≡ suc (n + j) → drop n (replicate m a) ≡ a ∷ replicate j a
unfolding replicate
drop-replicate zero j m a e = let whole : m ≡ suc j = omega arith in rw whole refl
drop-replicate (suc n) j zero a e = absurd (omega arith)
drop-replicate (suc n) j (suc m) a e = drop-replicate n j m a (omega arith)

-- A file that is shorter than the buffer leaves a text, as the buffer was clear.
read_conf-text :
    (k : Kernel) (c : Config) (t : Bytes)
    → k.conf_file ≡ some t
    → c.file_data ≡ replicate data_size 0
    → length t < data_size
    → (rest : Bytes) × (read_conf k c
        ≡ (some (holding t rest), record c { file_data = holding t rest }))
unfolding read_conf
read_conf-text k c t there clear short =
    let left = data_size - length t - 1 in
    let size : length c.file_data ≡ data_size = ap length clear ∙ length-replicate data_size 0 in
    let front : take data_size t ≡ t = take_long data_size t (omega arith) in
    let back : drop (length t) c.file_data ≡ 0 ∷ replicate left 0 =
      ap (drop (length t)) clear ∙ drop-replicate (length t) left data_size 0 (omega arith) in
    (replicate left 0, rw (there, size, front, back) refl)

direction_is-equal :
    (c : Config) (d s : Bytes)
    → c_str c.direction ≡ ok d
    → IsText s
    → direction_is c s ≡ ok (equal d s)
direction_is-equal c d s read h = rw (read, c_str-holding s [] h)

init_net_filter-registered :
    (m : Module) (d : Bytes)
    → c_str m.conf.direction ≡ ok d
    → init_net_filter m ≡ ok (record m { registered = equal d (codes "=>") || m.registered })
unfolding init_net_filter
init_net_filter-registered m d read =
    rw
      (
        direction_is-equal m.conf d (codes "=>") read (omega arith),
        direction_is-equal m.conf d (codes "<=>") read (omega arith),
      )
      (ground arith)

release_net_filter-registered :
    (m : Module) (d : Bytes)
    → c_str m.conf.direction ≡ ok d
    → release_net_filter m
      ≡ ok (record m { registered = not (equal d (codes "=>")) && m.registered })
unfolding release_net_filter
release_net_filter-registered m d read =
    rw
      (
        direction_is-equal m.conf d (codes "=>") read (omega arith),
        direction_is-equal m.conf d (codes "<=>") read (omega arith),
      )
      (ground arith)

same_sizes : {c : Config} → AreBuffers c → (b : Bytes) → AreBuffers (record c { file_data = b })
same_sizes s b = record {
  newcontent_size = s.newcontent_size;
  direction_size = s.direction_size;
  content_flag_size = s.content_flag_size;
  content_size = s.content_size;
  sourceip_size = s.sourceip_size;
  targetip_size = s.targetip_size;
  action_size = s.action_size;
  titlecontent_size = s.titlecontent_size;
  isapi_size = s.isapi_size;
}

-- For a configuration file of less than 1000 bytes that is a text with settings shorter than their
-- buffers, buffers of the declared sizes, a clear read buffer and no hook registered: `init` ends and
-- returns 0; the buffers hold the settings, the hook is registered exactly if the direction is "=>",
-- and the channel is as `createNetlink` leaves it; `fini` then ends with no hook registered and the
-- channel as `deleteNetlink` leaves it.
pub init_lem :
    (k : Kernel) (m : Module) (t : Bytes)
    → m.registered ≡ false
    → k.conf_file ≡ some t
    → m.conf.file_data ≡ replicate data_size 0
    → length t < data_size
    → AreBuffers m.conf
    → IsText t
    → AreShort t
    → (n : Module) × (o : Module) × (init k m ≡ ok (pos 0, n))
      × Reads t n.conf
      × (n.registered ≡ equal (setting t (codes "direction")) (codes "=>"))
      × (n.net ≡ (create_netlink k m.net).1)
      × (fini n ≡ ok o)
      × (o.registered ≡ false)
      × (o.net ≡ delete_netlink n.net)
unfolding init fini
init_lem k m t off there clear short sizes ht fits =
    let (rest, read) = read_conf-text k m.conf t there clear short in
    let loaded = record m.conf { file_data = holding t rest } in
    let (c, parsed, reads) =
      parse_conf-Reads loaded t rest (same_sizes sizes (holding t rest)) ht fits in
    let d = setting t (codes "direction") in
    let m1 = record m { net = (create_netlink k m.net).1; conf = c } in
    let n = record m1 { registered = equal d (codes "=>") || m.registered } in
    let n1 = record n { net = delete_netlink n.net } in
    let up : init_net_filter m1 ≡ ok n = init_net_filter-registered m1 d reads.direction_read in
    let down = release_net_filter-registered n1 d reads.direction_read in
    (
      n,
      record n1 { registered = not (equal d (codes "=>")) && n.registered },
      rw (read, c_str-holding t rest ht, parsed, up) refl,
      reads,
      ground arith,
      refl,
      down,
      ground arith,
      refl,
    )

-- For a read buffer of the declared size and a configuration file of 1000 bytes or more without a zero
-- among its first 1000: loading the module reads behind the buffer, which then has no terminator.
pub init_overrun :
    (k : Kernel) (m : Module) (file : Bytes)
    → k.conf_file ≡ some file
    → length m.conf.file_data ≡ data_size
    → data_size ≤ length file
    → IsText (take data_size file)
    → init k m ≡ fault read_overrun
unfolding init read_conf
init_overrun k m file there size long text =
    let filled : take (length m.conf.file_data) file ++ drop (length file) m.conf.file_data
        ≡ take data_size file =
      ap₂ (λ x y. x ++ y) (ap (λ n. take n file) size)
        (drop_long (length file) m.conf.file_data (omega (arith, size)))
      ∙ append-nil (take data_size file) in
    rw (there, filled, c_str_unended (take data_size file) text) refl
