-- ===== src/NetFilter/Header.antt =====
-- src/netFilter.c: the IP header as bytes, and what the hook reads of it.
use netfilter.Base.{
  ℕ, ◌+◌, ◌*◌, ◌%◌, ◌^◌, ◌≤◌, ◌<◌, ◌≡◌, refl, ap, ◌∷◌, ◌++◌, arith, Bytes, codes, length,
  length-append, ok,
}
use netfilter.Memory.{advance}
use netfilter.Memory.Text.{IsText, IsText-append, advance-append}
use netfilter.Base.Decimal.{decimal}
use netfilter.Kernel.{u8_at, be16_at, le32_at}
use netfilter.NetFilter.Hook.{protocol_label}
use netfilter.NetLink.Wire.{le32}
use netfilter.DealConf.Address.Quad.{decimal-IsText}
use netfilter.NetFilter.Datagram.{be16}

-- An IP header of version 4. The addresses are the numbers that the little-endian machine reads.
pub record IpHeader : Type 0 where
  pub ihl : ℕ
  pub tos : ℕ
  pub tot_len : ℕ
  pub id : ℕ
  pub frag_off : ℕ
  pub ttl : ℕ
  pub protocol : ℕ
  pub check : ℕ
  pub saddr : ℕ
  pub daddr : ℕ
  pub options : Bytes

unfoldable pub ip_bytes : IpHeader → Bytes
ip_bytes h =
    (64 + h.ihl)
    ∷ h.tos
    ∷ (be16 h.tot_len
        ++ (be16 h.id
            ++ (be16 h.frag_off
                ++ (h.ttl
                    ∷ h.protocol
                    ∷ (be16 h.check ++ (le32 h.saddr ++ (le32 h.daddr ++ h.options)))))))

pub record IsIpHeader (h : IpHeader) : Type 0 where
  pub ihl_fits : h.ihl < 16
  pub options_fit : 20 + length h.options ≡ h.ihl * 4
  pub saddr_fits : h.saddr < 2 ^ 32
  pub daddr_fits : h.daddr < 2 ^ 32

module _ (h : IpHeader) (p : Bytes) where
  pub ip_ihl : u8_at (ip_bytes h ++ p) 0 ≡ ok (64 + h.ihl)
  unfolding ip_bytes u8_at
  ip_ihl = refl

  pub ip_tot_len : be16_at (ip_bytes h ++ p) 2 ≡ ok h.tot_len
  unfolding ip_bytes u8_at
  ip_tot_len = ap ok (omega arith)

  pub ip_protocol : u8_at (ip_bytes h ++ p) 9 ≡ ok h.protocol
  unfolding ip_bytes u8_at
  ip_protocol = refl

  pub ip_saddr : h.saddr < 2 ^ 32 → le32_at (ip_bytes h ++ p) 12 ≡ ok h.saddr
  unfolding ip_bytes u8_at
  ip_saddr f = ap ok (omega arith)

  pub ip_daddr : h.daddr < 2 ^ 32 → le32_at (ip_bytes h ++ p) 16 ≡ ok h.daddr
  unfolding ip_bytes u8_at
  ip_daddr f = ap ok (omega arith)

  pub ip_body : IsIpHeader h → advance (ip_bytes h ++ p) ((64 + h.ihl) % 16 * 4) ≡ ok p
  ip_body v =
      let size : (64 + h.ihl) % 16 * 4 ≡ length (ip_bytes h) = header_size in
      rw size (advance-append (ip_bytes h) p)
    where
      header_size : (64 + h.ihl) % 16 * 4 ≡ length (ip_bytes h)
      header_size = unfold ip_bytes in omega (arith, v.ihl_fits, v.options_fit)

pub protocol_label-IsText :
    (protocol : ℕ)
    → protocol < 256
    → IsText (protocol_label protocol) × (length (protocol_label protocol) ≤ 30)
unfolding protocol_label
protocol_label-IsText protocol small =
    let (text, short) = decimal-IsText protocol small in
    let other : IsText (decimal protocol ++ codes ", ") =
      IsText-append (decimal protocol) (codes ", ") text (omega arith) in
    ground (arith, text, short, other, length-append (decimal protocol) (codes ", "))
