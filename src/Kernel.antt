-- ===== src/Kernel.antt =====
-- What the module calls of the kernel, and the wire format that its header files give. The calls are
-- arguments of the model: nothing is assumed of them here.
use netfilter.Base.{
  ℕ, zero, suc, ◌+◌, ◌*◌, ◌/◌, Bool, List, [], ◌∷◌, Option, Bytes, Result, ok, fault, read_overrun,
  ◌>>=◌,
}
use netfilter.Base.Int.{ℤ}

-- A message that was handed to `netlink_unicast`: the port it goes to, the fields of its header, the
-- size of the buffer that was asked for, and the bytes behind the header.
pub record Unicast : Type 0 where
  pub portid : ℕ
  pub nlmsg_type : ℕ
  pub nlmsg_len : ℕ
  pub total_size : ℕ
  pub payload : Bytes

-- An allocation and a transmission may depend on all that was sent before.
pub record Kernel : Type 0 where
  -- whether `alloc_skb` of a size succeeds
  pub alloc_skb : List Unicast → ℕ → Bool
  -- what the fresh buffer holds behind the header that `nlmsg_put` made room for
  pub skb_payload : List Unicast → ℕ → Bytes
  -- the value that `netlink_unicast` returns; it frees the buffer in every case
  pub netlink_unicast : List Unicast → Unicast → ℤ
  -- whether `netlink_kernel_create` returns a socket
  pub netlink_kernel_create : Bool
  -- `filp_open` and `vfs_read` of the configuration file: null, or the bytes that a read delivers
  -- where the buffer has room for them
  pub conf_file : Option Bytes
  -- `in_aton` of a text
  pub in_aton : Bytes → ℕ

-- linux/netlink.h: `sizeof(struct nlmsghdr)` and `NLMSG_SPACE`
abbrev pub nlmsghdr_size : ℕ
nlmsghdr_size = 16

abbrev pub nlmsg_space : ℕ → ℕ
nlmsg_space n = (n + nlmsghdr_size + 3) / 4 * 4

-- A byte of a header in memory.
unfoldable pub u8_at : Bytes → ℕ → Result ℕ
u8_at [] i = fault read_overrun
u8_at (c ∷ p) zero = ok c
u8_at (c ∷ p) (suc i) = u8_at p i

-- A 16-bit field in network order, behind `ntohs`.
abbrev pub be16_at : Bytes → ℕ → Result ℕ
be16_at p i = do hi ← u8_at p i; lo ← u8_at p (i + 1); ok (hi * 256 + lo)

-- Fields as the little-endian machine reads them.
abbrev pub le16_at : Bytes → ℕ → Result ℕ
le16_at p i = do lo ← u8_at p i; hi ← u8_at p (i + 1); ok (lo + hi * 256)

abbrev pub le32_at : Bytes → ℕ → Result ℕ
le32_at p i = do lo ← le16_at p i; hi ← le16_at p (i + 2); ok (lo + hi * 65536)
