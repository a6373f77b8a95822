-- ===== src/NetLink/Wire.antt =====
-- The bytes of a netlink header as the clients fill it in, and that the kernel side reads it back.
use netfilter.Base.{
  ℕ, ◌+◌, ◌/◌, ◌%◌, ◌^◌, ◌<◌, ◌≡◌, refl, ap, [], ◌∷◌, ◌++◌, arith, Bytes, length, drop, ok,
}
use netfilter.Kernel.{nlmsghdr_size, u8_at, le16_at, le32_at}

abbrev pub le16 : ℕ → Bytes
le16 x = x % 256 ∷ (x / 256 % 256) ∷ []

abbrev pub le32 : ℕ → Bytes
le32 x = x % 256 ∷ (x / 256 % 256) ∷ (x / 65536 % 256) ∷ (x / 16777216 % 256) ∷ []

-- `struct nlmsghdr` with no flags and sequence number 0.
unfoldable pub nlmsghdr : ℕ → ℕ → ℕ → Bytes
nlmsghdr nlmsg_len nlmsg_type nlmsg_pid =
    le32 nlmsg_len ++ (le16 nlmsg_type ++ (le16 0 ++ (le32 0 ++ le32 nlmsg_pid)))

module _ (len type pid : ℕ) (payload : Bytes) where
  pub length-nlmsghdr : length (nlmsghdr len type pid ++ payload) ≡ nlmsghdr_size + length payload
  unfolding nlmsghdr
  length-nlmsghdr = omega arith

  pub drop-nlmsghdr : drop nlmsghdr_size (nlmsghdr len type pid ++ payload) ≡ payload
  unfolding nlmsghdr
  drop-nlmsghdr = refl

  pub nlmsghdr_len : len < 2 ^ 32 → le32_at (nlmsghdr len type pid ++ payload) 0 ≡ ok len
  unfolding nlmsghdr u8_at
  nlmsghdr_len h = ap ok (omega arith)

  pub nlmsghdr_type : type < 2 ^ 16 → le16_at (nlmsghdr len type pid ++ payload) 4 ≡ ok type
  unfolding nlmsghdr u8_at
  nlmsghdr_type h = ap ok (omega arith)

  pub nlmsghdr_pid : pid < 2 ^ 32 → le32_at (nlmsghdr len type pid ++ payload) 12 ≡ ok pid
  unfolding nlmsghdr u8_at
  nlmsghdr_pid h = ap ok (omega arith)
