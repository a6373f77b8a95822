-- ===== src/DealConf/Address.antt =====
-- src/dealConf.c: `char2string` and `in_ntoa`, on their buffers. The local `str` of `in_ntoa` is an
-- array of 10 bytes that nothing initialises: its contents are an argument.
pub mod Quad
pub mod Read
use netfilter.Base.{
  ℕ, zero, suc, ◌+◌, ◌-◌, ◌*◌, ◌/◌, ◌%◌, ◌^◌, ◌≤◌, ◌<◌, ◌≡◌, ◌≢◌, ◌↔◌, ◌⊎◌, refl, sym, ap, ap₂, ◌∙◌,
  subst, Bool, true, false, not, ◌&&◌, ◌||◌, List, [], ◌∷◌, ◌++◌, append_assoc, append-nil, Option,
  none, some, inl, inr, arith, Bytes, codes, length, set, get_or, take, drop, replicate,
  length-append, length-set, length-take, length-drop, length-replicate, drop-append, take-append,
  take-append-drop, set-append, take_all, drop-drop_one, ltb, leb, ◌==◌, if◌then◌else◌, Bool-cases,
  Option-cases, le→leb, lt→leb_false, lt→ltb, le→ltb_false, ==_iff, ==_refl, Result, Result-cases,
  ok, fault, Fault, read_overrun, write_overrun, ◌>>=◌, >>=-eq-ok,
}
use netfilter.Memory.{
  c_str, strlen, advance, starts_with, equal, strcmp_is_zero, search, strstr, write, write_text,
  put, padded, strncpy, strcat,
}
use netfilter.Base.Decimal.{decimal}

-- `c` is an `unsigned char`, and every digit fits a `char`.
unfoldable pub char2string : Bytes → ℕ → Result Bytes
char2string str num =
    let rem = num % 100 in
    if leb 100 num
    then (do
      s0 ← put str 0 (num / 100 + b'0')
      s1 ← put s0 1 (rem / 10 + b'0')
      s2 ← put s1 2 (rem % 10 + b'0')
      put s2 3 0)
    else if leb 10 num
    then (do s0 ← put str 0 (num / 10 + b'0'); s1 ← put s0 1 (num % 10 + b'0'); put s1 2 0)
    else do s0 ← put str 0 (num + b'0'); put s0 1 0

-- `*(p + i)`: byte `i` of the address in memory; the machine is little-endian.
abbrev pub byte_of : ℕ → ℕ → ℕ
byte_of in_ i = in_ / 256 ^ i % 256

-- `strcat(sip, char2string(str, c))`
abbrev pub append_number : Bytes → Bytes → ℕ → Result (Bytes × Bytes)
append_number sip str c = do
  str' ← char2string str c
  s ← c_str str'
  sip' ← strcat sip s
  ok (sip', str')

-- The loop, by the rounds left.
unfoldable pub append_numbers : ℕ → ℕ → Bytes → Bytes → ℕ → Result (Bytes × Bytes)
append_numbers zero i sip str in_ = ok (sip, str)
append_numbers (suc rounds) i sip str in_ = do
  (sip', str') ← append_number sip str (byte_of in_ i)
  dotted ← strcat sip' (codes ".")
  append_numbers rounds (i + 1) dotted str' in_

unfoldable pub in_ntoa : Bytes → Bytes → ℕ → Result Bytes
in_ntoa sip str in_ = do
  quoted ← write_text sip (codes "\"")
  (sip', str') ← append_numbers 3 0 quoted str in_
  (sip'', _) ← append_number sip' str' (byte_of in_ 3)
  strcat sip'' (codes "\"")
