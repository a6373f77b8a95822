-- ===== src/DealConf/Address/Read.antt =====
-- src/dealConf.c: what `in_ntoa` writes can be read back.
use netfilter.Base.{
  ℕ, ◌+◌, ◌-◌, ◌*◌, ◌/◌, ◌%◌, ◌^◌, ◌≤◌, ◌<◌, ◌≡◌, refl, ap, ◌∙◌, Bool, true, false, ◌&&◌, [], ◌∷◌,
  ◌++◌, inl, inr, arith, Bytes, length, drop, leb, if◌then◌else◌, Bool-cases, ok,
}
use netfilter.Base.Decimal.{decimal, decimal_one, decimal_two, decimal_three}
use netfilter.Memory.{c_str}
use netfilter.Memory.Text.{holding, c_str-holding}
use netfilter.DealConf.Address.{byte_of, in_ntoa}
use netfilter.DealConf.Address.Quad.{quoted_quad, quoted_quad-IsText, in_ntoa_lem}

abbrev pub is_digit : ℕ → Bool
is_digit c = leb b'0' c && leb c b'9'

-- A number in decimal at the start of a text, behind one of the value `acc`, and what follows it.
unfoldable pub read_number : ℕ → Bytes → ℕ × Bytes
read_number acc [] = (acc, [])
read_number acc (c ∷ p) =
    let rest = read_number (acc * 10 + (c - b'0')) p in if is_digit c then rest else (acc, c ∷ p)

-- Four numbers, each behind one character that is skipped: the address with these bytes, the lowest
-- first.
unfoldable pub read_quad : Bytes → ℕ
read_quad text =
    let (a, p) = read_number 0 (drop 1 text) in
    let (b, q) = read_number 0 (drop 1 p) in
    let (c, r) = read_number 0 (drop 1 q) in
    let (d, s) = read_number 0 (drop 1 r) in a + 256 * (b + 256 * (c + 256 * d))

read_digit :
    (acc d v : ℕ) (p : Bytes)
    → d < 10
    → acc * 10 + d ≡ v
    → read_number acc ((d + b'0') ∷ p) ≡ read_number v p
unfolding read_number
read_digit acc d v p h e =
    let yes : is_digit (d + b'0') ≡ true = ground arith in
    let value : d + b'0' - b'0' ≡ d = omega arith in rw (yes, value, e) refl

read_end : (acc x : ℕ) (p : Bytes) → is_digit x ≡ false → read_number acc (x ∷ p) ≡ (acc, x ∷ p)
unfolding read_number
read_end acc x p h = rw h refl

read_number-decimal :
    (n x : ℕ) (p : Bytes)
    → n < 256
    → is_digit x ≡ false
    → read_number 0 (decimal n ++ x ∷ p) ≡ (n, x ∷ p)
read_number-decimal n x p small stop = elim (Bool-cases (leb 100 n)) [
  | inl big ↦
      let large : 100 ≤ n = ground arith in
      ap (λ t. read_number 0 (t ++ x ∷ p)) (decimal_three n large (omega arith))
      ∙ read_digit 0 (n / 100) (n / 100) _ (omega arith) (omega arith)
      ∙ read_digit (n / 100) (n % 100 / 10) (n / 10) _ (omega arith) (omega arith)
      ∙ read_digit (n / 10) (n % 100 % 10) n _ (omega arith) (omega arith)
      ∙ read_end n x p stop
  | inr less ↦ elim (Bool-cases (leb 10 n)) [
    | inl mid ↦
        let large : 10 ≤ n = ground arith in
        let little : n < 100 = ground arith in
        ap (λ t. read_number 0 (t ++ x ∷ p)) (decimal_two n large little)
        ∙ read_digit 0 (n / 10) (n / 10) _ (omega arith) (omega arith)
        ∙ read_digit (n / 10) (n % 10) n _ (omega arith) (omega arith)
        ∙ read_end n x p stop
    | inr one ↦
        let little : n < 10 = ground arith in
        ap (λ t. read_number 0 (t ++ x ∷ p)) (decimal_one n little)
        ∙ read_digit 0 n n _ little (omega arith)
        ∙ read_end n x p stop
  ]
]

-- For every address of 32 bits, and buffers as large as `in_ntoa` needs, whatever they hold: the text
-- that it leaves is read back as the address.
pub read_quad-in_ntoa :
    (sip str : Bytes) (in_ : ℕ)
    → in_ < 2 ^ 32
    → 18 ≤ length sip
    → 4 ≤ length str
    → (p text : Bytes) × (in_ntoa sip str in_ ≡ ok p) × (c_str p ≡ ok text) × (read_quad text ≡ in_)
unfolding read_quad quoted_quad
read_quad-in_ntoa sip str in_ small l k =
    let (rest, run) = in_ntoa_lem sip str in_ l k in
    (
      holding (quoted_quad in_) rest,
      quoted_quad in_,
      run,
      c_str-holding (quoted_quad in_) rest (quoted_quad-IsText in_).0,
      rw
          (
            read_number-decimal (byte_of in_ 0) b'.' _ (omega arith) refl,
            read_number-decimal (byte_of in_ 1) b'.' _ (omega arith) refl,
            read_number-decimal (byte_of in_ 2) b'.' _ (omega arith) refl,
            read_number-decimal (byte_of in_ 3) b'"' [] (omega arith) refl,
          )
          (omega arith),
    )
