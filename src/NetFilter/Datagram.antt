-- ===== src/NetFilter/Datagram.antt =====
-- src/netFilter.c: a UDP datagram as bytes, the copy of its payload, and the message that the UDP
-- case looks for in it.
use netfilter.Base.{
  ℕ, zero, suc, ◌+◌, ◌-◌, ◌/◌, ◌%◌, ◌≤◌, ◌<◌, ◌≡◌, ◌≢◌, refl, ap, Bool, false, [], ◌∷◌, ◌++◌, inl,
  inr, arith, Bytes, codes, length, set, take, drop, length-append, length-take, length-drop, ◌==◌,
  Bool-cases, ok, >>=-eq-ok,
}
use netfilter.Memory.{c_str, advance, equal, strcmp_is_zero, put, strncpy}
use netfilter.Memory.Text.{text_of, IsText, holding, c_str-holding, advance-append}
use netfilter.Memory.Copy.{fill, strncpy-put-holding}
use netfilter.Base.Int.{pos}
use netfilter.Kernel.{u8_at, be16_at}
use netfilter.DealConf.Extract.{content_max_len, literal}
use netfilter.NetFilter.{Module, copy_body}
use netfilter.DealConf.Spec.{content_of, or_empty}

-- The buffers have the sizes of their declarations.
pub record IsSized (m : Module) : Type 0 where
  pub newcontent_size : length m.conf.newcontent ≡ content_max_len
  pub xmldest_size : length m.xmldest ≡ 100000
  pub body_size : length m.tcp_udp_body ≡ 100000
  pub line_size : length m.mymessagebuf ≡ 100000

-- A UDP header and its payload, and what the packet's memory holds behind them.
pub record Datagram : Type 0 where
  pub source : ℕ
  pub dest : ℕ
  pub checksum : ℕ
  pub payload : Bytes
  pub trailer : Bytes

abbrev pub be16 : ℕ → Bytes
be16 x = x / 256 ∷ x % 256 ∷ []

unfoldable pub datagram_bytes : Datagram → Bytes
datagram_bytes d =
    be16 d.source
    ++ (be16 d.dest
        ++ (be16 (length d.payload + 8) ++ (be16 d.checksum ++ (d.payload ++ d.trailer))))

pub record IsDatagram (d : Datagram) : Type 0 where
  pub source_fits : d.source < 65536
  pub dest_fits : d.dest < 65536
  pub length_fits : length d.payload + 8 < 65536

-- The text in the payload, and what the program takes for the message in it.
abbrev pub text_in : Datagram → Bytes
text_in d = text_of d.payload

abbrev pub message_of : Datagram → Bytes
message_of d = or_empty (content_of (codes "message") (text_in d))

abbrev pub says_b : Datagram → Bool
says_b d = equal (message_of d) (codes "B")

pub udp_source : (d : Datagram) → be16_at (datagram_bytes d) 0 ≡ ok d.source
unfolding datagram_bytes u8_at
udp_source d = ap ok (omega arith)

pub udp_dest : (d : Datagram) → be16_at (datagram_bytes d) 2 ≡ ok d.dest
unfolding datagram_bytes u8_at
udp_dest d = ap ok (omega arith)

pub udp_len : (d : Datagram) → be16_at (datagram_bytes d) 4 ≡ ok (length d.payload + 8)
unfolding datagram_bytes u8_at
udp_len d = ap ok (omega arith)

pub udp_body : (d : Datagram) → advance (datagram_bytes d) 8 ≡ ok (d.payload ++ d.trailer)
unfolding datagram_bytes
udp_body d =
    advance-append
      (be16 d.source ++ (be16 d.dest ++ (be16 (length d.payload + 8) ++ be16 d.checksum)))
      (d.payload ++ d.trailer)

-- The buffer for bodies after the copy of a run of bytes: it holds their text.
abbrev pub body_after : Bytes → Bytes → Bytes
body_after p buf = holding (text_of p) (fill p ++ drop (suc (length p)) buf)

pub copy_body-holding :
    (m : Module) (p q : Bytes)
    → length p < length m.tcp_udp_body
    → copy_body m (p ++ q) (pos (length p))
      ≡ ok (record m { tcp_udp_body = body_after p m.tcp_udp_body })
unfolding copy_body
copy_body-holding m p q fits =
    let (copied, c, e) =
      >>=-eq-ok (strncpy m.tcp_udp_body (p ++ q) (length p)) (λ copied. put copied (length p) 0)
        (strncpy-put-holding m.tcp_udp_body p q fits) in
    rw (c, e) refl

-- A zero ends the text, wherever it stands.
pub c_str-set : (l : Bytes) (i : ℕ) → i < length l → (s : Bytes) × (c_str (set l i 0) ≡ ok s)
unfolding c_str
c_str-set [] i h = elim h [ ]
c_str-set (c ∷ l) zero h = ([], refl)
c_str-set (c ∷ l) (suc i) h =
    let (s, e) = c_str-set l i (omega arith) in
    elim (Bool-cases (c == 0)) [ inl z ↦ ([], ground arith) | inr n ↦ (c ∷ s, ground (arith, e)) ]

c_str_two :
    (a b : ℕ) (p s : Bytes) → a ≢ 0 → b ≢ 0 → c_str p ≡ ok s → c_str (a ∷ b ∷ p) ≡ ok (a ∷ b ∷ s)
unfolding c_str
c_str_two a b p s ha hb e = ground (arith, e)

not_one : (a b x : ℕ) (s : Bytes) → equal (a ∷ b ∷ s) (x ∷ []) ≡ false
unfolding equal
not_one a b x s = ground arith

-- A message of 100 bytes or more is no "B", whatever stale bytes follow it.
pub long_not_b :
    (body dest : Bytes)
    → IsText body
    → 100 ≤ length body
    → length body < length dest
    → strcmp_is_zero (set (take 99 body ++ drop 99 dest) (length body) 0) (literal (codes "B"))
      ≡ ok false
long_not_b [] dest t h l = absurd (omega arith)
long_not_b (a ∷ []) dest t h l = absurd (omega arith)
long_not_b (a ∷ b ∷ body) dest t h l =
    let rest = take 97 body ++ drop 99 dest in
    let kept : length rest ≡ length dest - 2 = omega (
      arith,
      length-append (take 97 body) (drop 99 dest),
      length-take 97 body,
      length-drop 99 dest,
    ) in
    let (s, read) = c_str-set rest (length body) (omega arith) in
    rw (
      c_str_two a b (set rest (length body) 0) s t.0 t.1.0 read,
      c_str-holding (codes "B") [] (omega arith),
      not_one a b b'B' s,
    )

pub long_is_not_b : (body : Bytes) → 100 ≤ length body → equal body (codes "B") ≡ false
long_is_not_b [] h = absurd (omega arith)
long_is_not_b (a ∷ []) h = absurd (omega arith)
long_is_not_b (a ∷ b ∷ body) h = not_one a b b'B' body
