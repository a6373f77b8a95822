-- ===== src/DealConf/Address/Quad.antt =====
-- src/dealConf.c: `in_ntoa` writes the four bytes of the address as decimals, with dots between them
-- and quotes around them, and stays inside its buffers.
use netfilter.Base.{
  ℕ, zero, suc, ◌+◌, ◌-◌, ◌/◌, ◌≤◌, ◌<◌, ◌≡◌, ap, [], ◌∷◌, ◌++◌, append_assoc, inl, inr, arith,
  Bytes, codes, length, drop, length-append, length-drop, ltb, leb, Bool-cases, Result, ok,
}
use netfilter.Memory.{put}
use netfilter.Memory.Text.{
  IsText, IsText-append, holding, c_str-holding, write_text-holding, strcat-holding,
}
use netfilter.Base.Decimal.{digits, decimal, decimal_one, decimal_two, decimal_three}
use netfilter.DealConf.Address.{char2string, byte_of, append_number, append_numbers, in_ntoa}

-- A buffer that holds a text, and keeps its size.
abbrev pub Leaves : Result Bytes → Bytes → ℕ → Type 0
Leaves r s size = (rest : Bytes) × (r ≡ ok (holding s rest)) × (length (holding s rest) ≡ size)

char2string_lem :
    (str : Bytes) (c : ℕ)
    → c < 256
    → 4 ≤ length str
    → Leaves (char2string str c) (decimal c) (length str)
unfolding char2string put
char2string_lem [] c h l = absurd (omega arith)
char2string_lem (x ∷ []) c h l = absurd (omega arith)
char2string_lem (x ∷ y ∷ []) c h l = absurd (omega arith)
char2string_lem (x ∷ y ∷ z ∷ []) c h l = absurd (omega arith)
char2string_lem (x ∷ y ∷ z ∷ w ∷ r) c h l = elim (Bool-cases (leb 100 c)) [
  | inl big ↦ (r, ground (arith, decimal_three c), ground (arith, decimal_three c))
  | inr small ↦ elim (Bool-cases (leb 10 c)) [
    | inl mid ↦ (w ∷ r, ground (arith, decimal_two c), ground (arith, decimal_two c))
    | inr one ↦ (z ∷ w ∷ r, ground (arith, decimal_one c), ground (arith, decimal_one c))
  ]
]

pub decimal-IsText : (c : ℕ) → c < 256 → IsText (decimal c) × (length (decimal c) ≤ 3)
decimal-IsText c h = elim (Bool-cases (leb 100 c)) [
  | inl big ↦ ground (arith, decimal_three c)
  | inr small ↦ elim (Bool-cases (leb 10 c)) [
    | inl mid ↦ ground (arith, decimal_two c)
    | inr one ↦ ground (arith, decimal_one c)
  ]
]

append_number_lem :
    (s r str : Bytes) (c : ℕ)
    → c < 256
    → IsText s
    → 3 ≤ length r
    → 4 ≤ length str
    → (str' : Bytes) × (append_number (holding s r) str c
        ≡ ok (holding (s ++ decimal c) (drop (length (decimal c)) r), str'))
      × (length str' ≡ length str)
append_number_lem s r str c h ts l k =
    let (rest, made, same) = char2string_lem str c h k in
    let (text, short) = decimal-IsText c h in
    (
      holding (decimal c) rest,
      rw (
        made,
        c_str-holding (decimal c) rest text,
        strcat-holding s (decimal c) r ts (omega arith),
      ),
      same,
    )

-- A round of the loop: the number and the dot behind it.
append_dotted :
    (rounds i : ℕ) (s r str : Bytes) (in_ : ℕ)
    → IsText s
    → 4 ≤ length r
    → 4 ≤ length str
    → (r' : Bytes) × (str' : Bytes) × (append_numbers (suc rounds) i (holding s r) str in_
        ≡ append_numbers rounds
            (i + 1)
            (holding (s ++ (decimal (byte_of in_ i) ++ codes ".")) r')
            str'
            in_)
      × (length r ≤ length r' + 4)
      × (length str' ≡ length str)
unfolding append_numbers
append_dotted rounds i s r str in_ ts l k =
    let c = byte_of in_ i in
    let small : c < 256 = omega arith in
    let (text, short) = decimal-IsText c small in
    let r₁ = drop (length (decimal c)) r in
    let (str', run, same) = append_number_lem s r str c small ts (omega arith) k in
    let room : length r ≤ length r₁ + 3 = omega (arith, length-drop (length (decimal c)) r) in
    (
      drop 1 r₁,
      str',
      rw (
        run,
        strcat-holding (s ++ decimal c) (codes ".") r₁ (IsText-append s (decimal c) ts text)
            (omega arith),
        append_assoc s (decimal c) (codes "."),
      ),
      omega (arith, length-drop 1 r₁),
      same,
    )

-- The address as text: what the header of the function promises, in quotes.
unfoldable pub quoted_quad : ℕ → Bytes
quoted_quad in_ =
    b'"'
    ∷ (decimal (byte_of in_ 0)
        ++ (b'.'
            ∷ (decimal (byte_of in_ 1)
                ++ (b'.'
                    ∷ (decimal (byte_of in_ 2)
                        ++ (b'.' ∷ (decimal (byte_of in_ 3) ++ b'"' ∷ [])))))))

-- The pieces in the order in which the code writes them.
regroup :
    (a b c d : Bytes)
    → ((((codes "\"" ++ (a ++ codes ".")) ++ (b ++ codes ".")) ++ (c ++ codes ".")) ++ d)
        ++ codes "\""
      ≡ b'"' ∷ (a ++ (b'.' ∷ (b ++ (b'.' ∷ (c ++ (b'.' ∷ (d ++ b'"' ∷ [])))))))
regroup a b c d = simp append_assoc

byte-lt : (in_ i : ℕ) → byte_of in_ i < 256
byte-lt in_ i = omega arith

dotted-IsText : (s : Bytes) (c : ℕ) → c < 256 → IsText s → IsText (s ++ (decimal c ++ codes "."))
dotted-IsText s c h t =
    IsText-append s _ t (IsText-append (decimal c) (codes ".") (decimal-IsText c h).0 (omega arith))

-- For every address, a buffer of 18 bytes or more and a scratch buffer of 4 or more, whatever they
-- hold: `in_ntoa` stays inside them, and its buffer then holds the four bytes of the address, the
-- lowest first, as decimals with dots between them and quotes around them.
pub in_ntoa_lem :
    (sip str : Bytes) (in_ : ℕ)
    → 18 ≤ length sip
    → 4 ≤ length str
    → (rest : Bytes) × (in_ntoa sip str in_ ≡ ok (holding (quoted_quad in_) rest))
unfolding in_ntoa quoted_quad append_numbers
in_ntoa_lem sip str in_ l k =
    let q = codes "\"" in
    let d0 = q ++ (decimal (byte_of in_ 0) ++ codes ".") in
    let d1 = d0 ++ (decimal (byte_of in_ 1) ++ codes ".") in
    let d2 = d1 ++ (decimal (byte_of in_ 2) ++ codes ".") in
    let t0 : IsText d0 = dotted-IsText q _ (byte-lt in_ 0) (omega arith) in
    let t1 : IsText d1 = dotted-IsText d0 _ (byte-lt in_ 1) t0 in
    let t2 : IsText d2 = dotted-IsText d1 _ (byte-lt in_ 2) t1 in
    let (text, short) = decimal-IsText (byte_of in_ 3) (byte-lt in_ 3) in
    let r = drop 2 sip in
    let room : length r ≡ length sip - 2 = length-drop 2 sip in
    let (r0, str0, run0, room0, same0) =
      append_dotted 2 0 q r str in_ (omega arith) (omega arith) k in
    let (r1, str1, run1, room1, same1) =
      append_dotted 1 1 d0 r0 str0 in_ t0 (omega arith) (omega arith) in
    let (r2, str2, run2, room2, same2) =
      append_dotted 0 2 d1 r1 str1 in_ t1 (omega arith) (omega arith) in
    let (str3, run3, same3) =
      append_number_lem d2 r2 str2 (byte_of in_ 3) (byte-lt in_ 3) t2 (omega arith) (omega arith) in
    let r3 = drop (length (decimal (byte_of in_ 3))) r2 in
    let room3 : length r3 ≡ length r2 - length (decimal (byte_of in_ 3)) = length-drop _ r2 in
    (
      drop 1 r3,
      rw
          (
            write_text-holding sip q (omega arith),
            run0,
            run1,
            run2,
            run3,
            strcat-holding (d2 ++ decimal (byte_of in_ 3)) q r3 (IsText-append d2 _ t2 text)
                (omega arith),
          )
          (ap (λ s. ok (holding s (drop 1 r3)))
            (regroup (decimal (byte_of in_ 0)) (decimal (byte_of in_ 1)) (decimal (byte_of in_ 2))
              (decimal (byte_of in_ 3)))),
    )

quoted-IsText :
    (a b c d : Bytes)
    → IsText a
    → IsText b
    → IsText c
    → IsText d
    → length a ≤ 3
    → length b ≤ 3
    → length c ≤ 3
    → length d ≤ 3
    → let q = b'"' ∷ (a ++ (b'.' ∷ (b ++ (b'.' ∷ (c ++ (b'.' ∷ (d ++ b'"' ∷ []))))))) in
      IsText q × (length q ≤ 17)
quoted-IsText a b c d ta tb tc td la lb lc ld =
    let z = d ++ b'"' ∷ [] in
    let y = c ++ (b'.' ∷ z) in
    let x = b ++ (b'.' ∷ y) in
    (
      (
        omega arith,
        IsText-append a _ ta (
          omega arith,
          IsText-append b _ tb
              (omega arith, IsText-append c _ tc (omega arith, IsText-append d _ td (omega arith))),
        ),
      ),
      omega (
        arith,
        length-append a (b'.' ∷ x),
        length-append b (b'.' ∷ y),
        length-append c (b'.' ∷ z),
        length-append d (b'"' ∷ []),
      ),
    )

digits-IsText : (fuel n : ℕ) → IsText (digits fuel n)
unfolding digits
digits-IsText zero n = tt
digits-IsText (suc fuel) n = elim (Bool-cases (ltb n 10)) [
  | inl small ↦ ground arith
  | inr big ↦
      rw big (IsText-append (digits fuel (n / 10)) _ (digits-IsText fuel (n / 10)) (omega arith))
]

-- Every decimal is a text.
pub decimal-IsText' : (n : ℕ) → IsText (decimal n)
unfolding decimal
decimal-IsText' n = digits-IsText (suc n) n

-- The size of the text that `in_ntoa` writes.
pub quoted_quad-IsText : (in_ : ℕ) → IsText (quoted_quad in_) × (length (quoted_quad in_) ≤ 17)
unfolding quoted_quad
quoted_quad-IsText in_ =
    let (t0, l0) = decimal-IsText (byte_of in_ 0) (byte-lt in_ 0) in
    let (t1, l1) = decimal-IsText (byte_of in_ 1) (byte-lt in_ 1) in
    let (t2, l2) = decimal-IsText (byte_of in_ 2) (byte-lt in_ 2) in
    let (t3, l3) = decimal-IsText (byte_of in_ 3) (byte-lt in_ 3) in
    quoted-IsText (decimal (byte_of in_ 0)) (decimal (byte_of in_ 1)) (decimal (byte_of in_ 2))
      (decimal (byte_of in_ 3)) t0 t1 t2 t3 l0 l1 l2 l3
