-- ===== src/Memory/Copy.antt =====
-- The laws of `strncpy` and of writes at an index.
use netfilter.Base.{Ensures, length-set, leb}
use netfilter.Memory.{write}
use netfilter.Base.{
  ℕ, zero, suc, ◌-◌, ◌≤◌, ◌<◌, ◌≡◌, refl, ap, subst, [], ◌∷◌, ◌++◌, append_assoc, inl, inr, arith,
  Bytes, length, set, take, drop, replicate, length-append, length-drop, length-replicate,
  set-append, drop-drop_one, ◌==◌, Bool-cases, le→leb, lt→leb_false, lt→ltb, le→ltb_false,
  Result-cases, ok, fault, write_overrun, ◌>>=◌,
}
use netfilter.Memory.{put, padded, strncpy}
use netfilter.Memory.Text.{text_of, text_of-IsText, IsText, holding}

padded-IsText : (n : ℕ) (s q : Bytes) → IsText s → n ≤ length s → padded n (s ++ q) ≡ ok (take n s)
unfolding padded
padded-IsText zero s q t h = refl
padded-IsText (suc n) [] q t h = absurd (omega arith)
padded-IsText (suc n) (c ∷ s) q t h = ground (arith, padded-IsText n s q t.1 (omega arith))

length-padded : (n : ℕ) (p : Bytes) {s : Bytes} → padded n p ≡ ok s → length s ≡ n
unfolding padded
length-padded zero p e = ground arith
length-padded (suc n) [] e = cc
length-padded (suc n) (c ∷ p) e = elim (Result-cases (padded n p)) [
  | inl (t, h) ↦ ground (arith, h, length-padded n p h, length-replicate (suc n) zero)
  | inr (f, h) ↦ ground (arith, h, length-replicate (suc n) zero)
]

-- `strncpy` of no more bytes than the text has.
pub strncpy-IsText :
    (dest : Bytes) (n : ℕ) (s q : Bytes)
    → IsText s
    → n ≤ length s
    → n ≤ length dest
    → strncpy dest (s ++ q) n ≡ ok (take n s ++ drop n dest)
unfolding strncpy
strncpy-IsText dest n s q t h l = rw (le→leb n (length dest) l, strncpy, padded-IsText n s q t h)

-- More bytes than the destination has are a fault, whatever the text.
pub strncpy_overrun :
    (dest p : Bytes) (n : ℕ) → length dest < n → strncpy dest p n ≡ fault write_overrun
unfolding strncpy
strncpy_overrun dest p n h = rw (lt→leb_false n (length dest) h, strncpy)

pub length-strncpy :
    (dest p : Bytes) (n : ℕ) {d : Bytes} → strncpy dest p n ≡ ok d → length d ≡ length dest
unfolding strncpy
length-strncpy dest p n e = elim (Result-cases (padded n p)) [
  | inl (s, h) ↦
      ground (arith, h, length-padded n p h, length-append s (drop n dest), length-drop n dest)
  | inr (f, h) ↦ ground (arith, h)
]

pub put-append :
    (s t : Bytes) (v : ℕ) → 0 < length t → put (s ++ t) (length s) v ≡ ok (s ++ (v ∷ drop 1 t))
unfolding put
put-append s t v h =
    rw (lt→ltb (length s) (length (s ++ t)) (omega (arith, length-append s t)), set-append s t v h)

-- `buf[0] = '\0'`
pub put_empty : (buf : Bytes) → 0 < length buf → put buf 0 0 ≡ ok (holding [] (drop 1 buf))
put_empty buf h = put-append [] buf 0 h

pub put_fits : (buf : Bytes) (i v : ℕ) → i < length buf → put buf i v ≡ ok (set buf i v)
unfolding put
put_fits buf i v h = rw (lt→ltb i (length buf) h)

pub put_overrun : (buf : Bytes) (i v : ℕ) → length buf ≤ i → put buf i v ≡ fault write_overrun
unfolding put
put_overrun buf i v h = rw (le→ltb_false i (length buf) h)

zeros-shift : (n : ℕ) (z : Bytes) → replicate n 0 ++ (0 ∷ z) ≡ 0 ∷ (replicate n 0 ++ z)
unfolding replicate
zeros-shift zero z = refl
zeros-shift (suc n) z = ap (◌∷◌ 0) (zeros-shift n z)

-- How many NULs `strncpy` of all of a run of bytes adds to its text.
abbrev pub fill : Bytes → Bytes
fill p = replicate (length p - length (text_of p)) 0

kept : (n : ℕ) → suc n ≡ suc n - 0
kept n = omega arith

less : (n k : ℕ) → n - k ≡ suc n - suc k
less n k = omega arith

padded-fill : (p q : Bytes) → padded (length p) (p ++ q) ≡ ok (text_of p ++ fill p)
unfolding padded text_of replicate
padded-fill [] q = refl
padded-fill (c ∷ p) q = elim (Bool-cases (c == 0)) [
  | inl nul ↦ rw nul (ap (λ (n : ℕ). ok (replicate n 0)) (kept (length p)))
  | inr more ↦
      rw (more, padded-fill p q)
        (ap (λ (n : ℕ). ok (c ∷ (text_of p ++ replicate n 0)))
          (less (length p) (length (text_of p))))
]

length-fill : (p : Bytes) → length (text_of p ++ fill p) ≡ length p
length-fill p = omega (
  arith,
  length-append (text_of p) (fill p),
  length-replicate {A = ℕ} (length p - length (text_of p)) 0,
  (text_of-IsText p).1,
)

strncpy-fill :
    (dest p q : Bytes)
    → length p ≤ length dest
    → strncpy dest (p ++ q) (length p) ≡ ok ((text_of p ++ fill p) ++ drop (length p) dest)
unfolding strncpy
strncpy-fill dest p q fits = rw (le→leb (length p) (length dest) fits, strncpy, padded-fill p q)

-- `strncpy(dest, p, n); dest[n] = '\0';` for the `n` bytes at `p`, whatever they are: `dest` then holds
-- their text.
pub strncpy-put-holding :
    (dest p q : Bytes)
    → length p < length dest
    → (strncpy dest (p ++ q) (length p) >>= λ copied. put copied (length p) 0)
      ≡ ok (holding (text_of p) (fill p ++ drop (suc (length p)) dest))
strncpy-put-holding dest p q fits =
    let back = drop (length p) dest in
    let room : 0 < length back = omega (arith, length-drop (length p) dest) in
    let at_end : put ((text_of p ++ fill p) ++ back) (length p) 0
        ≡ ok ((text_of p ++ fill p) ++ (0 ∷ drop 1 back)) =
      subst
        (λ n.
          put ((text_of p ++ fill p) ++ back) n 0 ≡ ok ((text_of p ++ fill p) ++ (0 ∷ drop 1 back)))
        (length-fill p) (put-append (text_of p ++ fill p) back 0 room) in
    rw
      (
        strncpy-fill dest p q (omega arith),
        at_end,
        append_assoc (text_of p) (fill p) (0 ∷ drop 1 back),
        zeros-shift (length p - length (text_of p)) (drop 1 back),
        drop-drop_one (length p) dest,
      )
      refl

-- Writes that stay inside keep the size of the array.
pub length-put : (p : Bytes) (i v : ℕ) → Ensures (λ q. length q ≡ length p) (put p i v)
unfolding put
length-put p i v q e = ground (arith, length-set p i v)

pub length-write : (buf s : Bytes) → Ensures (λ q. length q ≡ length buf) (write buf s)
unfolding write
length-write buf s q e = elim (Bool-cases (leb (length s) (length buf))) [
  | inl fits ↦ ground (arith, length-append s (drop (length s) buf), length-drop (length s) buf)
  | inr over ↦ ground arith
]
