-- ===== src/Memory/Text.antt =====
-- Texts in memory: `c_str` and the comparisons.
use netfilter.Base.{
  fault, read_overrun, suc, ◌≤◌, ◌<◌, ◌≡◌, ◌≢◌, ◌↔◌, refl, ap, ◌∙◌, true, [], ◌∷◌, ◌++◌,
  append_assoc, inl, inr, arith, Bytes, length, drop, length-append, drop-append, ◌==◌,
  if◌then◌else◌, Bool-cases, le→leb, ok, >>=-eq-ok,
}
use netfilter.Memory.{c_str, strcmp_is_zero, advance, starts_with, equal, write, write_text, strcat}

-- No NUL inside.
abbrev pub IsText : Bytes → Type 0
IsText [] = Unit
IsText (c ∷ cs) = (c ≢ 0) × IsText cs

pub IsText-append : (s t : Bytes) → IsText s → IsText t → IsText (s ++ t)
IsText-append [] t hs ht = ht
IsText-append (c ∷ s) t hs ht = (hs.0, IsText-append s t hs.1 ht)

pub IsText-left : (s t : Bytes) → IsText (s ++ t) → IsText s
IsText-left [] t h = tt
IsText-left (c ∷ s) t h = (h.0, IsText-left s t h.1)

pub IsText-right : (s t : Bytes) → IsText (s ++ t) → IsText t
IsText-right [] t h = h
IsText-right (c ∷ s) t h = IsText-right s t h.1

-- Memory that holds the text `s`, a NUL, and then anything.
abbrev pub holding : Bytes → Bytes → Bytes
holding s rest = s ++ (0 ∷ rest)

pub c_str-holding : (s rest : Bytes) → IsText s → c_str (holding s rest) ≡ ok s
unfolding c_str
c_str-holding [] rest h = refl
c_str-holding (c ∷ s) rest h = ground (arith, c_str-holding s rest h.1)

-- The text in a run of bytes: those in front of the first NUL, or all of them.
unfoldable pub text_of : Bytes → Bytes
text_of [] = []
text_of (c ∷ p) = if c == 0 then [] else c ∷ text_of p

pub text_of-IsText : (p : Bytes) → IsText (text_of p) × (length (text_of p) ≤ length p)
unfolding text_of
text_of-IsText [] = (tt, omega arith)
text_of-IsText (c ∷ p) = elim (Bool-cases (c == 0)) [
  | inl nul ↦ rw nul (tt, omega arith)
  | inr more ↦ let (text, short) = text_of-IsText p in rw more ((ground arith, text), omega arith)
]

pub text_of-eq : (s : Bytes) → IsText s → text_of s ≡ s
unfolding text_of
text_of-eq [] t = refl
text_of-eq (c ∷ s) t = ground (arith, text_of-eq s t.1)

pub text_of-holding : (s rest : Bytes) → IsText s → text_of (holding s rest) ≡ s
unfolding text_of
text_of-holding [] rest t = refl
text_of-holding (c ∷ s) rest t = ground (arith, text_of-holding s rest t.1)

-- What a text says of the memory it was read from.
pub c_str-eq-ok :
    (p : Bytes) {s : Bytes} → c_str p ≡ ok s → (rest : Bytes) × (p ≡ holding s rest) × IsText s
unfolding c_str
c_str-eq-ok [] e = cc
c_str-eq-ok (c ∷ cs) {s = []} e = (cs, ground arith, tt)
c_str-eq-ok (c ∷ cs) {s = x ∷ s} e =
    let tail : c_str cs ≡ ok s = ground arith in
    let (rest, p, t) = c_str-eq-ok cs tail in (rest, ground arith, (ground arith, t))

pub equal_iff : (s t : Bytes) → (equal s t ≡ true) ↔ (s ≡ t)
unfolding equal
equal_iff [] [] = ground arith
equal_iff [] (d ∷ t) = ground arith
equal_iff (c ∷ s) [] = ground arith
equal_iff (c ∷ s) (d ∷ t) = ground (arith, equal_iff s t)

pub equal_refl : (a : Bytes) → equal a a ≡ true
equal_refl a = (equal_iff a a).1 refl

pub starts_with-append : (n r : Bytes) → starts_with n (n ++ r) ≡ true
unfolding starts_with
starts_with-append [] r = refl
starts_with-append (x ∷ n) r = ground (arith, starts_with-append n r)

pub starts_with-eq : (n p : Bytes) → starts_with n p ≡ true → p ≡ n ++ drop (length n) p
unfolding starts_with
starts_with-eq [] p h = refl
starts_with-eq (x ∷ n) [] h = cc
starts_with-eq (x ∷ n) (c ∷ p) h = ground (arith, starts_with-eq n p)

pub advance-append : (s p : Bytes) → advance (s ++ p) (length s) ≡ ok p
unfolding advance
advance-append s p =
    rw (le→leb (length s) (length (s ++ p)) (omega (arith, length-append s p)), drop-append s p)

-- A text that fits is written in front of what the buffer held.
pub write_text-holding :
    (buf s : Bytes)
    → length s < length buf
    → write_text buf s ≡ ok (holding s (drop (suc (length s)) buf))
unfolding write
write_text-holding buf s h =
    let size : length (s ++ 0 ∷ []) ≡ suc (length s) = omega (arith, length-append s (0 ∷ [])) in
    rw (size, le→leb (suc (length s)) (length buf) h, append_assoc s (0 ∷ []))

pub strcat-holding :
    (s t rest : Bytes)
    → IsText s
    → length t ≤ length rest
    → strcat (holding s rest) t ≡ ok (holding (s ++ t) (drop (length t) rest))
unfolding strcat
strcat-holding [] t rest h l = write_text-holding (0 ∷ rest) t (omega arith)
strcat-holding (c ∷ s) t rest h l = ground (arith, strcat-holding s t rest h.1 l)

-- A comparison that says yes.
pub strcmp_is_zero-true :
    (p t rest : Bytes) → IsText t → strcmp_is_zero p (holding t rest) ≡ ok true → c_str p ≡ ok t
strcmp_is_zero-true p t rest h e =
    let (s, read, e1) = >>=-eq-ok (c_str p) _ e in
    let same : equal s t ≡ true = ground (arith, c_str-holding t rest h) in
    read ∙ ap ok ((equal_iff s t).0 same)

pub strcmp_is_zero-holding :
    (s t r q : Bytes)
    → IsText s
    → IsText t
    → strcmp_is_zero (holding s r) (holding t q) ≡ ok (equal s t)
strcmp_is_zero-holding s t r q hs ht = rw (c_str-holding s r hs, c_str-holding t q ht)

-- Without a terminator in the array, the text is read behind its end.
pub c_str_unended : (t : Bytes) → IsText t → c_str t ≡ fault read_overrun
unfolding c_str
c_str_unended [] h = refl
c_str_unended (c ∷ t) (h, hs) = ground (arith, c_str_unended t hs)
