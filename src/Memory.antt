-- ===== src/Memory.antt =====
-- Memory and the calls of string.h as the program uses them. A `char *` is the rest of its object:
-- the bytes from the pointer to the end of the array, or packet, that it points into. So pointer
-- arithmetic is `drop`, the difference of two pointers into one object is a difference of lengths,
-- and an access outside the object is a fault. The functions below are read off the C standard.
pub mod Text
pub mod Search
pub mod Copy
pub mod Receive
use netfilter.Base.{
  ℕ, zero, suc, ◌+◌, ◌-◌, Bool, true, false, ◌&&◌, List, [], ◌∷◌, ◌++◌, Option, none, some, Bytes,
  length, set, drop, replicate, ltb, leb, ◌==◌, if◌then◌else◌, Result, ok, fault, Fault,
  read_overrun, write_overrun, ◌>>=◌,
}

-- The text that a pointer stands for: the bytes in front of the first NUL.
unfoldable pub c_str : Bytes → Result Bytes
c_str [] = fault read_overrun
c_str (c ∷ cs) = if c == 0 then ok [] else (c_str cs >>= λ s. ok (c ∷ s))

abbrev pub strlen : Bytes → Result ℕ
strlen p = c_str p >>= λ s. ok (length s)

-- `p + n`; a pointer may stand just behind its object and no further.
unfoldable pub advance : Bytes → ℕ → Result Bytes
advance p n = if leb n (length p) then ok (drop n p) else fault read_overrun

-- The text `n` stands at the start of `p`.
unfoldable pub starts_with : Bytes → Bytes → Bool
starts_with [] p = true
starts_with (x ∷ n) [] = false
starts_with (x ∷ n) (c ∷ p) = x == c && starts_with n p

unfoldable pub equal : Bytes → Bytes → Bool
equal [] [] = true
equal (x ∷ a) (y ∷ b) = x == y && equal a b
equal _ _ = false

-- `strcmp(p, q) == 0`
abbrev pub strcmp_is_zero : Bytes → Bytes → Result Bool
strcmp_is_zero p q = c_str p >>= λ s. c_str q >>= λ t. ok (equal s t)

-- The first place in front of the NUL where the text `n`, which is not empty, stands.
unfoldable pub search : Bytes → Bytes → Option Bytes
search n [] = none
search n (c ∷ cs) =
    let rest = search n cs in
    if c == 0 then none else if starts_with n (c ∷ cs) then some (c ∷ cs) else rest

-- `strstr(p, q)`
unfoldable pub strstr : Bytes → Bytes → Result (Option Bytes)
strstr p q = c_str p >>= λ _. c_str q >>= λ n. ok (search n p)

-- Bytes written over the start of a buffer.
unfoldable pub write : Bytes → Bytes → Result Bytes
write buf s =
    if leb (length s) (length buf) then ok (s ++ drop (length s) buf) else fault write_overrun

-- `strcpy`, and `sprintf` of a text that is known: the NUL is written too.
abbrev pub write_text : Bytes → Bytes → Result Bytes
write_text buf s = write buf (s ++ 0 ∷ [])

-- `buf[i] = v`
unfoldable pub put : Bytes → ℕ → ℕ → Result Bytes
put buf i v = if ltb i (length buf) then ok (set buf i v) else fault write_overrun

-- What `strncpy` writes: `n` bytes of the text, filled up with NULs.
unfoldable pub padded : ℕ → Bytes → Result Bytes
padded zero p = ok []
padded (suc n) [] = fault read_overrun
padded (suc n) (c ∷ p) =
    if c == 0 then ok (replicate (suc n) 0) else (padded n p >>= λ s. ok (c ∷ s))

-- `strncpy(dest, p, n)` writes exactly `n` bytes.
unfoldable pub strncpy : Bytes → Bytes → ℕ → Result Bytes
strncpy dest p n = elim (leb n (length dest)) [
  | true ↦ (padded n p >>= λ s. ok (s ++ drop n dest))
  | false ↦ fault write_overrun
]

-- `strcat(dest, p)` for a text that is known.
unfoldable pub strcat : Bytes → Bytes → Result Bytes
strcat [] s = fault read_overrun
strcat (c ∷ dest) s =
    if c == 0 then write_text (c ∷ dest) s else (strcat dest s >>= λ d. ok (c ∷ d))
