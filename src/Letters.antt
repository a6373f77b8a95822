-- ===== src/Letters.antt =====
-- udpTest/udpclient.c and tcpTest/tcpclient.c: the texts a, ab, and so on that both send.
use netfilter.Base.{
  ℕ, ◌+◌, ◌%◌, ◌≤◌, ◌≡◌, refl, Bool, true, false, [], ◌∷◌, ◌++◌, arith, Bytes, codes, length, set,
  take, drop, length-append, length-set, length-take, length-drop, if◌then◌else◌, Result, ok,
}
use netfilter.Memory.{put, strncpy}
use netfilter.Memory.Text.{IsText}
use netfilter.Memory.Copy.{strncpy-IsText, put_fits}

abbrev pub alphabet : Bytes
alphabet = codes "abcdefghijklmnopqrstuvwxyz"

abbrev pub index_of : ℕ → ℕ
index_of count = count % 26 + 1

-- `strncpy(sendbuf, alphabet, index)`
unfoldable pub fill_letters : Bytes → ℕ → Result Bytes
fill_letters sendbuf count = strncpy sendbuf (alphabet ++ 0 ∷ []) (index_of count)

abbrev pub letters : ℕ → Bytes
letters count = take (index_of count) alphabet

alphabet-IsText : IsText alphabet
alphabet-IsText = omega arith

pub length-letters : (count : ℕ) → length (letters count) ≡ index_of count
length-letters count = omega (arith, length-take (index_of count) alphabet)

pub fill_letters_lem :
    (sendbuf : Bytes) (count : ℕ)
    → 26 ≤ length sendbuf
    → fill_letters sendbuf count ≡ ok (letters count ++ drop (index_of count) sendbuf)
unfolding fill_letters
fill_letters_lem sendbuf count room =
    strncpy-IsText sendbuf (index_of count) alphabet (0 ∷ []) alphabet-IsText (omega arith)
      (omega arith)

pub length-filled :
    (sendbuf : Bytes) (count : ℕ)
    → 26 ≤ length sendbuf
    → length (letters count ++ drop (index_of count) sendbuf) ≡ length sendbuf
length-filled sendbuf count room = omega (
  arith,
  length-append (letters count) (drop (index_of count) sendbuf),
  length-letters count,
  length-drop (index_of count) sendbuf,
)

-- `sendbuf[index] = '\0'` on the occasions on which the text is printed.
unfoldable pub end_letters : Bytes → ℕ → Bool → Result Bytes
end_letters sendbuf count printing = if printing then put sendbuf (index_of count) 0 else ok sendbuf

pub end_letters_lem :
    (sendbuf : Bytes) (count : ℕ) (printing : Bool)
    → 27 ≤ length sendbuf
    → (buf : Bytes) × (end_letters sendbuf count printing ≡ ok buf) × (length buf ≡ length sendbuf)
unfolding end_letters
end_letters_lem sendbuf count true room = (
  set sendbuf (index_of count) 0,
  put_fits sendbuf (index_of count) 0 (omega arith),
  length-set sendbuf (index_of count) 0,
)
end_letters_lem sendbuf count false room = (sendbuf, refl, refl)
