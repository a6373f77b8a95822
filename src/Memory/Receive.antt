-- ===== src/Memory/Receive.antt =====
-- Bytes received into a buffer, and the NUL that is put behind them.
use netfilter.Base.{
  ℕ, suc, ◌≤◌, ◌<◌, ◌≡◌, refl, [], ◌∷◌, ◌++◌, inl, inr, arith, Bytes, length, take, drop,
  length-append, length-take, length-drop, drop-drop_one, leb, Bool-cases, le→leb, lt→leb_false, ok,
  fault, write_overrun, ◌>>=◌,
}
use netfilter.Base.Lists.{take_long}
use netfilter.Memory.{c_str, put, write}
use netfilter.Memory.Text.{text_of}
use netfilter.Memory.Copy.{put-append, put_overrun}

pub write_fits :
    (buf s : Bytes) → length s ≤ length buf → write buf s ≡ ok (s ++ drop (length s) buf)
unfolding write
write_fits buf s h = rw (le→leb (length s) (length buf) h)

pub write_overrun_lem : (buf s : Bytes) → length buf < length s → write buf s ≡ fault write_overrun
unfolding write
write_overrun_lem buf s h = rw (lt→leb_false (length s) (length buf) h)

-- A NUL behind any bytes ends their text.
pub c_str-text_of : (p rest : Bytes) → c_str (p ++ (0 ∷ rest)) ≡ ok (text_of p)
unfolding c_str text_of
c_str-text_of [] rest = refl
c_str-text_of (c ∷ p) rest = ground (arith, c_str-text_of p rest)

-- A buffer with bytes and a NUL behind them.
abbrev pub ended : Bytes → Bytes → Bytes
ended bytes buf = bytes ++ (0 ∷ drop (suc (length bytes)) buf)

pub length-ended :
    (bytes buf : Bytes) → length bytes < length buf → length (ended bytes buf) ≡ length buf
length-ended bytes buf h = omega (
  arith,
  length-append bytes (0 ∷ drop (suc (length bytes)) buf),
  length-drop (suc (length bytes)) buf,
)

module _ (buf bytes : Bytes) (limit : ℕ) where
  -- Bytes that leave room for the NUL.
  pub recv-ended :
      length bytes ≤ limit
      → length bytes < length buf
      → (write buf (take limit bytes) >>= λ filled. put filled (length (take limit bytes)) 0)
        ≡ ok (ended bytes buf)
  recv-ended fits room =
      let back = drop (length bytes) buf in
      rw
        (
          take_long limit bytes fits,
          write_fits buf bytes (omega arith),
          put-append bytes back 0 (omega (arith, length-drop (length bytes) buf)),
          drop-drop_one (length bytes) buf,
        )
        refl

  -- Bytes that fill the buffer or more, where the limit allows as many.
  pub recv_overrun :
      length buf ≤ limit
      → length buf ≤ length bytes
      → (write buf (take limit bytes) >>= λ filled. put filled (length (take limit bytes)) 0)
        ≡ fault write_overrun
  recv_overrun wide long =
      let n = length (take limit bytes) in
      let size : length buf ≤ n = omega (arith, length-take limit bytes) in
      elim (Bool-cases (leb n (length buf))) [
        | inl full ↦
            rw
              (
                write_fits buf (take limit bytes) (ground arith),
                put_overrun (take limit bytes ++ drop n buf) n 0 (
                    omega
                      (arith, length-append (take limit bytes) (drop n buf), length-drop n buf)),
              )
              refl
        | inr over ↦ rw (write_overrun_lem buf (take limit bytes) (ground arith)) refl
      ]
