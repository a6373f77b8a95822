-- ===== src/DealConf/Spec.antt =====
-- src/dealConf.c: what `extract` promises, on texts without memory, and that the code keeps it.
use netfilter.Base.{
  ℕ, suc, ◌+◌, ◌-◌, ◌%◌, ◌^◌, ◌≤◌, ◌<◌, ◌≡◌, false, [], ◌++◌, Option, none, some, inl, inr, arith,
  Bytes, length, set, take, drop, length-append, length-take, length-drop, take_all, drop-drop_one,
  leb, ◌==◌, Bool-cases, le→leb, lt→leb_false, ok, fault, write_overrun,
}
use netfilter.Memory.Text.{IsText, holding}
use netfilter.Memory.Search.{split_on}
use netfilter.Memory.Copy.{
  strncpy-IsText, strncpy_overrun, put-append, put_empty, put_fits, put_overrun,
}
use netfilter.DealConf.Extract.{open_tag, close_tag, copy_content}

abbrev pub before : Option (Bytes × Bytes) → Option Bytes
before none = none
before (some (a, b)) = some a

abbrev pub content_behind : Bytes → Option (Bytes × Bytes) → Option Bytes
content_behind name none = none
content_behind name (some (a, b)) = before (split_on (close_tag name) b)

-- The content of the first tag `name` in a text, up to the first end tag behind it.
unfoldable pub content_of : Bytes → Bytes → Option Bytes
content_of name t = content_behind name (split_on (open_tag name) t)

-- What a missing tag stands for.
abbrev pub or_empty : Option Bytes → Bytes
or_empty none = []
or_empty (some s) = s

pub copy_content_empty :
    (newcontent dest end : Bytes) (maxlen : ℕ)
    → 0 < length dest
    → copy_content newcontent dest ([] ++ end) end maxlen
      ≡ ok (holding [] (drop 1 dest), newcontent)
unfolding copy_content
copy_content_empty newcontent dest end maxlen h =
    let size : length end - length end ≡ 0 = omega arith in rw (size, put_empty dest h)

pub copy_content_fits :
    (newcontent dest body end : Bytes) (maxlen : ℕ)
    → IsText body
    → 0 < length body
    → length body < maxlen
    → maxlen ≤ length dest
    → copy_content newcontent dest (body ++ end) end maxlen
      ≡ ok (holding body (drop (suc (length body)) dest), newcontent)
unfolding copy_content
copy_content_fits newcontent dest body end maxlen t p h l =
    let n = length body in
    let size : length (body ++ end) - length end ≡ n = omega (arith, length-append body end) in
    let some_size : (n == 0) ≡ false = ground arith in
    let room : 0 < length (drop n dest) = omega (arith, length-drop n dest) in
    rw (
      size,
      some_size,
      lt→leb_false maxlen n h,
      strncpy-IsText dest n body end t (omega arith) (omega arith),
      take_all body,
      put-append body (drop n dest) 0 room,
      drop-drop_one n dest,
    )

pub copy_content_long :
    (newcontent dest body end : Bytes) (maxlen : ℕ)
    → IsText body
    → 0 < maxlen
    → maxlen < 2 ^ 64
    → maxlen ≤ length body
    → length body < length dest
    → copy_content newcontent dest (body ++ end) end maxlen
      ≡ ok (set (take (maxlen - 1) body ++ drop (maxlen - 1) dest) (length body) 0, newcontent)
unfolding copy_content
copy_content_long newcontent dest body end maxlen t p w h l =
    let n = length body in
    let size : length (body ++ end) - length end ≡ n = omega (arith, length-append body end) in
    let some_size : (n == 0) ≡ false = ground arith in
    let count : (maxlen + 2 ^ 64 - 1) % 2 ^ 64 ≡ maxlen - 1 = omega arith in
    let copied = take (maxlen - 1) body ++ drop (maxlen - 1) dest in
    let kept : length copied ≡ length dest = omega (
      arith,
      length-append (take (maxlen - 1) body) (drop (maxlen - 1) dest),
      length-take (maxlen - 1) body,
      length-drop (maxlen - 1) dest,
    ) in
    rw (
      size,
      some_size,
      le→leb maxlen n h,
      count,
      strncpy-IsText dest (maxlen - 1) body end t (omega arith) (omega arith),
      put_fits copied n 0 (omega arith),
    )

pub copy_content_overrun :
    (newcontent dest body end : Bytes) (maxlen : ℕ)
    → IsText body
    → 0 < maxlen
    → maxlen < 2 ^ 64
    → maxlen ≤ length body
    → length dest ≤ length body
    → copy_content newcontent dest (body ++ end) end maxlen ≡ fault write_overrun
unfolding copy_content
copy_content_overrun newcontent dest body end maxlen t p w h l =
    let n = length body in
    let size : length (body ++ end) - length end ≡ n = omega (arith, length-append body end) in
    let some_size : (n == 0) ≡ false = ground arith in
    let count : (maxlen + 2 ^ 64 - 1) % 2 ^ 64 ≡ maxlen - 1 = omega arith in
    rw (size, some_size, le→leb maxlen n h, count)
      (elim (Bool-cases (leb (maxlen - 1) (length dest))) [
        | inl fits ↦
            let copied = take (maxlen - 1) body ++ drop (maxlen - 1) dest in
            let kept : length copied ≡ length dest = ground (
              arith,
              length-append (take (maxlen - 1) body) (drop (maxlen - 1) dest),
              length-take (maxlen - 1) body,
              length-drop (maxlen - 1) dest,
            ) in
            rw (
              strncpy-IsText dest (maxlen - 1) body end t (omega arith) (ground arith),
              put_overrun copied n 0 (omega arith),
            )
        | inr short ↦ rw (strncpy_overrun dest (body ++ end) (maxlen - 1) (ground arith))
      ])
