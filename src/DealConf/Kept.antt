-- ===== src/DealConf/Kept.antt =====
-- src/dealConf.c: `extract` keeps the sizes of its buffers, whatever they hold.
use netfilter.Base.{
  ℕ, ◌+◌, ◌-◌, ◌%◌, ◌^◌, ◌≡◌, ◌∙◌, Option, none, some, inl, inr, arith, Bytes, length, ltb, leb,
  ◌==◌, if◌then◌else◌, Bool-cases, Result, Ensures, >>=-Ensures,
}
use netfilter.Memory.{put, write_text, strncpy, strlen, advance, c_str, strstr}
use netfilter.Memory.Copy.{length-strncpy, length-put, length-write}
use netfilter.DealConf.Extract.{
  content_max_len, open_tag, close_tag, clear, copy_content, at_close_tag, at_open_tag, extract,
}

-- The two buffers that `extract` returns.
abbrev pub Kept : Bytes → Bytes → Bytes × Bytes → Type 0
Kept nc dest (x, nc') = (length x ≡ length dest) × (length nc' ≡ length nc)

clear-Kept : (nc dest : Bytes) → Ensures (Kept nc dest) (clear nc dest)
clear-Kept nc dest =
    >>=-Ensures _ (put dest 0 0) _ λ d e. λ (x, nc') last. ground (arith, length-put dest 0 0 d e)

copy_content-Kept :
    (nc dest begin end : Bytes) (maxlen : ℕ)
    → Ensures (Kept nc dest) (copy_content nc dest begin end maxlen)
unfolding copy_content
copy_content-Kept nc dest begin end maxlen =
    let size = length begin - length end in
    let count = if leb maxlen size then (maxlen + 2 ^ 64 - 1) % 2 ^ 64 else size in
    elim (Bool-cases (size == 0)) [
      | inl none_there ↦ λ r e. clear-Kept nc dest r (rw none_there at e)
      | inr some_there ↦ λ r e.
          (>>=-Ensures (Kept nc dest) (strncpy dest begin count) _ λ copied c.
              >>=-Ensures _ (put copied size 0) _ λ d p. λ (x, nc') last.
                ground (arith, length-strncpy dest begin count c, length-put copied size 0 d p))
            r (rw some_there at e)
    ]

at_close_tag-Kept :
    (nc dest begin : Bytes) (maxlen : ℕ) (found : Option Bytes)
    → Ensures (Kept nc dest) (at_close_tag nc dest begin maxlen found)
at_close_tag-Kept nc dest begin maxlen none = clear-Kept nc dest
at_close_tag-Kept nc dest begin maxlen (some end) = copy_content-Kept nc dest begin end maxlen

-- `newcontent` has been written again in between.
rewritten :
    (nc nc1 dest : Bytes) {r : Result (Bytes × Bytes)}
    → length nc1 ≡ length nc
    → Ensures (Kept nc1 dest) r
    → Ensures (Kept nc dest) r
rewritten nc nc1 dest same kept (x, nc') e = let k = kept (x, nc') e in (k.0, k.1 ∙ same)

at_open_tag-Kept :
    (nc dest content : Bytes) (minlen maxlen : ℕ) (found : Option Bytes)
    → Ensures (Kept nc dest) (at_open_tag nc dest content minlen maxlen found)
at_open_tag-Kept nc dest content minlen maxlen none = clear-Kept nc dest
at_open_tag-Kept nc dest content minlen maxlen (some tag) = >>=-Ensures _ (strlen nc) _ λ width _.
    >>=-Ensures _ (advance tag width) _ λ begin _. >>=-Ensures _ (c_str content) _ λ name _.
      >>=-Ensures _ (write_text nc (close_tag name)) _ λ nc1 w.
        >>=-Ensures _ (advance begin minlen) _ λ from _.
          >>=-Ensures _ (strstr from nc1) _ λ found _.
            rewritten nc nc1 dest (length-write nc _ nc1 w)
              (at_close_tag-Kept nc1 dest begin maxlen found)

pub extract-Kept :
    (nc dest content dat : Bytes) (minlen maxlen : ℕ)
    → Ensures (Kept nc dest) (extract nc dest content dat minlen maxlen)
unfolding extract
extract-Kept nc dest content dat minlen maxlen = >>=-Ensures _ (c_str content) _ λ name _.
    elim (Bool-cases (ltb content_max_len (length name + 3))) [
      | inl long ↦ λ r e. clear-Kept nc dest r (rw long at e)
      | inr fits ↦ λ r e.
          (>>=-Ensures (Kept nc dest) (write_text nc (open_tag name)) _ λ nc1 w.
              >>=-Ensures _ (strstr dat nc1) _ λ found _.
                rewritten nc nc1 dest (length-write nc _ nc1 w)
                  (at_open_tag-Kept nc1 dest content minlen maxlen found))
            r (rw fits at e)
    ]
