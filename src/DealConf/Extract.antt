-- ===== src/DealConf/Extract.antt =====
-- src/dealConf.c: `extract`. It returns the new contents of the buffer `dest` and of the static
-- buffer `newcontent`. `minlen` and `maxlen` are not negative, as in every call of the program.
use netfilter.Base.{
  ℕ, ◌+◌, ◌-◌, ◌%◌, ◌^◌, [], ◌∷◌, ◌++◌, Option, none, some, Bytes, length, ltb, leb, ◌==◌,
  if◌then◌else◌, Result, ok, ◌>>=◌,
}
use netfilter.Memory.{c_str, strlen, advance, strstr, write_text, put, strncpy}

-- src/dealConf.h: CONTENTMAXLEN
abbrev pub content_max_len : ℕ
content_max_len = 100

abbrev pub open_tag : Bytes → Bytes
open_tag name = b'<' ∷ (name ++ b'>' ∷ [])

abbrev pub close_tag : Bytes → Bytes
close_tag name = b'<' ∷ b'/' ∷ (name ++ b'>' ∷ [])

-- dest[0] = '\0'; return;
abbrev pub clear : Bytes → Bytes → Result (Bytes × Bytes)
clear newcontent dest = do dest' ← put dest 0 0; ok (dest', newcontent)

-- Both tags are there: `begin` and `end` point behind the first and at the second.
-- `maxlen - 1` is passed as a `size_t`.
unfoldable pub copy_content : Bytes → Bytes → Bytes → Bytes → ℕ → Result (Bytes × Bytes)
copy_content newcontent dest begin end maxlen =
    let size = length begin - length end in
    let count = if leb maxlen size then (maxlen + 2 ^ 64 - 1) % 2 ^ 64 else size in
    if size == 0
    then clear newcontent dest
    else do copied ← strncpy dest begin count; dest' ← put copied size 0; ok (dest', newcontent)

abbrev pub at_close_tag : Bytes → Bytes → Bytes → ℕ → Option Bytes → Result (Bytes × Bytes)
at_close_tag newcontent dest begin maxlen none = clear newcontent dest
at_close_tag newcontent dest begin maxlen (some end) = copy_content newcontent dest begin end maxlen

abbrev pub at_open_tag : Bytes → Bytes → Bytes → ℕ → ℕ → Option Bytes → Result (Bytes × Bytes)
at_open_tag newcontent dest content minlen maxlen none = clear newcontent dest
at_open_tag newcontent dest content minlen maxlen (some tag) = do
  width ← strlen newcontent
  begin ← advance tag width
  name ← c_str content
  newcontent' ← write_text newcontent (close_tag name)
  from ← advance begin minlen
  found ← strstr from newcontent'
  at_close_tag newcontent' dest begin maxlen found

unfoldable pub extract : Bytes → Bytes → Bytes → Bytes → ℕ → ℕ → Result (Bytes × Bytes)
extract newcontent dest content dat minlen maxlen = do
  name ← c_str content
  if ltb content_max_len (length name + 3) then clear newcontent dest else do
    newcontent' ← write_text newcontent (open_tag name)
    found ← strstr dat newcontent'
    at_open_tag newcontent' dest content minlen maxlen found

-- The `char *` of a string literal.
abbrev pub literal : Bytes → Bytes
literal s = s ++ 0 ∷ []
