-- ===== src/DealConf/LongNames.antt =====
-- src/dealConf.c: `extract` at the longest names that its guard lets through.
use netfilter.Base.{
  ℕ, suc, ◌≡◌, refl, [], ◌∷◌, ◌++◌, some, arith, Bytes, length, drop, length-append, length-drop,
  fault, write_overrun,
}
use netfilter.Memory.Text.{IsText, holding, c_str-holding, advance-append}
use netfilter.Memory.Receive.{write_overrun_lem}
use netfilter.Memory.Search.{split_on}
use netfilter.DealConf.Extract.{content_max_len, open_tag, close_tag, extract}
use netfilter.DealConf.Content.{length-close_tag, length-open_tag, open_tag-IsText}
use netfilter.DealConf.Refine.{with_open, extract-at_open_tag}

-- For a tag buffer of the declared size and a name of 97 bytes, the longest that the guard lets
-- through: if its start tag stands in the data, writing the end tag overruns the tag buffer.
pub extract_tag_overrun :
    (newcontent dest name name_rest t rest : Bytes) (maxlen : ℕ) (a b : Bytes)
    → length newcontent ≡ content_max_len
    → IsText name
    → IsText t
    → length name ≡ 97
    → split_on (open_tag name) t ≡ some (a, b)
    → extract newcontent dest (holding name name_rest) (holding t rest) 0 maxlen
      ≡ fault write_overrun
extract_tag_overrun newcontent dest name name_rest t rest maxlen a b size name_text text longest
      opened =
    let nc = with_open newcontent dest name name_rest t rest maxlen name_text text size in
    rw
      (
        extract-at_open_tag newcontent dest name name_rest t rest maxlen name_text text size
            (omega arith),
        opened,
        c_str-holding (open_tag name) (drop (suc (length (open_tag name))) newcontent)
            (open_tag-IsText name name_text),
        advance-append (open_tag name) (holding b rest),
        c_str-holding name name_rest name_text,
        write_overrun_lem nc (close_tag name ++ 0 ∷ []) (
            omega (
              arith,
              size,
              length-append (close_tag name) (0 ∷ []),
              length-close_tag name,
              length-open_tag name,
              length-append (open_tag name) (0 ∷ drop (suc (length (open_tag name))) newcontent),
              length-drop (suc (length (open_tag name))) newcontent,
            )),
      )
      refl
