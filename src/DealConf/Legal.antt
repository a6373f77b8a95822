-- ===== src/DealConf/Legal.antt =====
-- src/dealConf.c: `isLegal`, the check of a packet's shape, against a reading of texts.
pub mod Checks
pub mod Notes
use netfilter.Base.{
  ℕ, zero, suc, ◌+◌, ◌-◌, ◌*◌, ◌/◌, ◌%◌, ◌^◌, ◌≤◌, ◌<◌, ◌≡◌, ◌≢◌, ◌↔◌, ◌⊎◌, refl, sym, ap, ap₂, ◌∙◌,
  subst, Bool, true, false, not, ◌&&◌, ◌||◌, List, [], ◌∷◌, ◌++◌, append_assoc, append-nil, Option,
  none, some, inl, inr, arith, Bytes, codes, length, set, get_or, take, drop, replicate,
  length-append, length-set, length-take, length-drop, length-replicate, drop-append, take-append,
  take-append-drop, set-append, take_all, drop-drop_one, ltb, leb, ◌==◌, if◌then◌else◌, Bool-cases,
  Option-cases, le→leb, lt→leb_false, lt→ltb, le→ltb_false, ==_iff, ==_refl, Result, Result-cases,
  ok, fault, Fault, read_overrun, write_overrun, use_after_free, null_dereference, ◌>>=◌, >>=-eq-ok,
  Ensures, >>=-Ensures,
}
use netfilter.Memory.{c_str, strlen, advance, starts_with, strstr}
use netfilter.Memory.Text.{
  IsText, IsText-right, holding, c_str-holding, advance-append, starts_with-eq,
}
use netfilter.Memory.Search.{split_on, split_on-IsText, place, strstr-split_on}
use netfilter.DealConf.Extract.{literal}

abbrev pub minal_size : ℕ
minal_size = 97

abbrev pub head : Bytes
head = codes "<?xml version='1.0' encoding='gb2312' ?>"

-- `data = strstr(data, n)`, the return if there is none, and `data += width`.
abbrev pub skip : ℕ → (Bytes → Result Bool) → Option Bytes → Result Bool
skip width next none = ok false
skip width next (some q) = advance q width >>= next

unfoldable pub past : Bytes → ℕ → (Bytes → Result Bool) → Bytes → Result Bool
past n width next p = strstr p (literal n) >>= skip width next

abbrev pub is_some : Option Bytes → Bool
is_some none = false
is_some (some q) = true

-- The last search.
unfoldable pub at_note_end : Bytes → Result Bool
at_note_end p = do found ← strstr p (literal (codes "</note>")); ok (is_some found)

-- From the title on.
unfoldable pub at_title : Bytes → Result Bool
at_title = past (codes "<title>") 7 (
    past (codes "</title>") 8
      (past (codes "<message>") 9 (past (codes "</message>") 10 at_note_end)))

-- The skip behind the note tag is `strlen("<note id=\"0\">")`, longer than what was found.
unfoldable pub is_legal : Option Bytes → Result Bool
is_legal none = ok false
is_legal (some dat) = do
  size ← strlen dat
  if ltb size minal_size then ok false else do
    s ← c_str dat
    if not (starts_with head s)
        then ok false
        else do body ← advance dat (length head); past (codes "<note id=") 13 at_title body

-- The same on texts.
abbrev pub behind_place : (Bytes → Bool) → Option (Bytes × Bytes) → Bool
behind_place next none = false
behind_place next (some (a, b)) = next b

unfoldable pub behind : Bytes → (Bytes → Bool) → Bytes → Bool
behind n next t = behind_place next (split_on n t)

unfoldable pub has_title : Bytes → Bool
has_title = behind (codes "<title>") (
    behind (codes "</title>") (
      behind (codes "<message>")
        (behind (codes "</message>") (behind (codes "</note>") (λ b. true)))))

-- A text of 97 bytes or more: the head; then, each behind the one before, a note tag and four bytes,
-- a title, a message, and the end of the note.
unfoldable pub legal : Bytes → Bool
legal t =
    leb minal_size (length t)
    && (starts_with head t
        && behind (codes "<note id=") (λ b. has_title (drop 4 b)) (drop (length head) t))
