-- ===== src/DealConf/Content.antt =====
-- src/dealConf.c: the tags of `extract`, and the content between them, as texts.
use netfilter.Base.{
  ◌+◌, ◌≤◌, ◌≡◌, ap, [], ◌∷◌, ◌++◌, some, inl, inr, arith, Bytes, length, length-append,
  Option-cases,
}
use netfilter.Memory.Text.{IsText, IsText-append}
use netfilter.Memory.Search.{split_on, split_on-eq-some, split_on-IsText}
use netfilter.DealConf.Extract.{open_tag, close_tag}
use netfilter.DealConf.Spec.{content_of, or_empty}

pub open_tag-IsText : (name : Bytes) → IsText name → IsText (open_tag name)
open_tag-IsText name h = (omega arith, IsText-append name (b'>' ∷ []) h (omega arith))

pub close_tag-IsText : (name : Bytes) → IsText name → IsText (close_tag name)
close_tag-IsText name h =
    (omega arith, (omega arith, IsText-append name (b'>' ∷ []) h (omega arith)))

pub length-open_tag : (name : Bytes) → length (open_tag name) ≡ length name + 2
length-open_tag name = omega (arith, length-append name (b'>' ∷ []))

pub length-close_tag : (name : Bytes) → length (close_tag name) ≡ length name + 3
length-close_tag name = omega (arith, length-append name (b'>' ∷ []))

-- Where a content comes from.
pub content_of-eq-some :
    (name t : Bytes) {body : Bytes}
    → content_of name t ≡ some body
    → (a : Bytes) × (b : Bytes) × (d : Bytes) × (split_on (open_tag name) t ≡ some (a, b))
      × (split_on (close_tag name) b ≡ some (body, d))
unfolding content_of
content_of-eq-some name t e = elim (Option-cases (split_on (open_tag name) t)) [
  | inl no_open ↦ ground (arith, no_open)
  | inr ((a, b), opened) ↦ elim (Option-cases (split_on (close_tag name) b)) [
    | inl no_close ↦ ground (arith, opened, no_close)
    | inr ((c, d), closed) ↦ (a, b, d, opened, ground (arith, opened, closed))
  ]
]

-- A content is a text, and no longer than the text it stands in.
pub content_of-IsText :
    (name t : Bytes) {body : Bytes}
    → content_of name t ≡ some body
    → IsText t
    → IsText body × (length body ≤ length t)
content_of-IsText name t {body} e h =
    let (a, b, d, opened, closed) = content_of-eq-some name t e in
    let tb = (split_on-IsText (open_tag name) t opened h).1 in
    let outer : length t ≡ length (a ++ (open_tag name ++ b)) =
      ap length (split_on-eq-some (open_tag name) t opened) in
    let inner : length b ≡ length (body ++ (close_tag name ++ d)) =
      ap length (split_on-eq-some (close_tag name) b closed) in
    (
      (split_on-IsText (close_tag name) b closed tb).0,
      omega (
        arith,
        outer,
        inner,
        length-append a (open_tag name ++ b),
        length-append (open_tag name) b,
        length-append body (close_tag name ++ d),
      ),
    )

-- What `extract` is to deliver.
pub or_empty-IsText : (name t : Bytes) → IsText t → IsText (or_empty (content_of name t))
or_empty-IsText name t h = elim (Option-cases (content_of name t)) [
  | inl missing ↦ rw missing tt
  | inr (body, there) ↦ rw there (content_of-IsText name t there h).0
]
