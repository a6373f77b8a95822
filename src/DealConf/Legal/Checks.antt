-- ===== src/DealConf/Legal/Checks.antt =====
-- src/dealConf.c: `isLegal` on texts, and on a note tag at the end of its array.
use netfilter.Base.{
  ℕ, ◌≤◌, ◌<◌, ◌≡◌, refl, ap, ◌∙◌, subst, Bool, true, false, ◌&&◌, [], ◌∷◌, ◌++◌, some, inl, inr,
  arith, Bytes, codes, length, drop, ltb, leb, if◌then◌else◌, Bool-cases, Option-cases, Result, ok,
  fault, read_overrun,
}
use netfilter.Memory.{c_str, advance, starts_with, strstr}
use netfilter.Memory.Text.{
  IsText, IsText-right, holding, c_str-holding, advance-append, starts_with-eq,
}
use netfilter.Memory.Search.{split_on, split_on-IsText, place, strstr-split_on}
use netfilter.DealConf.Legal.{
  minal_size, head, skip, past, at_note_end, at_title, is_legal, behind, has_title, legal,
}

-- One search and skip, where the skip is as long as what was found.
past-behind :
    (n : Bytes) (width : ℕ) (next : Bytes → Result Bool) (next' : Bytes → Bool) (rest : Bytes)
    → IsText n
    → width ≡ length n
    → ((b : Bytes) → IsText b → next (holding b rest) ≡ ok (next' b))
    → (t : Bytes) → IsText t
    → past n width next (holding t rest) ≡ ok (behind n next' t)
unfolding past behind
past-behind n width next next' rest hn w follows t ht = elim (Option-cases (split_on n t)) [
  | inl missing ↦ rw (strstr-split_on n [] t rest hn ht, missing) refl
  | inr ((a, b), there) ↦
      rw (strstr-split_on n [] t rest hn ht, there, w, advance-append n (holding b rest))
        (follows b (split_on-IsText n t there ht).1)
]

at_note_end-behind :
    (rest t : Bytes)
    → IsText t
    → at_note_end (holding t rest) ≡ ok (behind (codes "</note>") (λ b. true) t)
unfolding at_note_end behind
at_note_end-behind rest t ht = elim (Option-cases (split_on (codes "</note>") t)) [
  | inl missing ↦ rw (strstr-split_on (codes "</note>") [] t rest (omega arith) ht, missing) refl
  | inr ((a, b), there) ↦
      rw (strstr-split_on (codes "</note>") [] t rest (omega arith) ht, there) refl
]

at_title-has_title : (rest t : Bytes) → IsText t → at_title (holding t rest) ≡ ok (has_title t)
unfolding at_title has_title
at_title-has_title rest = past-behind (codes "<title>") 7 _ _ rest (omega arith) refl (
    past-behind (codes "</title>") 8 _ _ rest (omega arith) refl (
      past-behind (codes "<message>") 9 _ _ rest (omega arith) refl (
        past-behind (codes "</message>") 10 _ _ rest (omega arith) refl (at_note_end-behind rest))))

-- The note tag, with four bytes or more behind it.
past_note :
    (b rest : Bytes)
    → IsText b
    → 4 ≤ length b
    → skip 13 at_title (some (codes "<note id=" ++ holding b rest)) ≡ ok (has_title (drop 4 b))
past_note [] rest h l = absurd (omega arith)
past_note (w ∷ []) rest h l = absurd (omega arith)
past_note (w ∷ x ∷ []) rest h l = absurd (omega arith)
past_note (w ∷ x ∷ y ∷ []) rest h l = absurd (omega arith)
past_note (w ∷ x ∷ y ∷ z ∷ b) rest h l =
    rw (advance-append (codes "<note id=" ++ (w ∷ x ∷ y ∷ z ∷ [])) (holding b rest))
      (at_title-has_title rest b h.1.1.1.1)

-- The note tag at the end of the array.
past_note_overrun :
    (b : Bytes)
    → IsText b
    → length b < 4
    → skip 13 at_title (some (codes "<note id=" ++ holding b [])) ≡ fault read_overrun
unfolding advance at_title past strstr c_str
past_note_overrun [] h l = refl
past_note_overrun (w ∷ []) h l = refl
past_note_overrun (w ∷ x ∷ []) h l = refl
past_note_overrun (w ∷ x ∷ y ∷ []) h l = refl
past_note_overrun (w ∷ x ∷ y ∷ z ∷ b) h l = absurd (omega arith)

module _ (t rest : Bytes) (text : IsText t) where
  -- Up to the note tag.
  is_legal-note : is_legal (some (holding t rest)) ≡ (
      if leb minal_size (length t) && starts_with head t
      then skip 13 at_title
          (place (codes "<note id=") rest (split_on (codes "<note id=") (drop (length head) t)))
      else ok false)
  unfolding is_legal past
  is_legal-note = elim (Bool-cases (leb minal_size (length t))) [
    | inr short ↦ rw (c_str-holding t rest text, short) (ground arith)
    | inl long ↦ elim (Bool-cases (starts_with head t)) [
      | inr other ↦ rw (c_str-holding t rest text, long, other) (ground arith)
      | inl headed ↦
          let body = drop (length head) t in
          let whole : t ≡ head ++ body = starts_with-eq head t headed in
          let body_text : IsText body = IsText-right head body (subst IsText whole text) in
          let moved : advance (holding t rest) (length head) ≡ ok (holding body rest) =
            ap (λ p. advance (holding p rest) (length head)) whole
            ∙ advance-append head (holding body rest) in
          let fits : ltb (length t) minal_size ≡ false = ground arith in
          rw
            (
              c_str-holding t rest text,
              fits,
              long,
              headed,
              moved,
              strstr-split_on (codes "<note id=") [] body rest (omega arith) body_text,
            )
            refl
    ]
  ]

  headed_body :
      (leb minal_size (length t) && starts_with head t) ≡ true → IsText (drop (length head) t)
  headed_body h =
      let headed : starts_with head t ≡ true = ground arith in
      IsText-right head (drop (length head) t) (subst IsText (starts_with-eq head t headed) text)

  -- For a text in memory, and at least four bytes of it behind the first note tag if there is one:
  -- `isLegal` ends, and says what `legal` says of the text.
  pub is_legal-legal :
      ((a b : Bytes)
        → split_on (codes "<note id=") (drop (length head) t) ≡ some (a, b)
        → 4 ≤ length b)
      → is_legal (some (holding t rest)) ≡ ok (legal t)
  unfolding legal behind
  is_legal-legal room = elim (Bool-cases (leb minal_size (length t) && starts_with head t)) [
    | inr other ↦ is_legal-note ∙ ground (arith, other)
    | inl headed ↦ elim (Option-cases (split_on (codes "<note id=") (drop (length head) t))) [
      | inl missing ↦ is_legal-note ∙ rw (headed, missing) (ground (arith, headed))
      | inr ((a, b), there) ↦
          let body_text = headed_body headed in
          let tail_text =
            (split_on-IsText (codes "<note id=") (drop (length head) t) there body_text).1 in
          is_legal-note
          ∙ rw (headed, there)
              (past_note b rest tail_text (room a b there) ∙ ground (arith, headed))
    ]
  ]

-- A text of 97 bytes or more with the head, whose first note tag has less than four bytes behind it, in
-- an array that ends with it: `isLegal` reads behind the array.
pub is_legal_overrun :
    (t a b : Bytes)
    → IsText t
    → minal_size ≤ length t
    → starts_with head t ≡ true
    → split_on (codes "<note id=") (drop (length head) t) ≡ some (a, b)
    → length b < 4
    → is_legal (some (holding t [])) ≡ fault read_overrun
is_legal_overrun t a b text long headed there short =
    let both : (leb minal_size (length t) && starts_with head t) ≡ true = ground arith in
    let tail_text =
      (split_on-IsText (codes "<note id=") (drop (length head) t) there
        (headed_body t [] text both)).1 in
    is_legal-note t [] text ∙ rw (both, there) (past_note_overrun b tail_text short)
