-- ===== src/DealConf/Legal/Notes.antt =====
-- src/dealConf.c: `isLegal` and the notes that it accepts, as texts made of pieces.
use netfilter.Base.{
  ℕ, ◌≤◌, ◌≡◌, ◌↔◌, refl, sym, ap, ◌∙◌, subst, Bool, true, List, [], ◌∷◌, ◌++◌, append_assoc, some,
  inl, inr, arith, Bytes, codes, length, take, drop, length-append, length-take, drop-append,
  take-append-drop, Option-cases, le→leb, ok,
}
use netfilter.Memory.{starts_with}
use netfilter.Memory.Text.{IsText, holding, starts_with-eq, starts_with-append}
use netfilter.Memory.Search.{split_on, split_on-eq-some, split_on-first}
use netfilter.DealConf.Legal.{head, is_legal, legal, behind, has_title}
use netfilter.DealConf.Legal.Checks.{is_legal-legal}

-- The pieces stand in the text, each behind the one before.
abbrev pub InOrder : List Bytes → Bytes → Type 0
InOrder [] t = Unit
InOrder (n ∷ ns) t = (a : Bytes) × (b : Bytes) × (t ≡ a ++ (n ++ b)) × InOrder ns b

abbrev pub note_tags : List Bytes
note_tags =
    codes "<title>"
    ∷ codes "</title>"
    ∷ codes "<message>"
    ∷ codes "</message>"
    ∷ codes "</note>"
    ∷ []

-- A note of 97 bytes or more: the declaration of XML; somewhere behind it a note tag, and then four bytes,
-- whatever they are; and behind those a title, a message and the end of the note.
pub record IsNote (t : Bytes) : Type 0 where
  pub filler : Bytes
  pub id : Bytes
  pub inner : Bytes
  pub parts :
      t
      ≡ codes "<?xml version='1.0' encoding='gb2312' ?>"
        ++ (filler ++ (codes "<note id=" ++ (id ++ inner)))
  pub id_size : length id ≡ 4
  pub tags : InOrder note_tags inner
  pub is_long : 97 ≤ length t

suffix : (p q r s : Bytes) → p ++ q ≡ r ++ s → length p ≤ length r → q ≡ drop (length p) r ++ s
suffix [] q r s e h = e
suffix (c ∷ p) q [] s e h = absurd (omega arith)
suffix (c ∷ p) q (d ∷ r) s e h = suffix p q r s (ap (drop 1) e) (omega arith)

InOrder-append : (ns : List Bytes) (x t : Bytes) → InOrder ns t → InOrder ns (x ++ t)
InOrder-append [] x t h = tt
InOrder-append (n ∷ ns) x t (a, b, e, h) =
    (x ++ a, b, ap (λ s. x ++ s) e ∙ sym (append_assoc x a (n ++ b)), h)

-- The first place serves wherever any does.
first_serves :
    (x : ℕ) (n : Bytes) (a b : Bytes)
    → (a' : Bytes) × (y : Bytes) × (split_on (x ∷ n) (a ++ ((x ∷ n) ++ b)) ≡ some (a', y ++ b))
first_serves x n a b =
    let (a', b', found, earlier) = split_on-first x n a b in
    let m = x ∷ n in
    let same : (a' ++ m) ++ b' ≡ (a ++ m) ++ b =
      append_assoc a' m b'
      ∙ sym (split_on-eq-some m (a ++ (m ++ b)) found)
      ∙ sym (append_assoc a m b) in
    let later =
      suffix (a' ++ m) b' (a ++ m) b same
        (omega (arith, earlier, length-append a' m, length-append a m)) in
    (a', drop (length (a' ++ m)) (a ++ m), found ∙ ap (λ s. some (a', s)) later)

behind-InOrder :
    (x : ℕ) (n : Bytes) (ns : List Bytes) (next : Bytes → Bool)
    → ((t : Bytes) → (next t ≡ true) ↔ InOrder ns t)
    → (t : Bytes) → (behind (x ∷ n) next t ≡ true) ↔ InOrder ((x ∷ n) ∷ ns) t
unfolding behind
behind-InOrder x n ns next follows t = (there, back)
  where
    there : behind (x ∷ n) next t ≡ true → InOrder ((x ∷ n) ∷ ns) t
    there h = elim (Option-cases (split_on (x ∷ n) t)) [
      | inl missing ↦ absurd (ground (arith, missing))
      | inr ((a, b), found) ↦
          let so : next b ≡ true = rw found at h in
          (a, b, split_on-eq-some (x ∷ n) t found, (follows b).0 so)
    ]

    back : InOrder ((x ∷ n) ∷ ns) t → behind (x ∷ n) next t ≡ true
    back (a, b, e, h) =
        let (a', y, found) = first_serves x n a b in
        let so : next (y ++ b) ≡ true = (follows (y ++ b)).1 (InOrder-append ns y b h) in
        rw (e, found) so

has_title-InOrder : (t : Bytes) → (has_title t ≡ true) ↔ InOrder note_tags t
unfolding has_title
has_title-InOrder =
    let e = codes "</note>" in
    let d = codes "</message>" in
    let c = codes "<message>" in
    let b = codes "</title>" in
    behind-InOrder _ _ (b ∷ c ∷ d ∷ e ∷ []) _ (
      behind-InOrder _ _ (c ∷ d ∷ e ∷ []) _ (
        behind-InOrder _ _ (d ∷ e ∷ []) _ (
          behind-InOrder _ _ (e ∷ []) _ (behind-InOrder _ _ [] _ (λ t. ((λ u. tt), (λ u. refl)))))))

-- Behind the head: a note tag, four bytes, and the pieces of the note.
abbrev Body : Bytes → Type 0
Body t =
    (filler : Bytes) × (id : Bytes) × (inner : Bytes) × (t
      ≡ filler ++ (codes "<note id=" ++ (id ++ inner)))
    × (length id ≡ 4)
    × InOrder note_tags inner

abbrev Room : Bytes → Type 0
Room t = (a b : Bytes) → split_on (codes "<note id=") t ≡ some (a, b) → 4 ≤ length b

behind-Body :
    (t : Bytes)
    → Room t
    → (behind (codes "<note id=") (λ b. has_title (drop 4 b)) t ≡ true) ↔ Body t
unfolding behind
behind-Body t room = (there, back)
  where
    there : behind (codes "<note id=") (λ b. has_title (drop 4 b)) t ≡ true → Body t
    there h = elim (Option-cases (split_on (codes "<note id=") t)) [
      | inl missing ↦ absurd (ground (arith, missing))
      | inr ((a, b), found) ↦
          let so : has_title (drop 4 b) ≡ true = rw found at h in
          let fits = room a b found in
          let parts : t ≡ a ++ (codes "<note id=" ++ (take 4 b ++ drop 4 b)) =
            split_on-eq-some (codes "<note id=") t found
            ∙ ap (λ s. a ++ (codes "<note id=" ++ s)) (sym (take-append-drop 4 b)) in
          (
            a,
            take 4 b,
            drop 4 b,
            parts,
            omega (arith, length-take 4 b, fits),
            (has_title-InOrder (drop 4 b)).0 so,
          )
    ]

    back : Body t → behind (codes "<note id=") (λ b. has_title (drop 4 b)) t ≡ true
    back (a, id, inner, parts, size, tags) =
        let (a', y, found) = first_serves 60 (codes "note id=") a (id ++ inner) in
        let b = y ++ (id ++ inner) in
        let cut : drop 4 b ≡ drop (length (take 4 b)) (y ++ id) ++ inner =
          (suffix (take 4 b) (drop 4 b) (y ++ id) inner
            (take-append-drop 4 b ∙ sym (append_assoc y id inner))
            (omega (arith, length-take 4 b, length-append y id, size))) in
        let so : has_title (drop 4 b) ≡ true = (has_title-InOrder (drop 4 b)).1 (
          subst (InOrder note_tags) (sym cut)
            (InOrder-append note_tags (drop (length (take 4 b)) (y ++ id)) inner tags)) in
        rw (parts, found) so

legal-IsNote : (t : Bytes) → Room (drop 40 t) → (legal t ≡ true) ↔ IsNote t
unfolding legal
legal-IsNote t room = (there, back)
  where
    there : legal t ≡ true → IsNote t
    there h =
        let headed : starts_with head t ≡ true = ground (arith, h) in
        let (a, id, inner, parts, size, tags) =
          (behind-Body (drop 40 t) room).0 (ground (arith, h)) in
        record {
          filler = a;
          id = id;
          inner = inner;
          parts = starts_with-eq head t headed ∙ ap (λ s. head ++ s) parts;
          id_size = size;
          tags = tags;
          is_long = ground (arith, h);
        }

    back : IsNote t → legal t ≡ true
    back n =
        let body = n.filler ++ (codes "<note id=" ++ (n.id ++ n.inner)) in
        let parts : drop 40 t ≡ body = ap (drop 40) n.parts ∙ drop-append head body in
        let headed : starts_with head t ≡ true =
          ap (starts_with head) n.parts ∙ starts_with-append head body in
        let so =
          (behind-Body (drop 40 t) room).1 (n.filler, n.id, n.inner, parts, n.id_size, n.tags) in
        let long = le→leb 97 (length t) n.is_long in rw (long, headed, so) refl

-- For a text in memory, and at least four bytes of it behind the first note tag behind the head, if there
-- is one: `isLegal` ends without a fault, and accepts the text exactly when it has 97 bytes or more and is
-- the head, any bytes, a note tag, four bytes of any kind, and then, each behind the one before and with
-- any bytes between, the two tags of a title, the two of a message and the end of the note.
pub is_legal-IsNote :
    (t rest : Bytes)
    → IsText t
    → ((a b : Bytes) → split_on (codes "<note id=") (drop 40 t) ≡ some (a, b) → 4 ≤ length b)
    → (b : Bool) × (is_legal (some (holding t rest)) ≡ ok b) × ((b ≡ true) ↔ IsNote t)
is_legal-IsNote t rest text room = (legal t, is_legal-legal t rest text room, legal-IsNote t room)
