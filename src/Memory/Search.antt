-- ===== src/Memory/Search.antt =====
-- `strstr` against a plain search in texts, without memory: `split_on n t` splits the text `t` at the
-- first place where `n` stands.
use netfilter.Base.{
  ℕ, suc, ◌≤◌, ◌≡◌, ◌≢◌, refl, ap, ◌∙◌, [], ◌∷◌, ◌++◌, append_assoc, Option, none, some, inl, inr,
  arith, subst, Bytes, length, drop, drop-append, if◌then◌else◌, Bool-cases, Option-cases, ok,
}
use netfilter.Memory.{starts_with, search, strstr}
use netfilter.Memory.Text.{
  IsText, IsText-left, IsText-right, holding, c_str-holding, starts_with-append, starts_with-eq,
}

-- The parts before and behind the place.
abbrev pub cons_before : ℕ → Option (Bytes × Bytes) → Option (Bytes × Bytes)
cons_before c none = none
cons_before c (some (a, b)) = some (c ∷ a, b)

unfoldable pub split_on : Bytes → Bytes → Option (Bytes × Bytes)
split_on n [] = none
split_on n (c ∷ t) =
    let later = cons_before c (split_on n t) in
    if starts_with n (c ∷ t) then some ([], drop (length n) (c ∷ t)) else later

-- What is found stands there.
pub split_on-eq-some : (n t : Bytes) {a b : Bytes} → split_on n t ≡ some (a, b) → t ≡ a ++ (n ++ b)
unfolding split_on
split_on-eq-some n [] e = cc
split_on-eq-some n (c ∷ t) e = elim (Option-cases (split_on n t)) [
  | inl h ↦ ground (arith, h, starts_with-eq n (c ∷ t))
  | inr ((a, b), h) ↦ ground (arith, h, starts_with-eq n (c ∷ t), split_on-eq-some n t h)
]

-- The parts of a text are texts.
pub split_on-IsText :
    (n t : Bytes) {a b : Bytes} → split_on n t ≡ some (a, b) → IsText t → IsText a × IsText b
split_on-IsText n t {a} {b} e h =
    let parts : IsText (a ++ (n ++ b)) = subst IsText (split_on-eq-some n t e) h in
    (IsText-left a (n ++ b) parts, IsText-right n b (IsText-right a (n ++ b) parts))

-- A place is found wherever there is one, and no later than that.
pub split_on-first :
    (x : ℕ) (n a b : Bytes)
    → (a' : Bytes) × (b' : Bytes) × (split_on (x ∷ n) (a ++ ((x ∷ n) ++ b)) ≡ some (a', b'))
      × (length a' ≤ length a)
unfolding split_on
split_on-first x n [] b =
    ([], b, ground (arith, starts_with-append (x ∷ n) b, drop-append n b), omega arith)
split_on-first x n (c ∷ a) b =
    let whole = c ∷ (a ++ ((x ∷ n) ++ b)) in
    let (a', b', found, shorter) = split_on-first x n a b in
    elim (Bool-cases (starts_with (x ∷ n) whole)) [
      | inl y ↦ ([], drop (suc (length n)) whole, rw y, omega arith)
      | inr f ↦ (c ∷ a', b', rw (f, found), omega (arith, shorter))
    ]

abbrev pub Lacks : ℕ → Bytes → Type 0
Lacks x [] = Unit
Lacks x (c ∷ s) = (c ≢ x) × Lacks x s

pub Lacks-append : (x : ℕ) (s t : Bytes) → Lacks x s → Lacks x t → Lacks x (s ++ t)
Lacks-append x [] t hs ht = ht
Lacks-append x (c ∷ s) t hs ht = (hs.0, Lacks-append x s t hs.1 ht)

-- Where the first byte of the pattern is missing, no match starts.
pub split_on-Lacks :
    (x : ℕ) (n a b : Bytes) → Lacks x a → split_on (x ∷ n) (a ++ ((x ∷ n) ++ b)) ≡ some (a, b)
unfolding split_on starts_with
split_on-Lacks x n [] b l = ground (arith, starts_with-append (x ∷ n) b, drop-append n b)
split_on-Lacks x n (c ∷ a) b l = ground (arith, split_on-Lacks x n a b l.1)

pub split_on-Lacks-none : (x : ℕ) (n t : Bytes) → Lacks x t → split_on (x ∷ n) t ≡ none
unfolding split_on starts_with
split_on-Lacks-none x n [] l = refl
split_on-Lacks-none x n (c ∷ t) l = ground (arith, split_on-Lacks-none x n t l.1)

-- A pattern without NUL does not reach past the text.
starts_with-holding :
    (n p rest : Bytes) → IsText n → starts_with n (holding p rest) ≡ starts_with n p
unfolding starts_with
starts_with-holding [] p rest h = refl
starts_with-holding (x ∷ n) [] rest h = ground arith
starts_with-holding (x ∷ n) (c ∷ p) rest h = ground (arith, starts_with-holding n p rest h.1)

-- The pointer that a split stands for.
abbrev pub place : Bytes → Bytes → Option (Bytes × Bytes) → Option Bytes
place n rest none = none
place n rest (some (a, b)) = some (n ++ holding b rest)

search-split_on :
    (n t rest : Bytes)
    → IsText n
    → IsText t
    → search n (holding t rest) ≡ place n rest (split_on n t)
unfolding search split_on
search-split_on n [] rest hn ht = refl
search-split_on n (c ∷ t) rest hn ht = elim (Bool-cases (starts_with n (c ∷ t))) [
  | inl y ↦
      let d = drop (length n) (c ∷ t) in
      let whole : c ∷ holding t rest ≡ n ++ holding d rest =
        ap (λ l. holding l rest) (starts_with-eq n (c ∷ t) y) ∙ append_assoc n d (0 ∷ rest) in
      ground (arith, whole, starts_with-holding n (c ∷ t) rest hn)
  | inr f ↦ elim (Option-cases (split_on n t)) [
    | inl h ↦
        ground (arith, h, starts_with-holding n (c ∷ t) rest hn, search-split_on n t rest hn ht.1)
    | inr ((a, b), h) ↦
        ground (arith, h, starts_with-holding n (c ∷ t) rest hn, search-split_on n t rest hn ht.1)
  ]
]

pub strstr-split_on :
    (n nr t rest : Bytes)
    → IsText n
    → IsText t
    → strstr (holding t rest) (holding n nr) ≡ ok (place n rest (split_on n t))
unfolding strstr
strstr-split_on n nr t rest hn ht =
    rw (c_str-holding t rest ht, c_str-holding n nr hn, search-split_on n t rest hn ht)
