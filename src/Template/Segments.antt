-- ===== src/Template/Segments.antt =====
-- A template as a sequence of literal texts and placeholders, and what substitution does to it.
use mathlib.Core.List.{append_assoc}
use ara_notification_service.Common.{
  ℕ, ◌-◌, ◌≡◌, refl, sym, ◌∙◌, ap, inl, inr, arith, true, false, Bool-cases, if◌then◌else◌, none,
  some, is_some, List, [], ◌∷◌, ◌++◌, length, contains, Str, nat_key, str_key, ◌==◌, ==_iff,
}
use ara_notification_service.Tenant.Context.{strip_prefix}
use ara_notification_service.Template.Substitution.{replace_from, pattern_of}

pub data Segment : Type 0 where
  literal : Str → Segment
  placeholder : Str → Segment

abbrev pub print_one : Segment → Str
print_one (literal s) = s
print_one (placeholder key) = pattern_of key

-- The text of a template.
abbrev pub print : List Segment → Str
print [] = []
print (x ∷ xs) = print_one x ++ print xs

-- No `{` in the text.
abbrev pub NoOpen : Str → Type 0
NoOpen s = contains b'{' s ≡ false

-- No brace in the key.
abbrev pub IsKey : Str → Type 0
IsKey s = NoOpen s × (contains b'}' s ≡ false)

abbrev pub SegmentOk : Segment → Type 0
SegmentOk (literal s) = NoOpen s
SegmentOk (placeholder key) = IsKey key

abbrev pub SegmentsOk : List Segment → Type 0
SegmentsOk [] = Unit
SegmentsOk (x ∷ xs) = SegmentOk x × SegmentsOk xs

-- One variable in its placeholders.
abbrev pub fill_one : Str → Str → Segment → Segment
fill_one key text (literal s) = literal s
fill_one key text (placeholder k) = if key == k then literal text else placeholder k

abbrev pub fill : Str → Str → List Segment → List Segment
fill key text [] = []
fill key text (x ∷ xs) = fill_one key text x ∷ fill key text xs

module _ (key text : Str) (plain : IsKey key) where
  -- A byte that is not `{` starts no placeholder.
  replace_other :
      (x : ℕ) (s : Str)
      → (x == b'{') ≡ false
      → replace_from (pattern_of key) text 0 (x ∷ s) ≡ x ∷ replace_from (pattern_of key) text 0 s
  unfolding replace_from strip_prefix
  replace_other x s n = ground arith

  replace_literal :
      (l rest : Str)
      → NoOpen l
      → replace_from (pattern_of key) text 0 (l ++ rest)
        ≡ l ++ replace_from (pattern_of key) text 0 rest
  unfolding contains
  replace_literal [] rest n = refl
  replace_literal (x ∷ l) rest n =
      ground (arith, replace_literal l rest, replace_other x (l ++ rest))

  -- The bytes that a match has taken are passed over.
  replace_skip :
      (taken rest : Str)
      → replace_from (pattern_of key) text (length taken) (taken ++ rest)
        ≡ replace_from (pattern_of key) text 0 rest
  unfolding replace_from
  replace_skip [] rest = refl
  replace_skip (x ∷ taken) rest = replace_skip taken rest

  strip_prefix_self : (p rest : Str) → strip_prefix p (p ++ rest) ≡ some rest
  unfolding strip_prefix
  strip_prefix_self [] rest = refl
  strip_prefix_self (x ∷ p) rest = ground (arith, strip_prefix_self p rest)

  replace_match :
      (x : ℕ) (s : Str)
      → is_some (strip_prefix (pattern_of key) (x ∷ s)) ≡ true
      → replace_from (pattern_of key) text 0 (x ∷ s)
        ≡ text ++ replace_from (pattern_of key) text (length (pattern_of key) - 1) s
  unfolding replace_from
  replace_match x s h = rw h refl

  replace_miss :
      (x : ℕ) (s : Str)
      → strip_prefix (pattern_of key) (x ∷ s) ≡ none
      → replace_from (pattern_of key) text 0 (x ∷ s) ≡ x ∷ replace_from (pattern_of key) text 0 s
  unfolding replace_from
  replace_miss x s h = rw (ap is_some h) refl

  replace_own :
      (rest : Str)
      → replace_from (pattern_of key) text 0 (pattern_of key ++ rest)
        ≡ text ++ replace_from (pattern_of key) text 0 rest
  replace_own rest =
      let taken : Str = b'{' ∷ (key ++ b'}' ∷ b'}' ∷ []) in
      let size : length (pattern_of key) - 1 ≡ length taken = omega arith in
      replace_match b'{' (taken ++ rest) (ap is_some (strip_prefix_self (pattern_of key) rest))
      ∙ ap (λ n. text ++ replace_from (pattern_of key) text n (taken ++ rest)) size
      ∙ ap (λ s. text ++ s) (replace_skip taken rest)

  strip_prefix-brace : (p s : Str) → strip_prefix (b'{' ∷ p) (b'{' ∷ s) ≡ strip_prefix p s
  unfolding strip_prefix
  strip_prefix-brace p s = ground arith

  strip_prefix-braces :
      (p s : Str) → strip_prefix (b'{' ∷ b'{' ∷ p) (b'{' ∷ b'{' ∷ s) ≡ strip_prefix p s
  strip_prefix-braces p s = strip_prefix-brace (b'{' ∷ p) (b'{' ∷ s) ∙ strip_prefix-brace p s

  -- Where another key stands, the pattern does not match.
  strip_prefix-key :
      (p k rest : Str)
      → IsKey p
      → IsKey k
      → (p == k) ≡ false
      → strip_prefix (p ++ b'}' ∷ b'}' ∷ []) (k ++ b'}' ∷ b'}' ∷ rest) ≡ none
  unfolding strip_prefix contains
  strip_prefix-key [] [] rest hp hk n = ground arith
  strip_prefix-key [] (y ∷ k) rest hp hk n = ground arith
  strip_prefix-key (x ∷ p) [] rest hp hk n = ground arith
  strip_prefix-key (x ∷ p) (y ∷ k) rest hp hk n = ground (arith, strip_prefix-key p k rest)

  strip_prefix-open :
      (p k rest : Str) → NoOpen k → strip_prefix (b'{' ∷ p) (k ++ b'}' ∷ b'}' ∷ rest) ≡ none
  unfolding strip_prefix contains
  strip_prefix-open p [] rest n = ground arith
  strip_prefix-open p (x ∷ k) rest n = ground arith

  NoOpen-close : (k : Str) → NoOpen k → NoOpen (k ++ b'}' ∷ b'}' ∷ [])
  unfolding contains
  NoOpen-close [] n = ground arith
  NoOpen-close (x ∷ k) n = ground (arith, NoOpen-close k)

  replace_another :
      (k rest : Str)
      → IsKey k
      → (key == k) ≡ false
      → replace_from (pattern_of key) text 0 (pattern_of k ++ rest)
        ≡ pattern_of k ++ replace_from (pattern_of key) text 0 rest
  replace_another k rest ok n =
      let closed : Str = b'}' ∷ b'}' ∷ [] in
      let tail : Str = (k ++ closed) ++ rest in
      let shape : tail ≡ k ++ b'}' ∷ b'}' ∷ rest = append_assoc k closed rest in
      let miss : strip_prefix (pattern_of key) (b'{' ∷ b'{' ∷ tail) ≡ none =
        rw shape (strip_prefix-braces _ _ ∙ strip_prefix-key key k rest plain ok n) in
      let miss_again : strip_prefix (pattern_of key) (b'{' ∷ tail) ≡ none =
        rw shape (strip_prefix-brace _ _ ∙ strip_prefix-open (key ++ closed) k rest ok.0) in
      replace_miss b'{' (b'{' ∷ tail) miss
      ∙ ap (λ s. b'{' ∷ s)
          (replace_miss b'{' tail miss_again
            ∙ ap (λ s. b'{' ∷ s) (replace_literal (k ++ closed) rest (NoOpen-close k ok.0)))

  replace_segment :
      (x : Segment) (rest : Str)
      → SegmentOk x
      → replace_from (pattern_of key) text 0 (print_one x ++ rest)
        ≡ print_one (fill_one key text x) ++ replace_from (pattern_of key) text 0 rest
  replace_segment (literal s) rest h = replace_literal s rest h
  replace_segment (placeholder k) rest h = elim (Bool-cases (key == k)) [
    | inl e ↦ rw e (
        ap (λ j. replace_from (pattern_of key) text 0 (pattern_of j ++ rest))
          (sym ((==_iff key k).0 e))
        ∙ replace_own rest)
    | inr e ↦ rw e (replace_another k rest h e)
  ]

  pub replace_print :
      (xs : List Segment)
      → SegmentsOk xs
      → replace_from (pattern_of key) text 0 (print xs) ≡ print (fill key text xs)
  unfolding replace_from
  replace_print [] h = refl
  replace_print (x ∷ xs) (h, hs) =
      replace_segment x (print xs) h
      ∙ ap (λ s. print_one (fill_one key text x) ++ s) (replace_print xs hs)

fill_one-SegmentOk :
    (key text : Str) (x : Segment) → NoOpen text → SegmentOk x → SegmentOk (fill_one key text x)
fill_one-SegmentOk key text (literal s) n h = h
fill_one-SegmentOk key text (placeholder k) n h = elim (Bool-cases (key == k)) [
  | inl e ↦ rw e n
  | inr e ↦ rw e h
]

pub fill-SegmentsOk :
    (key text : Str) (xs : List Segment)
    → NoOpen text
    → SegmentsOk xs
    → SegmentsOk (fill key text xs)
fill-SegmentsOk key text [] n h = tt
fill-SegmentsOk key text (x ∷ xs) n (h, hs) =
    (fill_one-SegmentOk key text x n h, fill-SegmentsOk key text xs n hs)
