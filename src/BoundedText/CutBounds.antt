-- ===== src/BoundedText/CutBounds.antt =====
-- What a cut text is (internal/boundedtext/boundedtext.go).
use kanban_store.Prelude.{
  ℕ, zero, suc, ◌-◌, ◌≤◌, Bool, true, List, [], ◌∷◌, ◌++◌, leb, length, length-append,
  if◌then◌else◌, ◌≡◌, ◌⊎◌, refl, sym, ap, ◌∙◌, arith, Bool-cases, inl, inr,
}
use kanban_store.BoundedText.Cut.{ellipsis, starts_at, rune_start, back_to_start, prefix, cut}

back_to_start-le : (bytes : List ℕ) (end : ℕ) → back_to_start bytes end ≤ end
unfolding back_to_start
back_to_start-le bytes zero = omega arith
back_to_start-le bytes (suc end) = ground (arith, back_to_start-le bytes end)

-- The place found is the start of the text or of a rune in it.
back_to_start-starts_at :
    (bytes : List ℕ) (end : ℕ)
    → (back_to_start bytes end ≡ 0) ⊎ (starts_at bytes (back_to_start bytes end) ≡ true)
unfolding back_to_start
back_to_start-starts_at bytes zero = inl refl
back_to_start-starts_at bytes (suc end) = elim (Bool-cases (starts_at bytes (suc end))) [
  | inl e ↦ inr (rw e e)
  | inr e ↦ rw e (back_to_start-starts_at bytes end)
]

unfoldable pub rest_after : ℕ → List ℕ → List ℕ
rest_after zero bytes = bytes
rest_after (suc n) [] = []
rest_after (suc n) (b ∷ bytes) = rest_after n bytes

prefix-rest_after : (n : ℕ) (bytes : List ℕ) → bytes ≡ prefix n bytes ++ rest_after n bytes
unfolding prefix rest_after
prefix-rest_after zero bytes = refl
prefix-rest_after (suc n) [] = refl
prefix-rest_after (suc n) (b ∷ bytes) = ap (λ t. b ∷ t) (prefix-rest_after n bytes)

length-prefix : (n : ℕ) (bytes : List ℕ) → length (prefix n bytes) ≤ n
unfolding prefix
length-prefix zero bytes = omega arith
length-prefix (suc n) [] = omega arith
length-prefix (suc n) (b ∷ bytes) = omega (arith, length-prefix n bytes)

-- The text, if it starts with a rune.
abbrev pub begins : List ℕ → Bool
begins [] = true
begins (b ∷ bytes) = rune_start b

starts_at-begins : (n : ℕ) (bytes : List ℕ) → starts_at bytes n ≡ begins (rest_after n bytes)
unfolding starts_at rest_after
starts_at-begins zero [] = refl
starts_at-begins zero (b ∷ bytes) = refl
starts_at-begins (suc n) [] = refl
starts_at-begins (suc n) (b ∷ bytes) = starts_at-begins n bytes

-- A text that was cut is some first part of it, between two runes, and the ellipsis.
pub record IsCut (bytes shown : List ℕ) : Type 0 where
  pub first : List ℕ
  pub left : List ℕ
  pub whole : bytes ≡ first ++ left
  pub shown_as : shown ≡ first ++ ellipsis
  pub between_runes : (first ≡ []) ⊎ (begins left ≡ true)

back_to_start-IsCut :
    (bytes : List ℕ) (n : ℕ) → IsCut bytes (prefix (back_to_start bytes n) bytes ++ ellipsis)
unfolding prefix
back_to_start-IsCut bytes n =
    let end = back_to_start bytes n in
    record {
      first = prefix end bytes;
      left = rest_after end bytes;
      whole = prefix-rest_after end bytes;
      shown_as = refl;
      between_runes = elim (back_to_start-starts_at bytes n) [
        | inl e ↦ inl (ap (λ k. prefix k bytes) e)
        | inr e ↦ inr (sym (starts_at-begins end bytes) ∙ e)
      ];
    }

-- A text is shown whole if its length is at most the limit; otherwise what is shown is a first part of
-- the text that ends between two runes, followed by an ellipsis, and a limit of three bytes or more is
-- kept in either case.
pub cut-IsCut :
    (bytes : List ℕ) (limit : ℕ)
    → 3 ≤ limit
    → (length (cut bytes limit) ≤ limit)
      × (if leb (length bytes) limit
          then cut bytes limit ≡ bytes
          else IsCut bytes (cut bytes limit))
unfolding cut
cut-IsCut bytes limit h = elim (Bool-cases (leb (length bytes) limit)) [
  | inl e ↦ rw e (ground arith, refl)
  | inr e ↦ elim (Bool-cases (leb limit 3)) [
    | inl three ↦
        rw (e, three)
          (
            omega arith,
            record {
              first = [];
              left = bytes;
              whole = refl;
              shown_as = refl;
              between_runes = inl refl;
            },
          )
    | inr more ↦
        let end = back_to_start bytes (limit - 3) in
        let within = back_to_start-le bytes (limit - 3) in
        let short = length-prefix end bytes in
        rw (e, more)
          (
            ground (arith, length-append (prefix end bytes) ellipsis),
            back_to_start-IsCut bytes (limit - 3),
          )
  ]
]
