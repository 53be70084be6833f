-- ===== src/RepositoryPath.antt =====
-- Paths inside the repository (packages/core/src/repository-path.ts).
use say_hi.Prelude.{
  ℕ, ◌==◌, ◌≡◌, refl, String, Bool, true, false, not, ◌&&◌, ◌||◌, List, [], ◌∷◌, ◌++◌, any, codes,
  leb, if◌then◌else◌,
}

-- A character in front of the first segment.
abbrev extend : ℕ → List (List ℕ) → List (List ℕ)
extend c [] = (c ∷ []) ∷ []
extend c (segment ∷ segments) = (c ∷ segment) ∷ segments

-- `text.split("/")`, over code points.
unfoldable pub split_slash : List ℕ → List (List ℕ)
split_slash [] = [] ∷ []
split_slash (c ∷ s) = let rest = split_slash s in if c == b'/' then [] ∷ rest else extend c rest

starts_with_slash : List ℕ → Bool
starts_with_slash [] = false
starts_with_slash (c ∷ s) = c == b'/'

abbrev is_letter : ℕ → Bool
is_letter c = leb b'A' c && leb c b'Z' || leb b'a' c && leb c b'z'

-- `/^[A-Za-z]:\//u`
starts_with_drive : List ℕ → Bool
starts_with_drive (d ∷ colon ∷ slash ∷ s) = is_letter d && colon == b':' && slash == b'/'
starts_with_drive s = false

abbrev is_parent_segment : List ℕ → Bool
is_parent_segment (a ∷ b ∷ []) = a == b'.' && b == b'.'
is_parent_segment s = false

unfoldable pub is_repository_relative_codes : List ℕ → Bool
unfolding split_slash starts_with_slash starts_with_drive
is_repository_relative_codes [] = false
is_repository_relative_codes (c ∷ s) =
    not (starts_with_slash (c ∷ s))
    && not (any (λ d. d == 92) (c ∷ s))
    && not (starts_with_drive (c ∷ s))
    && not (any is_parent_segment (split_slash (c ∷ s)))

unfoldable pub is_repository_relative_path : String → Bool
unfolding is_repository_relative_codes codes
is_repository_relative_path path = is_repository_relative_codes (codes path)

abbrev is_kept_segment : List ℕ → Bool
is_kept_segment [] = false
is_kept_segment (c ∷ []) = not (c == b'.')
is_kept_segment s = true

abbrev keep_segments : List (List ℕ) → List (List ℕ)
keep_segments [] = []
keep_segments (s ∷ segments) =
    let rest = keep_segments segments in if is_kept_segment s then s ∷ rest else rest

-- `segments.join("/")`
unfoldable pub join_slash : List (List ℕ) → List ℕ
join_slash [] = []
join_slash (s ∷ []) = s
join_slash (s ∷ t ∷ segments) = s ++ (b'/' ∷ join_slash (t ∷ segments))

unfoldable pub canonical_repository_relative_path : List ℕ → List ℕ
unfolding split_slash join_slash
canonical_repository_relative_path path = join_slash (keep_segments (split_slash path))

relative_inside : is_repository_relative_path "docs/spec.md" ≡ true
unfolding is_repository_relative_path
relative_inside = refl

relative_outside : is_repository_relative_path "docs/../../x" ≡ false
unfolding is_repository_relative_path
relative_outside = refl
