-- ===== src/Validation.antt =====
-- Values that several records share: identifiers, timestamps and content identities
-- (packages/core/src/validation.ts and packages/core/src/identity.ts).
use Prim.Native.Nat.{◌%◌}
use say_hi.Prelude.{
  ℕ, ◌+◌, ◌*◌, ◌-◌, ◌==◌, leb, ◌≡◌, refl, String, Bool, true, false, not, ◌&&◌, ◌||◌, Option, none,
  some, List, [], ◌∷◌, any, all, codes, is_empty, is_digit, is_hex, length, if◌then◌else◌,
}

unfoldable pub is_identifier : String → Bool
is_identifier s = not (is_empty s)

-- `/^sha256:[0-9a-f]{64}$/iu`: the flag `i` covers the prefix too.
abbrev is_letter : ℕ → ℕ → Bool
is_letter lower c = c == lower || c + 32 == lower

is_digest : List ℕ → Bool
unfolding is_hex
is_digest s = length s == 64 && all is_hex s

-- SHA256_DIGEST_PATTERN
unfoldable pub is_sha256_digest : String → Bool
unfolding is_digest codes
is_sha256_digest s = is_digest (codes s)

-- The letters `S` and `s` also match U+017F under the flags `iu`.
is_sha256_tag : List ℕ → Option (List ℕ)
is_sha256_tag (s ∷ h ∷ a ∷ t2 ∷ t5 ∷ t6 ∷ colon ∷ rest) =
    if (is_letter b's' s || s == 0x17f)
      && is_letter b'h' h
      && is_letter b'a' a
      && t2 == b'2'
      && t5 == b'5'
      && t6 == b'6'
      && colon == b':'
    then some rest
    else none
is_sha256_tag _ = none

unfoldable pub is_contract_identity : String → Bool
unfolding is_sha256_tag is_digest codes
is_contract_identity s = elim (is_sha256_tag (codes s)) [ none ↦ false | some d ↦ is_digest d ]

-- The dates on which UTC second 60 occurred.
abbrev known_utc_leap_second_dates : List String
known_utc_leap_second_dates =
    "1972-06-30" ∷ "1972-12-31" ∷ "1973-12-31" ∷ "1974-12-31" ∷ "1975-12-31" ∷ "1976-12-31"
    ∷ "1977-12-31" ∷ "1978-12-31" ∷ "1979-12-31" ∷ "1981-06-30" ∷ "1982-06-30" ∷ "1983-06-30"
    ∷ "1985-06-30" ∷ "1987-12-31" ∷ "1989-12-31" ∷ "1990-12-31" ∷ "1992-06-30" ∷ "1993-06-30"
    ∷ "1994-06-30" ∷ "1995-12-31" ∷ "1997-06-30" ∷ "1998-12-31" ∷ "2005-12-31" ∷ "2008-12-31"
    ∷ "2012-06-30" ∷ "2015-06-30" ∷ "2016-12-31" ∷ []

days_in_month : ℕ → ℕ → ℕ
days_in_month year month =
    if month == 2
    then if year % 4 == 0 && (not (year % 100 == 0) || year % 400 == 0) then 29 else 28
    else if month == 4 || month == 6 || month == 9 || month == 11
    then 30
    else 31

same_codes : List ℕ → List ℕ → Bool
same_codes [] [] = true
same_codes (c ∷ s) (d ∷ t) = c == d && same_codes s t
same_codes _ _ = false

-- What `Number` makes of a group of decimal digits.
abbrev decimal_from : ℕ → List ℕ → ℕ
decimal_from n [] = n
decimal_from n (d ∷ ds) = decimal_from (n * 10 + (d - b'0')) ds

abbrev decimal : List ℕ → ℕ
decimal digits = decimal_from 0 digits

-- `(?:[Zz]|\+00:00)$`
is_utc_zone : List ℕ → Bool
is_utc_zone (z ∷ []) = z == b'Z' || z == b'z'
is_utc_zone (p ∷ h1 ∷ h2 ∷ c ∷ m1 ∷ m2 ∷ []) =
    p == b'+' && h1 == b'0' && h2 == b'0' && c == b':' && m1 == b'0' && m2 == b'0'
is_utc_zone _ = false

-- `\d*(?:[Zz]|\+00:00)$`
is_digits_then_zone : List ℕ → Bool
unfolding is_utc_zone is_digit
is_digits_then_zone [] = false
is_digits_then_zone (c ∷ s) =
    let rest = is_digits_then_zone s in if is_digit c then rest else is_utc_zone (c ∷ s)

-- `(?:\.\d+)?(?:[Zz]|\+00:00)$`
is_timestamp_tail : List ℕ → Bool
unfolding is_digits_then_zone
is_timestamp_tail (dot ∷ d ∷ s) =
    if dot == b'.' then is_digit d && is_digits_then_zone s else is_utc_zone (dot ∷ d ∷ s)
is_timestamp_tail s = is_utc_zone s

is_valid_date_time : (year month day hour minute second : ℕ) → List ℕ → Bool
unfolding days_in_month codes same_codes
is_valid_date_time year month day hour minute second date =
    leb 1 month
    && leb month 12
    && leb 1 day
    && leb day (days_in_month year month)
    && leb hour 23
    && leb minute 59
    && (leb second 59
        || second == 60
          && hour == 23
          && minute == 59
          && any (λ d. same_codes (codes d) date) known_utc_leap_second_dates)

is_valid_utc_timestamp : List ℕ → Bool
unfolding is_timestamp_tail is_valid_date_time
is_valid_utc_timestamp
      (y1 ∷ y2 ∷ y3 ∷ y4 ∷ s1 ∷ m1 ∷ m2 ∷ s2 ∷ d1 ∷ d2 ∷ t ∷ h1 ∷ h2 ∷ c1 ∷ i1 ∷ i2 ∷ c2 ∷ n1 ∷ n2
        ∷ tail) =
    all is_digit (y1 ∷ y2 ∷ y3 ∷ y4 ∷ m1 ∷ m2 ∷ d1 ∷ d2 ∷ h1 ∷ h2 ∷ i1 ∷ i2 ∷ n1 ∷ n2 ∷ [])
    && s1 == b'-'
    && s2 == b'-'
    && (t == b'T' || t == b't')
    && c1 == b':'
    && c2 == b':'
    && is_timestamp_tail tail
    && is_valid_date_time (decimal (y1 ∷ y2 ∷ y3 ∷ y4 ∷ [])) (decimal (m1 ∷ m2 ∷ []))
        (decimal (d1 ∷ d2 ∷ [])) (decimal (h1 ∷ h2 ∷ [])) (decimal (i1 ∷ i2 ∷ []))
        (decimal (n1 ∷ n2 ∷ [])) (y1 ∷ y2 ∷ y3 ∷ y4 ∷ s1 ∷ m1 ∷ m2 ∷ s2 ∷ d1 ∷ d2 ∷ [])
is_valid_utc_timestamp _ = false

unfoldable pub is_timestamp : String → Bool
unfolding is_valid_utc_timestamp codes
is_timestamp s = is_valid_utc_timestamp (codes s)

leap_second : is_timestamp "2016-12-31T23:59:60.25Z" ≡ true
unfolding is_timestamp
leap_second = refl
