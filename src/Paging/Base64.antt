-- ===== src/Paging/Base64.antt =====
-- `base64.RawURLEncoding.Strict()` as the cursors use it: no padding, the URL alphabet, line ends
-- skipped, and the bits that stand for no byte zero. A text is the list of its bytes.
use go_pulse.Base.{
  ℕ, ◌+◌, ◌-◌, ◌*◌, ◌/◌, ◌%◌, ◌<◌, ◌≡◌, refl, Bool, true, false, not, ◌&&◌, ◌||◌, Option, none,
  some, List, [], ◌∷◌, ◌==◌, ltb, leb, if◌then◌else◌, keep, map, All, arith,
}

-- The digit of six bits.
unfoldable pub digit : ℕ → ℕ
digit s =
    if ltb s 26
    then 65 + s
    else if ltb s 52
    then 71 + s
    else if ltb s 62
    then s - 4
    else if s == 62
    then 45
    else 95

unfoldable pub value_of : ℕ → Option ℕ
value_of c =
    if leb 65 c && leb c 90
    then some (c - 65)
    else if leb 97 c && leb c 122
    then some (c - 71)
    else if leb 48 c && leb c 57
    then some (c + 4)
    else if c == 45
    then some 62
    else if c == 95
    then some 63
    else none

-- The groups of six bits, the last one filled up with zeros.
unfoldable pub sextets : List ℕ → List ℕ
sextets [] = []
sextets (a ∷ []) = (a / 4) ∷ (a % 4 * 16) ∷ []
sextets (a ∷ b ∷ []) = (a / 4) ∷ (a % 4 * 16 + b / 16) ∷ (b % 16 * 4) ∷ []
sextets (a ∷ b ∷ c ∷ rest) =
    (a / 4) ∷ (a % 4 * 16 + b / 16) ∷ (b % 16 * 4 + c / 64) ∷ (c % 64) ∷ sextets rest

-- `EncodeToString`
unfoldable pub encode : List ℕ → List ℕ
unfolding sextets digit
encode text = map digit (sextets text)

abbrev pub cons_value : Option ℕ → Option (List ℕ) → Option (List ℕ)
cons_value (some v) (some vs) = some (v ∷ vs)
cons_value _ _ = none

-- The six bits of each digit.
unfoldable pub values : List ℕ → Option (List ℕ)
values [] = some []
values (c ∷ cs) = cons_value (value_of c) (values cs)

abbrev pub after_group : ℕ → ℕ → ℕ → ℕ → Option (List ℕ) → Option (List ℕ)
after_group p q r s none = none
after_group p q r s (some more) =
    some ((p * 4 + q / 16) ∷ (q % 16 * 16 + r / 4) ∷ (r % 4 * 64 + s) ∷ more)

-- The bytes of the digits; one digit over makes no byte.
unfoldable pub bytes : List ℕ → Option (List ℕ)
bytes [] = some []
bytes (p ∷ []) = none
bytes (p ∷ q ∷ []) = if q % 16 == 0 then some ((p * 4 + q / 16) ∷ []) else none
bytes (p ∷ q ∷ r ∷ []) =
    if r % 4 == 0 then some ((p * 4 + q / 16) ∷ (q % 16 * 16 + r / 4) ∷ []) else none
bytes (p ∷ q ∷ r ∷ s ∷ rest) = after_group p q r s (bytes rest)

abbrev pub is_line_end : ℕ → Bool
is_line_end c = c == 10 || c == 13

unfoldable pub decoded : Option (List ℕ) → Option (List ℕ)
unfolding bytes
decoded none = none
decoded (some vs) = bytes vs

-- `DecodeString`
unfoldable pub decode : List ℕ → Option (List ℕ)
unfolding decoded values
decode text = decoded (values (keep (λ c. not (is_line_end c)) text))

abbrev pub IsByte : ℕ → Type 0
IsByte n = n < 256

abbrev IsSextet : ℕ → Type 0
IsSextet n = n < 64

value_of-digit : (s : ℕ) → IsSextet s → value_of (digit s) ≡ some s
unfolding value_of digit
value_of-digit s h = ground arith

digit_on_line : (s : ℕ) → is_line_end (digit s) ≡ false
unfolding digit
digit_on_line s = ground arith

values-digits : (vs : List ℕ) → All IsSextet vs → values (map digit vs) ≡ some vs
unfolding values
values-digits [] a = refl
values-digits (v ∷ vs) a = rw (value_of-digit v a.0, values-digits vs a.1) refl

keep-digits : (vs : List ℕ) → keep (λ c. not (is_line_end c)) (map digit vs) ≡ map digit vs
keep-digits [] = refl
keep-digits (v ∷ vs) = rw (digit_on_line v, keep-digits vs) refl

sextets-IsSextet : (text : List ℕ) → All IsByte text → All IsSextet (sextets text)
unfolding sextets
sextets-IsSextet [] a = tt
sextets-IsSextet (x ∷ []) (h, _) = (omega arith, (omega arith, tt))
sextets-IsSextet (x ∷ y ∷ []) (h, (i, _)) = (omega arith, (omega arith, (omega arith, tt)))
sextets-IsSextet (x ∷ y ∷ z ∷ rest) (h, (i, (j, a))) =
    (omega arith, (omega arith, (omega arith, (omega arith, sextets-IsSextet rest a))))

-- The three bytes of a group.
group :
    (x y z : ℕ)
    → IsByte x
    → IsByte y
    → IsByte z
    → (x / 4 * 4 + (x % 4 * 16 + y / 16) / 16 ≡ x)
      × ((x % 4 * 16 + y / 16) % 16 * 16 + (y % 16 * 4 + z / 64) / 4 ≡ y)
      × ((y % 16 * 4 + z / 64) % 4 * 64 + z % 64 ≡ z)
group x y z h i j = (omega arith, omega arith, omega arith)

bytes-sextets : (text : List ℕ) → All IsByte text → bytes (sextets text) ≡ some text
unfolding bytes sextets
bytes-sextets [] a = refl
bytes-sextets (x ∷ []) (h, _) =
    let whole : x / 4 * 4 + x % 4 * 16 / 16 ≡ x = omega arith in
    let filled : (x % 4 * 16 % 16 == 0) ≡ true = ground arith in rw (filled, whole) refl
bytes-sextets (x ∷ y ∷ []) (h, (i, _)) =
    let one : x / 4 * 4 + (x % 4 * 16 + y / 16) / 16 ≡ x = omega arith in
    let two : (x % 4 * 16 + y / 16) % 16 * 16 + y % 16 * 4 / 4 ≡ y = omega arith in
    let filled : (y % 16 * 4 % 4 == 0) ≡ true = ground arith in rw (filled, one, two) refl
bytes-sextets (x ∷ y ∷ z ∷ rest) (h, (i, (j, a))) =
    let (one, two, three) = group x y z h i j in rw (bytes-sextets rest a, one, two, three) refl

-- What is encoded decodes to itself.
pub decode-encode : (text : List ℕ) → All IsByte text → decode (encode text) ≡ some text
unfolding decode encode decoded
decode-encode text a =
    rw (keep-digits (sextets text), values-digits (sextets text) (sextets-IsSextet text a))
      (bytes-sextets text a)
