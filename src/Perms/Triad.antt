-- ===== src/Perms/Triad.antt =====
-- PermissionsMixin of alws/models.py: `permissions` is a column of decimal digits, one octal digit
-- each for the owner, the group and the others.
use albs_web_server.Prelude.{
  ℕ, zero, suc, ◌+◌, ◌*◌, ◌/◌, ◌%◌, ◌≤◌, ◌<◌, Bool, true, false, ◌&&◌, not, List, [], ◌∷◌,
  if◌then◌else◌, nat_beq, ltb, leb, length, Result, ok, err, Error, ◌>>=◌, ◌>>◌, raise_if, ◌≡◌,
  refl, arith, ◌≢◌, ◌⊎◌, inl, inr,
}

-- `PermissionTriad`, of three values of the flag enumeration `Permissions`.
pub record PermissionTriad : Type 0 where
  pub owner : ℕ
  pub group : ℕ
  pub other : ℕ

-- A Python integer: `negsuc n` is -(n + 1).
pub data ℤ : Type 0 where
  pos : ℕ → ℤ
  negsuc : ℕ → ℤ

-- A character of `str(n)`.
pub data Sign : Type 0 where
  minus : Sign
  digit : ℕ → Sign

-- The decimal digits of `n` before those of `acc`; fuel `suc n` is enough.
digits_from : ℕ → ℕ → List Sign → List Sign
digits_from zero n acc = acc
digits_from (suc f) n acc =
    let rest = digits_from f (n / 10) (digit (n % 10) ∷ acc) in
    if ltb n 10 then digit n ∷ acc else rest

-- `str(n)`.
unfoldable pub str : ℤ → List Sign
unfolding digits_from
str (ℤ.pos n) = digits_from (suc n) n []
str (ℤ.negsuc n) = minus ∷ digits_from (suc (suc n)) (suc n) []

-- The loop of `validate_permissions`: whether `while test > 0` ends with no digit above 7. Each
-- round divides `test` by ten, so that fuel `test` is enough.
digits_octal : ℕ → ℕ → Bool
digits_octal zero test = true
digits_octal (suc f) test =
    let rest = digits_octal f (test / 10) in
    if ltb 0 test then (if ltb 7 (test % 10) then false else rest) else true

octal : ℤ → Bool
unfolding digits_octal
octal (ℤ.pos n) = digits_octal n n
octal (ℤ.negsuc n) = true

unfoldable pub validate_permissions : ℤ → Result ℤ
unfolding str octal
validate_permissions permissions = do
  raise_if (not (nat_beq (length (str permissions)) 3)) Error.value_error
  raise_if (not (octal permissions)) Error.value_error
  ok permissions

-- `int(c)` of one character.
int : Sign → Result ℕ
int minus = err Error.value_error
int (digit n) = ok n

-- `perms_str[0]`, `perms_str[1]` and `perms_str[2]`, read as numbers.
triad_of : List Sign → Result PermissionTriad
unfolding int
triad_of (o ∷ g ∷ t ∷ _) = do
  owner ← int o
  group ← int g
  other ← int t
  ok (record { owner = owner; group = group; other = other })
triad_of _ = err Error.index_error

unfoldable pub permissions_triad : ℤ → Result PermissionTriad
unfolding validate_permissions triad_of
permissions_triad permissions = do _ ← validate_permissions permissions; triad_of (str permissions)

digits_from_three :
    (f n : ℕ)
    → 100 ≤ n
    → n < 1000
    → digits_from (suc (suc (suc f))) n []
      ≡ digit (n / 100) ∷ digit (n / 10 % 10) ∷ digit (n % 10) ∷ []
unfolding digits_from
digits_from_three f n h k = ground arith

digits_octal-of_zero : (f t : ℕ) → t ≡ 0 → digits_octal f t ≡ true
unfolding digits_octal
digits_octal-of_zero zero t h = refl
digits_octal-of_zero (suc f) t h = ground arith

digits_octal_three :
    (f n : ℕ)
    → 100 ≤ n
    → n < 1000
    → digits_octal (suc (suc (suc f))) n ≡ leb (n / 100) 7 && leb (n / 10 % 10) 7 && leb (n % 10) 7
unfolding digits_octal
digits_octal_three f n h k = ground (arith, digits_octal-of_zero f (n / 10 / 10 / 10))

-- What `permissions_triad` does on a number of three digits.
three_digits :
    (n : ℕ)
    → 100 ≤ n
    → n < 1000
    → permissions_triad (ℤ.pos n) ≡ (
        if leb (n / 100) 7 && leb (n / 10 % 10) 7 && leb (n % 10) 7
        then ok (record { owner = n / 100; group = n / 10 % 10; other = n % 10 })
        else err Error.value_error)
unfolding permissions_triad
three_digits (suc (suc (suc f))) h k =
    let n = suc (suc (suc f)) in
    ground (arith, digits_from_three (suc f) n h k, digits_octal_three f n h k)
three_digits _ h k = absurd (omega arith)

-- Every triad of octal digits that does not begin with zero is read back from its decimal number.
pub permissions_triad-digits :
    (owner group other : ℕ)
    → 1 ≤ owner
    → owner ≤ 7
    → group ≤ 7
    → other ≤ 7
    → permissions_triad (ℤ.pos (100 * owner + 10 * group + other))
      ≡ ok (record { owner = owner; group = group; other = other })
permissions_triad-digits owner group other lo a b c =
    ground (arith, three_digits (100 * owner + 10 * group + other))

-- Fewer than three digits, or more, are refused.
digits_from_short :
    (f n : ℕ) → n < 100 → nat_beq (length (digits_from (suc (suc f)) n [])) 3 ≡ false
unfolding digits_from
digits_from_short f n h = ground arith

length-digits_from : (f n : ℕ) (acc : List Sign) → length acc < length (digits_from (suc f) n acc)
unfolding digits_from
length-digits_from zero n acc = ground arith
length-digits_from (suc f) n acc =
    ground (arith, length-digits_from f (n / 10) (digit (n % 10) ∷ acc))

digits_from_long : (f n : ℕ) → 1000 ≤ n → 3 < length (digits_from (suc (suc (suc (suc f)))) n [])
unfolding digits_from
digits_from_long f n h =
    let acc = digit (n / 10 / 10 % 10) ∷ digit (n / 10 % 10) ∷ digit (n % 10) ∷ [] in
    ground (arith, length-digits_from f (n / 10 / 10 / 10) acc)

triad_of-minus : (l : List Sign) {t : PermissionTriad} → triad_of (minus ∷ l) ≢ ok t
unfolding triad_of
triad_of-minus [] h = cc
triad_of-minus (g ∷ []) h = cc
triad_of-minus (g ∷ t ∷ l) h = cc

abbrev pub Reads : ℤ → PermissionTriad → Type 0
Reads p t =
    (p ≡ ℤ.pos (100 * t.owner + 10 * t.group + t.other))
    × (1 ≤ t.owner)
    × (t.owner ≤ 7)
    × (t.group ≤ 7)
    × (t.other ≤ 7)

other_lengths :
    (n : ℕ) → (n < 100) ⊎ (1000 ≤ n) → nat_beq (length (digits_from (suc n) n [])) 3 ≡ false
other_lengths zero e = unfold digits_from in refl
other_lengths (suc n) (inl short) = digits_from_short n (suc n) short
other_lengths (suc (suc (suc n))) (inr long) =
    let m = suc (suc (suc n)) in ground (arith, digits_from_long n m)
other_lengths _ (inr long) = absurd (omega arith)

other_lengths_refused :
    (n : ℕ) {t : PermissionTriad} → (n < 100) ⊎ (1000 ≤ n) → permissions_triad (ℤ.pos n) ≢ ok t
unfolding permissions_triad
other_lengths_refused n h e = let no_triad = other_lengths n h in ground arith

negative_refused : (n : ℕ) {t : PermissionTriad} → permissions_triad (ℤ.negsuc n) ≢ ok t
unfolding permissions_triad
negative_refused n e = ground (arith, triad_of-minus (digits_from (suc (suc n)) (suc n) []))

range_cases : (n : ℕ) → ((n < 100) ⊎ (1000 ≤ n)) ⊎ ((100 ≤ n) × (n < 1000))
range_cases n = ground arith

-- Whatever is read as a triad is the decimal number of three octal digits, the first not zero.
pub permissions_triad-Reads : (p : ℤ) (t : PermissionTriad) → permissions_triad p ≡ ok t → Reads p t
permissions_triad-Reads (ℤ.pos n) t h = elim (range_cases n) [
  | inl outside ↦ absurd (other_lengths_refused n outside h)
  | inr (lo, hi) ↦ ground (arith, three_digits n lo hi)
]
permissions_triad-Reads (ℤ.negsuc n) t h = absurd (negative_refused n h)
