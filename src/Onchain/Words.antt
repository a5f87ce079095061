-- ===== src/Onchain/Words.antt =====
-- The ABI words of src/bin/onchain_backfill.rs. A byte is a number below 256, and an i128 a ℤ.
pub mod Decode
use series_factory.Prelude.{
  ℕ, zero, suc, ◌+◌, ◌-◌, ◌*◌, ◌^◌, Bool, true, false, ◌&&◌, Option, none, some, List, [], ◌∷◌, all,
  ltb, leb, ◌==◌, if◌then◌else◌,
}
use series_factory.Prelude.Int.{ℤ, pos, negsuc, leb_ℤ}

-- The first `n` items and the rest, if there are so many.
abbrev push : {A : Type 0} → A → Option (List A × List A) → Option (List A × List A)
push x none = none
push x (some (xs, rest)) = some (x ∷ xs, rest)

abbrev pub split_at? : {A : Type 0} → ℕ → List A → Option (List A × List A)
split_at? zero xs = some ([], xs)
split_at? (suc n) [] = none
split_at? (suc n) (x ∷ xs) = push x (split_at? n xs)

abbrev first_of : {A : Type 0} → Option (List A × List A) → Option (List A)
first_of none = none
first_of (some (xs, rest)) = some xs

abbrev pub skip_words : ℕ → List ℕ → Option (List ℕ)
skip_words zero d = some d
skip_words (suc i) d = elim (split_at? 32 d) [ none ↦ none | some (w, rest) ↦ skip_words i rest ]

abbrev pub take_word : Option (List ℕ) → Option (List ℕ)
take_word none = none
take_word (some d) = first_of (split_at? 32 d)

-- d.get(32 * i..32 * i + 32)
unfoldable pub word : List ℕ → ℕ → Option (List ℕ)
word d i = take_word (skip_words i d)

-- from_be_bytes
abbrev pub be_value : ℕ → List ℕ → ℕ
be_value acc [] = acc
be_value acc (b ∷ bs) = be_value (acc * 256 + b) bs

-- The bytes as the two's complement of 128 bits.
abbrev pub signed128 : ℕ → ℤ
signed128 v = if ltb v (2 ^ 127) then pos v else negsuc (2 ^ 128 - v - 1)

abbrev pub u128_of : Option (List ℕ × List ℕ) → Option ℕ
u128_of none = none
u128_of (some (high, low)) = if all (λ b. b == 0) high then some (be_value 0 low) else none

-- The sixteen bytes above the value must be its sign.
abbrev pub extended : ℕ → List ℕ → Option ℤ
extended v high =
    let fill = if ltb v (2 ^ 127) then 0 else 255 in
    if all (λ b. b == fill) high then some (signed128 v) else none

abbrev pub i128_of : Option (List ℕ × List ℕ) → Option ℤ
i128_of none = none
i128_of (some (high, low)) = extended (be_value 0 low) high

abbrev pub halves : Option (List ℕ) → Option (List ℕ × List ℕ)
halves none = none
halves (some w) = split_at? 16 w

unfoldable pub u128_at : List ℕ → ℕ → Option ℕ
u128_at d i = u128_of (halves (word d i))

unfoldable pub i128_at : List ℕ → ℕ → Option ℤ
i128_at d i = i128_of (halves (word d i))

-- i32::try_from
abbrev pub i32_of : Option ℤ → Option ℤ
i32_of none = none
i32_of (some z) =
    if leb_ℤ (negsuc (2 ^ 31 - 1)) z && leb_ℤ z (pos (2 ^ 31 - 1)) then some z else none

abbrev pub all_three : {A B C : Type 0} → Option A → Option B → Option C → Option (A × B × C)
all_three (some a) (some b) (some c) = some (a, b, c)
all_three (some a) (some b) none = none
all_three (some a) none c = none
all_three none b c = none

abbrev pub all_four : {A B C D : Type 0} → Option A → Option (B × C × D) → Option (A × B × C × D)
all_four (some a) (some (b, c, d)) = some (a, b, c, d)
all_four (some a) none = none
all_four none rest = none

unfoldable pub parse_v4_swap : List ℕ → Option (ℕ × ℕ × ℤ)
unfolding u128_at i128_at
parse_v4_swap d = all_three (u128_at d 2) (u128_at d 3) (i32_of (i128_at d 4))

unfoldable pub parse_curve : List ℕ → Option (ℤ × ℕ × ℤ × ℕ)
unfolding u128_at i128_at
parse_curve d = all_four (i128_at d 0) (all_three (u128_at d 1) (i128_at d 2) (u128_at d 3))
