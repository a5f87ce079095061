-- ===== src/Onchain/Words/Decode.antt =====
-- The words of src/bin/onchain_backfill.rs against an encoding of the ABI.
use native.Mathlib.Nat.{pow-suc}
use series_factory.Prelude.{
  ℕ, zero, suc, ◌+◌, ◌-◌, ◌*◌, ◌/◌, ◌%◌, ◌^◌, ◌<◌, ◌≡◌, refl, ◌∙◌, ap, ap₂, true, none, some, List,
  [], ◌∷◌, ◌++◌, arith, length, length-append, subst, all, ◌==◌, Bool, false, ◌&&◌, ltb, lt→ltb,
  if◌then◌else◌,
}
use series_factory.Prelude.Int.{ℤ, pos, negsuc}
use series_factory.Onchain.Words.{
  split_at?, skip_words, take_word, word, be_value, u128_at, i128_at, i128_of, halves, extended,
  u128_of, all_three, all_four, i32_of, parse_v4_swap, parse_curve,
}

-- `v` in `n` bytes, the highest first.
abbrev pub be_bytes : ℕ → ℕ → List ℕ
be_bytes zero v = []
be_bytes (suc n) v = be_bytes n (v / 256) ++ v % 256 ∷ []

abbrev pub replicate : ℕ → ℕ → List ℕ
replicate zero b = []
replicate (suc n) b = b ∷ replicate n b

-- The ABI word of an unsigned number, and of a signed one.
abbrev pub encode_u : ℕ → List ℕ
encode_u v = be_bytes 16 (v / 2 ^ 128) ++ be_bytes 16 (v % 2 ^ 128)

abbrev pub encode_i : ℤ → List ℕ
encode_i (pos v) = replicate 16 0 ++ be_bytes 16 v
encode_i (negsuc n) = replicate 16 255 ++ be_bytes 16 (2 ^ 128 - n - 1)

be_value-append :
    (acc : ℕ) (xs ys : List ℕ) → be_value acc (xs ++ ys) ≡ be_value (be_value acc xs) ys
be_value-append acc [] ys = refl
be_value-append acc (x ∷ xs) ys = be_value-append (acc * 256 + x) xs ys

be_value-be_bytes : (n v : ℕ) → v < 256 ^ n → be_value 0 (be_bytes n v) ≡ v
be_value-be_bytes zero v h = omega arith
be_value-be_bytes (suc n) v h =
    be_value-append 0 (be_bytes n (v / 256)) (v % 256 ∷ [])
    ∙ ap (λ t. t * 256 + v % 256) (be_value-be_bytes n (v / 256) (omega (arith, h, pow-suc 256 n)))
    ∙ omega arith

length-be_bytes : (n v : ℕ) → length (be_bytes n v) ≡ n
length-be_bytes zero v = refl
length-be_bytes (suc n) v =
    omega (arith, length-append (be_bytes n (v / 256)) (v % 256 ∷ []), length-be_bytes n (v / 256))

split_at?-append : {A : Type 0} (xs ys : List A) → split_at? (length xs) (xs ++ ys) ≡ some (xs, ys)
split_at?-append [] ys = refl
split_at?-append (x ∷ xs) ys = rw (split_at?-append xs ys) refl

-- A word in front of the data, and one behind another.
abbrev IsWord : List ℕ → Type 0
IsWord w = length w ≡ 32

split_word : (w d : List ℕ) → IsWord w → split_at? 32 (w ++ d) ≡ some (w, d)
split_word w d h = subst (λ n. split_at? n (w ++ d) ≡ some (w, d)) h (split_at?-append w d)

word_here : (w d : List ℕ) → IsWord w → word (w ++ d) 0 ≡ some w
unfolding word
word_here w d h = rw (split_word w d h) refl

word_later : (w d : List ℕ) (i : ℕ) → IsWord w → word (w ++ d) (suc i) ≡ word d i
unfolding word
word_later w d i h =
    ap (λ o. take_word (elim o [ none ↦ none | some (w', rest) ↦ skip_words i rest ]))
      (split_word w d h)

replicate-all : (n b : ℕ) → all (λ c. c == b) (replicate n b) ≡ true
replicate-all zero b = refl
replicate-all (suc n) b = ground (arith, replicate-all n b)

length-replicate : (n b : ℕ) → length (replicate n b) ≡ n
length-replicate zero b = refl
length-replicate (suc n) b = omega (arith, length-replicate n b)

-- Sixteen bytes in front of sixteen.
split_half :
    (b v : ℕ)
    → split_at? 16 (replicate 16 b ++ be_bytes 16 v) ≡ some (replicate 16 b, be_bytes 16 v)
split_half b v = refl

encode-IsWord : (b v : ℕ) → IsWord (replicate 16 b ++ be_bytes 16 v)
encode-IsWord b v = refl

all-append : (p : ℕ → Bool) (xs ys : List ℕ) → all p (xs ++ ys) ≡ (all p xs && all p ys)
all-append p [] ys = refl
all-append p (x ∷ xs) ys = ground (arith, all-append p xs ys)

digits_zero : (v : ℕ) → (v / 256 == 0 && (v % 256 == 0 && true)) ≡ (v == 0)
digits_zero v = ground arith

-- All bytes of a number are zero exactly if it is.
be_bytes_zero : (n v : ℕ) → v < 256 ^ n → all (λ c. c == 0) (be_bytes n v) ≡ (v == 0)
be_bytes_zero zero v h = ground arith
be_bytes_zero (suc n) v h =
    all-append (λ c. c == 0) (be_bytes n (v / 256)) (v % 256 ∷ [])
    ∙ ap (λ b. b && (v % 256 == 0 && true))
        (be_bytes_zero n (v / 256) (omega (arith, h, pow-suc 256 n)))
    ∙ digits_zero v

high_zero : (v : ℕ) → (v / 2 ^ 128 == 0) ≡ ltb v (2 ^ 128)
high_zero v = ground arith

-- A word is read exactly if it fits 128 bits.
u128-word :
    (v : ℕ) (d : List ℕ)
    → v < 2 ^ 256
    → u128_at (encode_u v ++ d) 0 ≡ (if ltb v (2 ^ 128) then some v else none)
unfolding u128_at
u128-word v d h =
    ap (λ o. u128_of (halves o)) (word_here (encode_u v) d refl)
    ∙ ap₂ (λ b n. if b then some n else none)
        (be_bytes_zero 16 (v / 2 ^ 128) (omega (arith, h)) ∙ high_zero v)
        (be_value-be_bytes 16 (v % 2 ^ 128) (omega arith))
    ∙ low_half v
  where
    low_half :
        (n : ℕ)
        → (if ltb n (2 ^ 128) then some (n % 2 ^ 128) else none)
          ≡ (if ltb n (2 ^ 128) then some n else none)
    low_half n = ground arith

u128-here : (v : ℕ) (d : List ℕ) → v < 2 ^ 128 → u128_at (encode_u v ++ d) 0 ≡ some v
u128-here v d h = u128-word v d (omega (arith, h)) ∙ rw (lt→ltb v (2 ^ 128) h) refl

-- What an i128 is.
abbrev pub Fits128 : ℤ → Type 0
Fits128 (pos v) = v < 2 ^ 127
Fits128 (negsuc n) = n < 2 ^ 127

i128_of-encode : (z : ℤ) → Fits128 z → i128_of (halves (some (encode_i z))) ≡ some z
i128_of-encode (pos v) h =
    ap (λ t. extended t (replicate 16 0)) (be_value-be_bytes 16 v (omega (arith, h))) ∙ ground arith
i128_of-encode (negsuc n) h =
    ap (λ t. extended t (replicate 16 255))
      (be_value-be_bytes 16 (2 ^ 128 - n - 1) (omega (arith, h)))
    ∙ ground arith

i128-here : (z : ℤ) (d : List ℕ) → Fits128 z → i128_at (encode_i z ++ d) 0 ≡ some z
unfolding i128_at word
i128-here (pos v) d h = i128_of-encode (pos v) h
i128-here (negsuc n) d h = i128_of-encode (negsuc n) h

u128-later : (w d : List ℕ) (i : ℕ) → IsWord w → u128_at (w ++ d) (suc i) ≡ u128_at d i
unfolding u128_at
u128-later w d i h = ap (λ o. u128_of (halves o)) (word_later w d i h)

i128-later : (w d : List ℕ) (i : ℕ) → IsWord w → i128_at (w ++ d) (suc i) ≡ i128_at d i
unfolding i128_at
i128-later w d i h = ap (λ o. i128_of (halves o)) (word_later w d i h)

length-encode_i : (z : ℤ) → IsWord (encode_i z)
length-encode_i (pos v) = refl
length-encode_i (negsuc n) = refl

-- The words of an event, one behind the other.
abbrev pub join : List (List ℕ) → List ℕ
join [] = []
join (w ∷ ws) = w ++ join ws

-- The value of an i32.
abbrev pub Fits32 : ℤ → Type 0
Fits32 (pos v) = v < 2 ^ 31
Fits32 (negsuc n) = n < 2 ^ 31

i32_of-fits : (z : ℤ) → Fits32 z → i32_of (some z) ≡ some z
i32_of-fits (pos v) h = ground arith
i32_of-fits (negsuc n) h = ground arith

Fits32-Fits128 : (z : ℤ) → Fits32 z → Fits128 z
Fits32-Fits128 (pos v) h = omega (arith, h)
Fits32-Fits128 (negsuc n) h = omega (arith, h)

-- For every price in 160 bits, liquidity in 128 and tick in 32, signed, and whatever the other words are: the data of
-- a v4 swap read back as the price, the liquidity and the tick if the price fits 128 bits, and do not parse if
-- it does not.
pub parse_v4_swap-encode :
    (amount0 amount1 fee : List ℕ) (sqrt liquidity : ℕ) (tick : ℤ)
    → length amount0 ≡ 32
    → length amount1 ≡ 32
    → sqrt < 2 ^ 160
    → liquidity < 2 ^ 128
    → Fits32 tick
    → parse_v4_swap
        (join (amount0 ∷ amount1 ∷ encode_u sqrt ∷ encode_u liquidity ∷ encode_i tick ∷ fee ∷ []))
      ≡ (if ltb sqrt (2 ^ 128) then some (sqrt, liquidity, tick) else none)
unfolding parse_v4_swap
parse_v4_swap-encode amount0 amount1 fee sqrt liquidity tick a b s l t =
    ap₂ (λ x y. all_three x (u128_at bytes 3) (i32_of y))
      (u128-later amount0 _ 1 a ∙ u128-later amount1 _ 0 b ∙ u128-word sqrt _ (omega (arith, s)))
      (i128-later amount0 _ 3 a
        ∙ i128-later amount1 _ 2 b
        ∙ i128-later (encode_u sqrt) _ 1 refl
        ∙ i128-later (encode_u liquidity) _ 0 refl
        ∙ i128-here tick _ (Fits32-Fits128 tick t))
    ∙ ap₂ (λ x y. all_three (if ltb sqrt (2 ^ 128) then some sqrt else none) x y)
        (u128-later amount0 _ 2 a
          ∙ u128-later amount1 _ 1 b
          ∙ u128-later (encode_u sqrt) _ 0 refl
          ∙ u128-here liquidity _ l)
        (i32_of-fits tick t)
    ∙ choose (ltb sqrt (2 ^ 128))
  where
    bytes : List ℕ
    bytes = join (amount0 ∷ amount1 ∷ encode_u sqrt ∷ encode_u liquidity ∷ encode_i tick ∷ fee ∷ [])

    choose :
        (fits : Bool)
        → all_three (if fits then some sqrt else none) (some liquidity) (some tick)
          ≡ (if fits then some (sqrt, liquidity, tick) else none)
    choose true = refl
    choose false = refl

-- The data of a Curve exchange read back as its coins, signed, and its amounts, for every value that fits.
-- Bytes behind them do not matter.
parse_curve-encode :
    (sold_id bought_id : ℤ) (sold bought : ℕ) (rest : List ℕ)
    → Fits128 sold_id
    → Fits128 bought_id
    → sold < 2 ^ 128
    → bought < 2 ^ 128
    → parse_curve
        (join (encode_i sold_id ∷ encode_u sold ∷ encode_i bought_id ∷ encode_u bought ∷ rest ∷ []))
      ≡ some (sold_id, sold, bought_id, bought)
unfolding parse_curve
parse_curve-encode sold_id bought_id sold bought rest a b s t =
    ap₂ (λ x y. all_four x (all_three (u128_at bytes 1) (i128_at bytes 2) y))
      (i128-here sold_id _ a)
      (u128-later (encode_i sold_id) _ 2 (length-encode_i sold_id)
        ∙ u128-later (encode_u sold) _ 1 refl
        ∙ u128-later (encode_i bought_id) _ 0 (length-encode_i bought_id)
        ∙ u128-here bought _ t)
    ∙ ap₂ (λ x y. all_four (some sold_id) (all_three x y (some bought)))
        (u128-later (encode_i sold_id) _ 0 (length-encode_i sold_id) ∙ u128-here sold _ s)
        (i128-later (encode_i sold_id) _ 1 (length-encode_i sold_id)
          ∙ i128-later (encode_u sold) _ 0 refl
          ∙ i128-here bought_id _ b)
  where
    bytes : List ℕ
    bytes =
        join (encode_i sold_id ∷ encode_u sold ∷ encode_i bought_id ∷ encode_u bought ∷ rest ∷ [])
