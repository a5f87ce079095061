-- ===== src/Tests/Onchain.antt =====
-- The theorems about src/bin/onchain_backfill.rs at concrete inputs.

use series_factory.Prelude.{
  ℕ, zero, suc, ◌+◌, ◌-◌, ◌*◌, ◌/◌, ◌≤◌, ◌^◌, ◌≡◌, refl, ◌∙◌, ap, ap₂, min, Bool, true, false, none,
  some, List, [], ◌∷◌, ◌++◌, All, arith, ltb,
}
use series_factory.Prelude.Int.{pos, negsuc}
use series_factory.Prelude.Outcome.{Outcome, ok}
use series_factory.Onchain.Words.{parse_v4_swap, parse_curve, u128_at, i128_at, word}
use series_factory.Onchain.Words.Decode.{encode_u, encode_i, join, parse_v4_swap-encode}
use series_factory.Onchain.Blocks.{first_block_at}
use series_factory.Onchain.Blocks.First.{Splits, first_block_at-Splits}
use series_factory.Onchain.Pages.{paginate}
use series_factory.Onchain.Pages.Walk.{Walk, paginate-Walk}
use series_factory.Onchain.Limiter.{reserved, starts, back_off}
use series_factory.Onchain.Limiter.Spacing.{Spaced, starts-back_off}
use series_factory.Onchain.Quorum.{Reply, unreachable, result, eth_call}
use series_factory.Onchain.Quorum.Agreed.{Backed, results, eth_call-Backed}
use series_factory.Onchain.Quote as Quote
use series_factory.Onchain.Quote.Fresh.{Fresh, at-Fresh}
use series_factory.Onchain.Events.{
  Float, PoolMath, PoolCfg, Log, curve, to_events, check_counts, read_log, curve_state,
}
use series_factory.Onchain.Events.Kept.{FromFill, to_events-FromFill}

parse_v4_swap-encode_example :
    parse_v4_swap (
      join (
        encode_u 1
        ∷ encode_u 2
        ∷ encode_u (2 ^ 96)
        ∷ encode_u 9
        ∷ encode_i (negsuc 4)
        ∷ encode_u 5
        ∷ []))
    ≡ some (2 ^ 96, 9, negsuc 4)
parse_v4_swap-encode_example =
    parse_v4_swap-encode (encode_u 1) (encode_u 2) (encode_u 5) (2 ^ 96) 9 (negsuc 4) refl refl
      (omega arith) (omega arith) (omega arith)

-- Block `k` is at 12 k seconds.
first_block_at-Splits_example :
    (r : ℕ) × (first_block_at {E = ℕ} (λ k. ok (some (12 * k))) 100 20 ≡ ok r)
    × Splits (λ k. 12 * k) 100 21 r
first_block_at-Splits_example =
    first_block_at-Splits {E = ℕ} (λ k. ok (some (12 * k))) (λ k. 12 * k) 100 20 (λ k h. refl)
      (λ j k le h. omega arith)

-- A page has the items of two blocks, or of the last one.
abbrev page_end : ℕ → ℕ
page_end cur = min (cur + 2) 9

abbrev count_up : ℕ → ℕ → List ℕ
count_up a zero = []
count_up a (suc n) = a ∷ count_up (suc a) n

abbrev sample_items : ℕ → ℕ → List ℕ
sample_items a b = count_up a (b - a)

abbrev sample_fetch : ℕ → Outcome ℕ (List ℕ × ℕ)
sample_fetch cur = ok (sample_items cur (page_end cur), page_end cur)

paginate-Walk_example : Walk 9 sample_fetch 4 (paginate 9 sample_fetch 4)
paginate-Walk_example = paginate-Walk 9 sample_fetch 4

count_up-add : (a b n m : ℕ) → a ≡ b → n ≡ m → count_up a n ≡ count_up b m
count_up-add a b n m h k = ap₂ count_up h k

count_up_joined : (n m a : ℕ) → count_up a n ++ count_up (a + n) m ≡ count_up a (n + m)
count_up_joined zero m a = count_up-add (a + 0) a m (0 + m) (omega arith) (omega arith)
count_up_joined (suc n) m a =
    ap (λ t. a ∷ (count_up (suc a) n ++ t))
      (count_up-add (a + suc n) (suc a + n) m m (omega arith) refl)
    ∙ ap (λ t. a ∷ t) (count_up_joined n m (suc a))
    ∙ count_up-add a a (suc (n + m)) (suc n + m) refl (omega arith)

joined : (a b c : ℕ) → a ≤ b → b ≤ c → sample_items a b ++ sample_items b c ≡ sample_items a c
joined a b c h k =
    ap (λ t. count_up a (b - a) ++ t)
      (count_up-add b (a + (b - a)) (c - b) (c - b) (omega arith) refl)
    ∙ count_up_joined (b - a) (c - b) a
    ∙ count_up-add a a (b - a + (c - b)) (c - a) refl (omega arith)

starts-back_off_example :
    Spaced 200 1000
      (starts (reserved 1000 ∷ reserved 1001 ∷ []) (record { gap = 200; next = 1000 }))
    × Spaced 200 3000 (
        starts
          (reserved 1000 ∷ reserved 1001 ∷ [])
          (back_off 1000 2000 (record { gap = 200; next = 1000 })))
starts-back_off_example =
    starts-back_off (reserved 1000 ∷ reserved 1001 ∷ []) (record { gap = 200; next = 1000 }) 1000
      2000

abbrev replies : List Reply
replies = result "0x06" ∷ unreachable ∷ result "0x06" ∷ []

agreed : eth_call (λ s. true) (λ s. s) replies ≡ ok "0x06"
unfolding eth_call
agreed = refl

eth_call-Backed_example : Backed (λ s. true) 2 (results (λ s. s) replies) "0x06"
eth_call-Backed_example = eth_call-Backed (λ s. true) (λ s. s) replies "0x06" agreed

-- A price is a number here, and the band 98 to 102.
abbrev in_band : ℕ → Bool
in_band px = ltb 97 px

abbrev bars : List (ℕ × ℕ)
bars = (1000, 100) ∷ (61000, 99) ∷ []

accepted : Quote.new in_band bars 1000 90000 ≡ ok bars
unfolding Quote.new
accepted = refl

at-Fresh_example : Fresh in_band bars 70000
at-Fresh_example =
    at-Fresh in_band bars bars 1000 90000 70000 (omega arith) accepted (omega arith) (omega arith)

abbrev whole : Float ℕ
whole = record {
  of_u128 = λ n. n;
  times = λ a b. a * b;
  over = λ a b. a / b;
  minus = λ a b. a - b;
  is_finite = λ a. true;
  one = 1;
  four = 4;
  million = 1000000;
  q96 = 2 ^ 96;
}

abbrev no_pools : PoolMath ℕ
no_pools = record { v3_price_sqrtpx96 = λ a b. none; cl_band_depth = λ a b c d e. none }

abbrev pool : PoolCfg ℕ
pool = record {
  kind = curve;
  base_is_t0 = false;
  band = 1;
  floor = 3;
  fee = 0;
  base_idx = pos 1;
  max_sold_raw = 9000000;
}

abbrev logs : List (Log × ℕ)
logs =
    (
      record {
        block = 3;
        idx = 0;
        topics = [];
        bytes =
            join (encode_i (pos 1) ∷ encode_u 2000000 ∷ encode_i (pos 0) ∷ encode_u 4000000 ∷ []);
      },
      36,
    )
    ∷ []

counted : check_counts (to_events whole no_pools pool logs).1 ≡ ok tt
unfolding check_counts to_events read_log parse_curve curve_state u128_at i128_at word
counted = refl

to_events-FromFill_example :
    All (FromFill whole no_pools pool logs) (to_events whole no_pools pool logs).0
to_events-FromFill_example = to_events-FromFill whole no_pools pool refl logs
