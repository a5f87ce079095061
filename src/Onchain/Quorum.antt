-- ===== src/Onchain/Quorum.antt =====
-- `agree` and `eth_call` of src/bin/onchain_backfill.rs.
pub mod Agreed
use text.Mathlib.Text.{◌==◌ as str_eq}
use series_factory.Prelude.{
  ℕ, min, String, Bool, Option, none, some, List, [], ◌∷◌, ◌++◌, length, filter, find?, leb, ltb,
  ◌&&◌, if◌then◌else◌,
}
use series_factory.Prelude.Outcome.{Outcome, ok, err}

-- What one configured RPC makes of the request; `status` is a reply outside 200..300.
pub data Reply : Type 0 where
  unreachable : Reply
  status : ℕ → Reply
  malformed : Reply
  no_result : Reply
  result : String → Reply

pub data CallError : Type 0 where
  bad_json : CallError
  no_agreement : ℕ → CallError

-- `is_word a` is `a.len() == 66`.
module _ (is_word : String → Bool) where
  abbrev pub votes : String → List String → ℕ
  votes a answers = length (filter (λ b. str_eq b a) answers)

  unfoldable pub agree : List String → ℕ → Option String
  agree answers need =
      let words = filter is_word answers in find? (λ a. leb need (votes a words)) words

  module _ (to_lowercase : String → String) (need : ℕ) where
    abbrev pub decided : Option String → Outcome CallError String → Outcome CallError String
    decided none rest = rest
    decided (some a) rest = ok a

    -- The replies in order, with the answers so far.
    abbrev pub ask : List Reply → List String → Outcome CallError String
    ask [] answers = err (no_agreement need)
    ask (unreachable ∷ replies) answers = ask replies answers
    ask (status code ∷ replies) answers = ask replies answers
    ask (malformed ∷ replies) answers = err bad_json
    ask (no_result ∷ replies) answers = ask replies answers
    ask (result s ∷ replies) answers =
        let answers' = answers ++ to_lowercase s ∷ [] in
        decided (agree answers' need) (ask replies answers')

  unfoldable pub eth_call : (String → String) → List Reply → Outcome CallError String
  unfolding agree
  eth_call to_lowercase replies = ask to_lowercase (min (length replies) 2) replies []
