-- ===== src/Onchain/Quorum/Agreed.antt =====
-- Which answers `eth_call` of src/bin/onchain_backfill.rs accepts.

use series_factory.Prelude.{
  ℕ, ◌≤◌, ◌≡◌, refl, subst, ◌∙◌, String, min, Bool, true, Option, none, some, List, [], ◌∷◌, ◌++◌,
  append_assoc, arith, length, filter, leb, leb→le, find?-some, filter-All,
}
use series_factory.Prelude.Outcome.{ok}
use series_factory.Onchain.Quorum.{
  Reply, unreachable, status, malformed, no_result, result, votes, agree, decided, ask, eth_call,
}

-- The answers among the replies.
abbrev pub results : (String → String) → List Reply → List String
results to_lowercase [] = []
results to_lowercase (unreachable ∷ replies) = results to_lowercase replies
results to_lowercase (status code ∷ replies) = results to_lowercase replies
results to_lowercase (malformed ∷ replies) = results to_lowercase replies
results to_lowercase (no_result ∷ replies) = results to_lowercase replies
results to_lowercase (result s ∷ replies) = to_lowercase s ∷ results to_lowercase replies

module _ (is_word : String → Bool) where
  -- `a` is a word that `need` of the answers agree on.
  abbrev pub Backed : ℕ → List String → String → Type 0
  Backed need answers a = (is_word a ≡ true) × (need ≤ votes is_word a (filter is_word answers))

  agree-Backed :
      (answers : List String) (need : ℕ) (a : String)
      → agree is_word answers need ≡ some a
      → Backed need answers a
  unfolding agree
  agree-Backed answers need a h =
      let f =
        find?-some (λ b. is_word b ≡ true)
          (λ b. leb need (votes is_word b (filter is_word answers))) (filter is_word answers) a
          (filter-All (λ b. is_word b ≡ true) is_word answers) h in
      (f.0, leb→le need _ f.1)

  votes_more :
      (a : String) (xs ys : List String)
      → votes is_word a (filter is_word xs) ≤ votes is_word a (filter is_word (xs ++ ys))
  votes_more a [] ys = omega arith
  votes_more a (x ∷ xs) ys = ground (arith, votes_more a xs ys)

  decided-Backed :
      (to_lowercase : String → String) (need : ℕ) (replies : List Reply) (answers : List String)
      (a : String) (agreed : Option String)
      → agree is_word answers need ≡ agreed
      → (ask is_word to_lowercase need replies answers ≡ ok a
          → Backed need (answers ++ results to_lowercase replies) a)
      → decided is_word to_lowercase need agreed (ask is_word to_lowercase need replies answers)
        ≡ ok a
      → Backed need (answers ++ results to_lowercase replies) a
  decided-Backed to_lowercase need replies answers a none e ih h = ih h
  decided-Backed to_lowercase need replies answers a (some b) e ih h =
      (back.0, omega (arith, back.1, votes_more a answers (results to_lowercase replies)))
    where
      back : Backed need answers a
      back = agree-Backed answers need a (e ∙ cc h)

  ask-Backed :
      (to_lowercase : String → String) (need : ℕ) (replies : List Reply) (answers : List String)
      (a : String)
      → ask is_word to_lowercase need replies answers ≡ ok a
      → Backed need (answers ++ results to_lowercase replies) a
  ask-Backed to_lowercase need [] answers a h = cc h
  ask-Backed to_lowercase need (unreachable ∷ replies) answers a h =
      ask-Backed to_lowercase need replies answers a h
  ask-Backed to_lowercase need (status code ∷ replies) answers a h =
      ask-Backed to_lowercase need replies answers a h
  ask-Backed to_lowercase need (malformed ∷ replies) answers a h = cc h
  ask-Backed to_lowercase need (no_result ∷ replies) answers a h =
      ask-Backed to_lowercase need replies answers a h
  ask-Backed to_lowercase need (result s ∷ replies) answers a h =
      subst (λ t. Backed need t a)
        (append_assoc answers (to_lowercase s ∷ []) (results to_lowercase replies))
        (decided-Backed to_lowercase need replies (answers ++ to_lowercase s ∷ []) a
          (agree is_word (answers ++ to_lowercase s ∷ []) need) refl
          (ask-Backed to_lowercase need replies (answers ++ to_lowercase s ∷ []) a) h)

-- An answer is accepted only when it is a word and two of the answers are it, or one where a single RPC is
-- configured.
pub eth_call-Backed :
    (is_word : String → Bool) (to_lowercase : String → String) (replies : List Reply) (a : String)
    → eth_call is_word to_lowercase replies ≡ ok a
    → Backed is_word (min (length replies) 2) (results to_lowercase replies) a
unfolding eth_call
eth_call-Backed is_word to_lowercase replies a h =
    ask-Backed is_word to_lowercase (min (length replies) 2) replies [] a h
