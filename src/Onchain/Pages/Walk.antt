-- ===== src/Onchain/Pages/Walk.antt =====
-- The walks of `paginate` of src/bin/onchain_backfill.rs.
use series_factory.Prelude.{
  ℕ, zero, suc, ◌+◌, ◌-◌, ◌≤◌, ◌<◌, ◌≡◌, refl, sym, subst, ◌∙◌, ap, false, List, [], ◌++◌,
  append_assoc, append-nil, leb→le, leb, ltb, if◌then◌else◌, arith, Bool-cases, inl, inr, ltb→lt,
}
use series_factory.Prelude.Outcome.{Outcome, ok, err}
use series_factory.Onchain.Pages.{PageError, fetching, no_progress, turn_page, pages, paginate}

-- A page in front of what the rest gives.
abbrev pub prefix : {T E : Type 0} → List T → Outcome E (List T) → Outcome E (List T)
prefix page (ok items) = ok (page ++ items)
prefix page (err e) = err e

prefix_twice :
    {T E : Type 0} (xs ys : List T) (o : Outcome E (List T))
    → prefix (xs ++ ys) o ≡ prefix xs (prefix ys o)
prefix_twice xs ys (ok zs) = ap ok (append_assoc xs ys zs)
prefix_twice xs ys (err e) = refl

module _ {T E : Type 0} (to : ℕ) (fetch : ℕ → Outcome E (List T × ℕ)) where
  -- A walk from `cur`: every page moves on, and it ends with the items of all pages in order behind `to`, or
  -- at the first page that fails or does not move on.
  pub data Walk : ℕ → Outcome (PageError E) (List T) → Type 0 where
    arrived : {cur : ℕ} {o : Outcome (PageError E) (List T)} → to ≤ cur → o ≡ ok [] → Walk cur o
    failed :
        {cur : ℕ} {o : Outcome (PageError E) (List T)} (e : E)
        → cur < to
        → fetch cur ≡ err e
        → o ≡ err (fetching e)
        → Walk cur o
    stuck :
        {cur : ℕ} {o : Outcome (PageError E) (List T)} (page : List T) (next : ℕ)
        → cur < to
        → fetch cur ≡ ok (page, next)
        → next ≤ cur
        → o ≡ err (no_progress cur next)
        → Walk cur o
    moved :
        {cur : ℕ} {o : Outcome (PageError E) (List T)} (page : List T) (next : ℕ)
        (rest : Outcome (PageError E) (List T))
        → cur < to
        → fetch cur ≡ ok (page, next)
        → cur < next
        → Walk next rest
        → o ≡ prefix page rest
        → Walk cur o

  -- What the loop gives with the items `out` so far.
  abbrev Runs : ℕ → List T → Outcome (PageError E) (List T) → Type 0
  Runs cur out result = (o : Outcome (PageError E) (List T)) × Walk cur o × (result ≡ prefix out o)

  Runs-end : (cur : ℕ) (out : List T) → to ≤ cur → Runs cur out (ok out)
  Runs-end cur out h = (ok [], arrived h refl, ap ok (sym (append-nil out)))

  Runs-page :
      (cur : ℕ) (out page : List T) (next : ℕ) (rest : Outcome (PageError E) (List T))
      → cur < to
      → fetch cur ≡ ok (page, next)
      → (cur < next → Runs next (out ++ page) rest)
      → Runs cur out (if leb next cur then err (no_progress cur next) else rest)
  Runs-page cur out page next rest lt e h = elim (Bool-cases (leb next cur)) [
    | inl still ↦
        rw still
          (err (no_progress cur next), stuck page next lt e (leb→le next cur still) refl, refl)
    | inr on ↦ rw on (join on (h (forward on)))
  ]
    where
      forward : leb next cur ≡ false → cur < next
      forward on = ground arith

      join : leb next cur ≡ false → Runs next (out ++ page) rest → Runs cur out rest
      join on r = (
        prefix page r.0,
        moved page next r.0 lt e (forward on) r.1 refl,
        r.2 ∙ prefix_twice out page r.0,
      )

  Runs-turn :
      (cur : ℕ) (out : List T) (rest : ℕ → List T → Outcome (PageError E) (List T))
      (answer : Outcome E (List T × ℕ))
      → cur < to
      → fetch cur ≡ answer
      → ((next : ℕ) (out' : List T) → cur < next → Runs next out' (rest next out'))
      → Runs cur out (turn_page to fetch cur out rest answer)
  Runs-turn cur out rest (err e) lt h ih = (err (fetching e), failed e lt h refl, refl)
  Runs-turn cur out rest (ok (page, next)) lt h ih =
      Runs-page cur out page next (rest next (out ++ page)) lt h (ih next (out ++ page))

  pages-Runs :
      (fuel cur : ℕ) (out : List T) → to ≤ cur + fuel → Runs cur out (pages to fetch fuel cur out)
  pages-Runs zero cur out h = rw stops (Runs-end cur out (omega (arith, h)))
    where
      stops : ltb cur to ≡ false
      stops = ground arith
  pages-Runs (suc fuel) cur out h = elim (Bool-cases (ltb cur to)) [
    | inl more ↦ rw more (
        Runs-turn cur out (pages to fetch fuel) (fetch cur) (ltb→lt cur to more) refl
          (λ next out' lt. pages-Runs fuel next out' (omega (arith, h, lt))))
    | inr done ↦ rw done (Runs-end cur out (ended done))
  ]
    where
      ended : ltb cur to ≡ false → to ≤ cur
      ended done = ground arith

  -- The pagination always comes to an end, and is one such walk.
  pub paginate-Walk : (from : ℕ) → Walk from (paginate to fetch from)
  unfolding paginate
  paginate-Walk from = subst (Walk from) (sym (walk.2 ∙ prefix_nil walk.0)) walk.1
    where
      walk : Runs from [] (pages to fetch (to - from) from [])
      walk = pages-Runs (to - from) from [] (omega arith)

      prefix_nil : (o : Outcome (PageError E) (List T)) → prefix [] o ≡ o
      prefix_nil (ok xs) = refl
      prefix_nil (err e) = refl

-- Where every page has the items from its block up to the next one, and does not go past the end, the result
-- has the items of the whole range. `items a b` are those from block `a` up to `b`.
paginate-items :
    {T E : Type 0} (to : ℕ) (fetch : ℕ → Outcome E (List T × ℕ)) (items : ℕ → ℕ → List T)
    → ((a : ℕ) → items a a ≡ [])
    → ((a b c : ℕ) → a ≤ b → b ≤ c → items a b ++ items b c ≡ items a c)
    → ((cur : ℕ)
        → cur < to
        → (next : ℕ) × (fetch cur ≡ ok (items cur next, next)) × (cur < next) × (next ≤ to))
    → (from : ℕ) → from ≤ to
    → paginate to fetch from ≡ ok (items from to)
paginate-items {T} {E} to fetch items empty joined serves from le =
    whole (paginate-Walk to fetch from) le
  where
    same_next :
        {cur next n : ℕ} {page : List T}
        → fetch cur ≡ ok (page, next)
        → fetch cur ≡ ok (items cur n, n)
        → (page ≡ items cur next) × (next ≡ n)
    same_next {cur} f g = (cc (sym f ∙ g), cc (sym f ∙ g))

    no_way : {cur n next : ℕ} → cur < n → next ≡ n → next ≤ cur → 1 ≤ 0
    no_way h e k = omega arith

    whole :
        {cur : ℕ} {o : Outcome (PageError E) (List T)}
        → Walk to fetch cur o
        → cur ≤ to
        → o ≡ ok (items cur to)
    whole {cur} (arrived h e) le = e ∙ ap ok (sym (empty cur) ∙ ap (items cur) (omega arith))
    whole {cur} (failed x lt f e) le = cc (sym f ∙ (serves cur lt).1)
    whole {cur} (stuck page next lt f back e) le =
        elim (no_way (serves cur lt).2 (same_next f (serves cur lt).1).1 back) [ ]
    whole {cur} (moved page next rest lt f on walk e) le =
        e
        ∙ ap (prefix page) (whole walk (inside (same_next f (serves cur lt).1).1 (serves cur lt).3))
        ∙ ap (λ t. ok (t ++ items next to)) (same_next f (serves cur lt).1).0
        ∙ ap ok (
            joined cur next to (omega (arith, on))
              (inside (same_next f (serves cur lt).1).1 (serves cur lt).3))
      where
        inside : {n m : ℕ} → n ≡ m → m ≤ to → n ≤ to
        inside h k = omega arith
