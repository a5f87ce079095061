-- ===== src/Integrity/File/Clean.antt =====
-- What an empty list of findings says of `validate_file` of src/bin/integrity_check.rs.
use series_factory.Prelude.{ℕ, suc, ◌≡◌, refl, Bool, true, false, ◌↔◌, List, [], ◌∷◌, ◌++◌, All}
use series_factory.Integrity.File.{Log, flags, push_all, each_record}

pub append_empty : {A : Type 0} (xs ys : List A) → (xs ++ ys ≡ []) ↔ ((xs ≡ []) × (ys ≡ []))
append_empty [] ys = (λ h. (refl, h), λ h. h.1)
append_empty (x ∷ xs) ys = (λ h. cc h, λ h. cc h.0)

-- Nothing is pushed exactly if no test holds.
pub flags_empty :
    {P : Type 0} (i : ℕ) (tests : List (Bool × P))
    → (flags i tests ≡ []) ↔ All (λ (t : Bool × P). t.0 ≡ false) tests
flags_empty i [] = (λ h. tt, λ h. refl)
flags_empty i ((true, msg) ∷ tests) = (λ h. cc h, λ h. cc h.0)
flags_empty i ((false, msg) ∷ tests) =
    let ih = flags_empty i tests in (λ h. (refl, ih.0 h), λ h. ih.1 h.1)

module _ {R S P : Type 0} (body : S → ℕ → R → S × Log P) where
  -- No row has an error, each seen from the state that the rows before it leave.
  abbrev pub NoErrors : S → ℕ → List R → Type 0
  NoErrors s i [] = Unit {0}
  NoErrors s i (r ∷ rows) = ((body s i r).1.errors ≡ []) × NoErrors (body s i r).0 (suc i) rows

  pub each_record-NoErrors :
      (rows : List R) (s : S) (i : ℕ) (log : Log P)
      → ((each_record body s i rows log).1.errors ≡ []) ↔ ((log.errors ≡ []) × NoErrors s i rows)
  each_record-NoErrors [] s i log = (λ h. (h, tt), λ h. h.0)
  each_record-NoErrors (r ∷ rows) s i log =
      let one = body s i r in
      let ih = each_record-NoErrors rows one.0 (suc i) (push_all log one.1) in
      let split = append_empty log.errors one.1.errors in
      (
        λ h. let both = ih.0 h in let e = split.0 both.0 in (e.0, (e.1, both.1)),
        λ h. ih.1 (split.1 (h.0, h.1.0), h.1.1),
      )
