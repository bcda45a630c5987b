-- ===== src/Batch/Outcomes.antt =====
-- What the results of a batch say: go/jsonrpc3/batch.go.
use jsonrpc.Base.{
  Bool, false, ◌||◌, Option, none, some, List, [], ◌∷◌, ◌++◌, map, ◌≡◌, refl, is_some,
  false-ne-true, ◌∙◌, sym, Bool-cases, inl, inr, ap,
}
use jsonrpc.Message.{Response}
use jsonrpc.Batch.{has_error}

abbrev pub some_error : List Response → Bool
some_error [] = false
some_error (r ∷ rs) = is_some r.error || some_error rs

-- When every response is there, `HasError` says whether one of them holds an error.
pub has_error-some_error : (rs : List Response) → has_error (map some rs) ≡ some (some_error rs)
unfolding has_error
has_error-some_error [] = refl
has_error-some_error (r ∷ rs) = elim (Bool-cases (is_some r.error)) [
  | inl failed ↦ rw failed refl
  | inr fine ↦ rw fine (has_error-some_error rs)
]

-- A notification in the batch, with no error before it, makes `HasError` dereference a nil response.
pub has_error_notification :
    (rs : List Response) (rest : List (Option Response))
    → some_error rs ≡ false
    → has_error (map some rs ++ none ∷ rest) ≡ none
unfolding has_error
has_error_notification [] rest fine = refl
has_error_notification (r ∷ rs) rest fine = elim (Bool-cases (is_some r.error)) [
  | inl failed ↦ absurd (false-ne-true (sym fine ∙ ap (λ b. b || some_error rs) failed))
  | inr good ↦
      rw good (has_error_notification rs rest (sym (ap (λ b. b || some_error rs) good) ∙ fine))
]
