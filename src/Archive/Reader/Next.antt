-- ===== src/Archive/Reader/Next.antt =====
-- A reader that failed or ended stays so.
use kubocd.Common.{◌≡◌, refl, ◌∙◌, true, false, none, some, List, [], ◌∷◌, Result, ok, err, arith}
use kubocd.Common.{ap, Result-cases, Option-cases, Bool-cases, inl, inr, ok-ne-err, err-injective}
use mathlib.Core.Path.{subst}
use kubocd.Archive.Reader.{
  account, next_header, PathOps, ReadError, eof, TarStep, header, tar_end, tar_error, Header,
  Reader, next, next_step,
}

-- The results after the first error, if there is one, and none before.
abbrev pub OnlyAfter : ReadError → List (Result ReadError Header) → Type 0
OnlyAfter e [] = Unit {0}
OnlyAfter e (r ∷ rs) = (r ≡ err e) × OnlyAfter e rs

abbrev pub FirstErrorStays : List (Result ReadError Header) → Type 0
FirstErrorStays [] = Unit {0}
FirstErrorStays (ok h ∷ rs) = FirstErrorStays rs
FirstErrorStays (err e ∷ rs) = OnlyAfter e rs

module _ (P : PathOps) where
  -- The results of `Next` over what the tar reader would give, in order.
  unfoldable pub next_all : List TarStep → Reader → List (Result ReadError Header)
  next_all [] r = []
  next_all (s ∷ steps) r = (next P s r).1 ∷ next_all steps (next P s r).0

  -- A reader that gives the error again, whatever it is asked.
  record Stuck (e : ReadError) (r : Reader) : Type 0 where
    stuck : (s : TarStep) → next P s r ≡ (r, err e)

  failed-Stuck : (r : Reader) (e : ReadError) → r.failure ≡ some e → Stuck e r
  unfolding next
  failed-Stuck r e h = record { stuck = λ s. ground arith }

  done-Stuck : (r : Reader) → r.failure ≡ none → r.done ≡ true → Stuck eof r
  unfolding next
  done-Stuck r h d = record { stuck = λ s. ground arith }

  next_step-Stuck :
      (s : TarStep) (r : Reader) (e : ReadError)
      → r.failure ≡ none
      → (next_step P s r).1 ≡ err e
      → Stuck e (next_step P s r).0
  unfolding next_step
  next_step-Stuck (header h) r e alive gave =
      elim (Result-cases (account P h r.budget r.directories)) [
        | inl (b, found) ↦ absurd (ok-ne-err (rw (found, next_header) at gave))
        | inr (e', refused) ↦ failed-Stuck _ e (ground arith)
      ]
  next_step-Stuck (tar_end none) r e alive gave =
      subst (λ x. Stuck x (record r { done = true })) (err-injective gave) (done-Stuck _ alive refl)
  next_step-Stuck (tar_end (some e')) r e alive gave =
      failed-Stuck _ e (ap some (err-injective gave))
  next_step-Stuck (tar_error message) r e alive gave =
      failed-Stuck _ e (ap some (err-injective gave))

  next-failed :
      (s : TarStep) (r : Reader) (e : ReadError) → r.failure ≡ some e → next P s r ≡ (r, err e)
  unfolding next
  next-failed s r e h = ground arith

  next-done :
      (s : TarStep) (r : Reader) → r.failure ≡ none → r.done ≡ true → next P s r ≡ (r, err eof)
  unfolding next
  next-done s r h d = ground arith

  next-next_step :
      (s : TarStep) (r : Reader) → r.failure ≡ none → r.done ≡ false → next P s r ≡ next_step P s r
  unfolding next
  next-next_step s r h d = rw (h, d)

  next-Stuck :
      (s : TarStep) (r : Reader) (e : ReadError) → (next P s r).1 ≡ err e → Stuck e (next P s r).0
  next-Stuck s r e gave = elim (Option-cases r.failure) [
    | inr (e', failed) ↦
        let same = next-failed s r e' failed in
        rw same (failed-Stuck r e (failed ∙ ap some (err-injective (rw same at gave))))
    | inl alive ↦ elim (Bool-cases r.done) [
      | inl ended ↦
          let same = next-done s r alive ended in
          rw same
            (subst (λ x. Stuck x r) (err-injective (rw same at gave)) (done-Stuck r alive ended))
      | inr going ↦
          let same = next-next_step s r alive going in
          rw same (next_step-Stuck s r e alive (rw same at gave))
    ]
  ]

  OnlyAfter-Stuck :
      (e : ReadError) (steps : List TarStep) (r : Reader)
      → Stuck e r
      → OnlyAfter e (next_all steps r)
  unfolding next_all
  OnlyAfter-Stuck e [] r h = tt
  OnlyAfter-Stuck e (s ∷ steps) r h = rw (h.stuck s) (refl, OnlyAfter-Stuck e steps r h)

  -- Whatever the tar reader would give, the first error of `Next`, the end of the archive
  -- included, is the result of every later call.
  pub next_all-FirstErrorStays :
      (steps : List TarStep) (r : Reader) → FirstErrorStays (next_all steps r)
  unfolding next_all
  next_all-FirstErrorStays [] r = tt
  next_all-FirstErrorStays (s ∷ steps) r = elim (Result-cases (next P s r).1) [
    | inl (h, found) ↦ rw found (next_all-FirstErrorStays steps (next P s r).0)
    | inr (e, gave) ↦ rw gave (OnlyAfter-Stuck e steps (next P s r).0 (next-Stuck s r e gave))
  ]
