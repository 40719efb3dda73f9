-- ===== src/Rca/Signature.antt =====
-- The signature of a failure of runner/rca.ts: which messages are one failure mode.
use synthwatch.Prelude.{
  ℕ, ◌≤◌, Bool, true, false, [], ◌∷◌, ◌++◌, ◌≡◌, refl, sym, ap, ◌∙◌, all, and_parts, length,
  append_assoc, append-nil, arith, if◌then◌else◌, leb, leb→le, Bool-cases, inl, inr,
}
use synthwatch.Text.{Text, is_digit}
use synthwatch.Rca.Failure.{mask_run, normalize_from, normalize_signature_text}

-- The digits are read up to what is no digit.
digits_then :
    (run ds : Text) (y : ℕ) (post : Text)
    → all is_digit ds ≡ true
    → is_digit y ≡ false
    → normalize_from run (ds ++ y ∷ post) ≡ mask_run (run ++ ds) ++ y ∷ normalize_from [] post
unfolding normalize_from
digits_then run [] y post h k = rw (k, append-nil) refl
digits_then run (d ∷ ds) y post h k = rw ((and_parts (is_digit d) (all is_digit ds) h).0) (
    digits_then (run ++ d ∷ []) ds y post (and_parts (is_digit d) (all is_digit ds) h).1 k
    ∙ ap (λ r. mask_run r ++ y ∷ normalize_from [] post) (append_assoc run (d ∷ []) ds))

-- What stands before a character that is no digit does not see what stands after it.
splits :
    (run pre : Text) (x : ℕ) (rest : Text)
    → is_digit x ≡ false
    → normalize_from run (pre ++ x ∷ rest) ≡ normalize_from run pre ++ x ∷ normalize_from [] rest
unfolding normalize_from
splits run [] x rest h = rw h refl
splits run (c ∷ pre) x rest h =
    choose (is_digit c) _ _ _ _ _ (splits (run ++ c ∷ []) pre x rest h) (splits [] pre x rest h)
  where
    choose :
        (b : Bool) (more after more' after' tail : Text)
        → more ≡ more' ++ tail
        → after ≡ after' ++ tail
        → (if b then more else mask_run run ++ c ∷ after)
          ≡ (if b then more' else mask_run run ++ c ∷ after') ++ tail
    choose true m a m' a' t e f = e
    choose false m a m' a' t e f =
        ap (λ z. mask_run run ++ c ∷ z) f ∙ sym (append_assoc (mask_run run) (c ∷ a') t)

-- What a small number becomes, whatever its digits are.
mask_run_small : (ds : Text) → 1 ≤ length ds → length ds ≤ 2 → mask_run ds ≡ b'#' ∷ []
unfolding mask_run
mask_run_small [] a b = absurd (omega arith)
mask_run_small (c ∷ []) a b = refl
mask_run_small (c ∷ (d ∷ [])) a b = refl
mask_run_small (c ∷ (d ∷ (e ∷ ds))) a b = absurd (omega arith)

mask_run_large : (ds : Text) → 3 ≤ length ds → mask_run ds ≡ ds
unfolding mask_run
mask_run_large [] a = absurd (omega arith)
mask_run_large (c ∷ []) a = absurd (omega arith)
mask_run_large (c ∷ (d ∷ [])) a = absurd (omega arith)
mask_run_large (c ∷ (d ∷ (e ∷ ds))) a = refl

-- A number within a message.
number_in :
    (pre ds post : Text) (x y : ℕ)
    → is_digit x ≡ false
    → is_digit y ≡ false
    → all is_digit ds ≡ true
    → normalize_signature_text (pre ++ x ∷ (ds ++ y ∷ post))
      ≡ normalize_signature_text pre ++ x ∷ (mask_run ds ++ y ∷ normalize_signature_text post)
unfolding normalize_signature_text
number_in pre ds post x y hx hy h =
    splits [] pre x (ds ++ y ∷ post) hx
    ∙ ap (λ z. normalize_from [] pre ++ x ∷ z) (digits_then [] ds y post h hy)

mask_run_number :
    (ds : Text) → 1 ≤ length ds → mask_run ds ≡ (if leb (length ds) 2 then b'#' ∷ [] else ds)
mask_run_number ds n = elim (Bool-cases (leb (length ds) 2)) [
  | inl e ↦ rw e (mask_run_small ds n (leb→le (length ds) 2 e))
  | inr e ↦ rw e (mask_run_large ds (ground arith))
]

-- Which numbers tell failures apart: of a number in a message, between two characters that are no digits,
-- the normalised text keeps nothing but a mark if it has one or two digits, and all of it if it has three or
-- more, as an HTTP status; and what stands before and after it is normalised by itself.
pub normalize_signature_text_number :
    (pre ds post : Text) (x y : ℕ)
    → is_digit x ≡ false
    → is_digit y ≡ false
    → all is_digit ds ≡ true
    → 1 ≤ length ds
    → normalize_signature_text (pre ++ x ∷ (ds ++ y ∷ post))
      ≡ normalize_signature_text pre
        ++ x ∷ ((if leb (length ds) 2 then b'#' ∷ [] else ds) ++ y ∷ normalize_signature_text post)
normalize_signature_text_number pre ds post x y hx hy hd n =
    number_in pre ds post x y hx hy hd
    ∙ ap (λ run. normalize_signature_text pre ++ x ∷ (run ++ y ∷ normalize_signature_text post))
        (mask_run_number ds n)
