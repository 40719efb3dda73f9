-- ===== src/Rca/Failure.antt =====
-- The signature of a failure, of runner/rca.ts.
use synthwatch.Prelude.{Option, none, some, [], ◌∷◌, ◌++◌, if◌then◌else◌, take}
use synthwatch.Text.{Text, is_digit}

-- The maximal run of digits at hand, before what follows it.
unfoldable pub mask_run : Text → Text
mask_run [] = []
mask_run (a ∷ []) = b'#' ∷ []
mask_run (a ∷ (b ∷ [])) = b'#' ∷ []
mask_run (a ∷ (b ∷ (c ∷ run))) = a ∷ (b ∷ (c ∷ run))

unfoldable pub normalize_from : Text → Text → Text
unfolding is_digit mask_run
normalize_from run [] = mask_run run
normalize_from run (c ∷ cs) =
    let more = normalize_from (run ++ c ∷ []) cs in
    let after = mask_run run ++ c ∷ normalize_from [] cs in if is_digit c then more else after

-- `normalizeSignatureText`
unfoldable pub normalize_signature_text : Text → Text
unfolding normalize_from
normalize_signature_text s = normalize_from [] s

abbrev pub text_or_empty : Option Text → Text
text_or_empty none = []
text_or_empty (some t) = t

-- `signatureOf`, by the decimal of the id.
unfoldable pub signature_of : Text → Option Text → Option Text → Text
unfolding normalize_signature_text
signature_of check_id error_message failed_step =
    check_id
    ++ b'|'
      ∷ (normalize_signature_text (take 300 (text_or_empty error_message))
          ++ b'|' ∷ text_or_empty failed_step)
