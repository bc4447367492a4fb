-- ===== src/Srtp/Tests.antt =====
-- The theorems on the rollover counter, the cipher and the header at concrete values.
use minghe.Prelude.{ℕ, ◌+◌, ◌≡◌, inl, List, [], ◌∷◌, arith}
use minghe.Srtp.Rollover.{estimate_roc}
use minghe.Srtp.Rollover.Rfc.{rfc_estimate, at_highest, estimate_roc-rfc, estimate_roc-late}

estimate_roc-rfc_example : estimate_roc (at_highest 3 100) 50000 ≡ rfc_estimate 3 100 50000
estimate_roc-rfc_example =
    estimate_roc-rfc 3 100 50000 (omega arith) (omega arith) (omega arith) (omega arith)
      (inl (omega arith))

estimate_roc-late_example :
    (estimate_roc (at_highest 3 100) 99 + 1 ≡ 3) × (rfc_estimate 3 100 99 ≡ 3)
estimate_roc-late_example = estimate_roc-late 3 100 99 (omega arith) (omega arith) (omega arith)

abbrev one_two : List ℕ
one_two = 1 ∷ 2 ∷ []

abbrev one_three : List ℕ
one_three = 1 ∷ 3 ∷ []
