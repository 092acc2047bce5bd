-- ===== src/Submit/Fields.antt =====
-- What the bytes of a submission say of its fields, for one oracle and for several.
use switchboard_sdk.Prelude.{
  ap, ap₂, ℕ, ◌^◌, ◌<◌, ◌≡◌, refl, sym, ◌∙◌, List, [], ◌∷◌, ◌++◌, All, length, append_injective,
  arith,
}
use mathlib.Core.List.{append_assoc}
use switchboard_sdk.Prelude.Int.{ℤ, FitsSigned}
use switchboard_sdk.Prelude.Bytes.{
  to_le_bytes, length-to_le_bytes, to_le_bytes-injective, i128_to_le_bytes,
}
use switchboard_sdk.Prelude.Words.{Bytes}
use switchboard_sdk.Checksum.Binding.{i128_part}
use switchboard_sdk.Submit.{Submission, submission_bytes, all_submissions, all_values}
use switchboard_sdk.Submit.Many.{MultiSubmission, multi_submission_bytes, all_multi_submissions}

-- The sizes that the Rust types give; Borsh refuses a longer sequence.
pub record IsSubmission (s : Submission) : Type 0 where
  pub value : FitsSigned 127 s.value
  pub signature : length s.signature ≡ 64

pub record IsMultiSubmission (s : MultiSubmission) : Type 0 where
  pub count : length s.values < 2 ^ 32
  pub values : All (FitsSigned 127) s.values
  pub signature : length s.signature ≡ 64

pub u32_part :
    {a b : ℕ} {xs ys : Bytes}
    → a < 2 ^ 32
    → b < 2 ^ 32
    → to_le_bytes 4 a ++ xs ≡ to_le_bytes 4 b ++ ys
    → (a ≡ b) × (xs ≡ ys)
u32_part {a} {b} {xs} {ys} ha hb e =
    let (p, q) =
      append_injective (to_le_bytes 4 a) (to_le_bytes 4 b) xs ys
        (length-to_le_bytes 4 a ∙ sym (length-to_le_bytes 4 b)) e in
    (to_le_bytes-injective 4 a b (omega arith) (omega arith) p, q)

submission_part :
    (s t : Submission) {xs ys : Bytes}
    → IsSubmission s
    → IsSubmission t
    → submission_bytes s ++ xs ≡ submission_bytes t ++ ys
    → (s ≡ t) × (xs ≡ ys)
unfolding submission_bytes
submission_part s t {xs} {ys} v w e =
    let whole =
      sym
        (append_assoc (i128_to_le_bytes s.value) (s.signature ++ s.recovery_id ∷ s.offset ∷ []) xs)
      ∙ e
      ∙ append_assoc (i128_to_le_bytes t.value) (t.signature ++ t.recovery_id ∷ t.offset ∷ []) ys in
    let (value, e₁) = i128_part v.value w.value whole in
    let inner =
      sym (append_assoc s.signature (s.recovery_id ∷ s.offset ∷ []) xs)
      ∙ e₁
      ∙ append_assoc t.signature (t.recovery_id ∷ t.offset ∷ []) ys in
    let (signature, e₂) =
      append_injective s.signature t.signature _ _ (v.signature ∙ sym w.signature) inner in
    let recovery : s.recovery_id ≡ t.recovery_id = ground (arith, e₂) in
    let offset : s.offset ≡ t.offset = ground (arith, e₂) in
    let rest : xs ≡ ys = ground (arith, e₂) in
    (
      λ i. record {
        value = value i;
        signature = signature i;
        recovery_id = recovery i;
        offset = offset i;
      },
      rest,
    )

pub all_submissions-injective :
    (ss ts : List Submission)
    → All IsSubmission ss
    → All IsSubmission ts
    → length ss ≡ length ts
    → all_submissions ss ≡ all_submissions ts
    → ss ≡ ts
unfolding all_submissions
all_submissions-injective [] [] v w n e = refl
all_submissions-injective [] (t ∷ ts) v w n e = absurd (omega arith)
all_submissions-injective (s ∷ ss) [] v w n e = absurd (omega arith)
all_submissions-injective (s ∷ ss) (t ∷ ts) v w n e =
    let (same, rest) = submission_part s t v.0 w.0 e in
    ap₂ (◌∷◌) same (all_submissions-injective ss ts v.1 w.1 (omega arith) rest)

all_values-part :
    (vs us : List ℤ) {xs ys : Bytes}
    → All (FitsSigned 127) vs
    → All (FitsSigned 127) us
    → length vs ≡ length us
    → all_values vs ++ xs ≡ all_values us ++ ys
    → (vs ≡ us) × (xs ≡ ys)
unfolding all_values
all_values-part [] [] v w n e = (refl, e)
all_values-part [] (t ∷ ts) v w n e = absurd (omega arith)
all_values-part (s ∷ ss) [] v w n e = absurd (omega arith)
all_values-part (s ∷ ss) (t ∷ ts) {xs} {ys} v w n e =
    let (same, rest) = i128_part v.0 w.0 (
      sym (append_assoc (i128_to_le_bytes s) (all_values ss) xs)
      ∙ e
      ∙ append_assoc (i128_to_le_bytes t) (all_values ts) ys) in
    let (values, behind) = all_values-part ss ts v.1 w.1 (omega arith) rest in
    (ap₂ (◌∷◌) same values, behind)

pub all_values-injective :
    (vs us : List ℤ)
    → All (FitsSigned 127) vs
    → All (FitsSigned 127) us
    → length vs ≡ length us
    → all_values vs ≡ all_values us
    → vs ≡ us
all_values-injective vs us v w n e =
    (all_values-part vs us {xs = []} {ys = []} v w n (ap (λ (b : Bytes). b ++ []) e)).0

-- Bytes behind those of a submission.
regroup :
    (s : MultiSubmission) (xs : Bytes)
    → to_le_bytes 4 (length s.values)
        ++ (all_values s.values ++ (s.signature ++ s.recovery_id ∷ xs))
      ≡ multi_submission_bytes s ++ xs
unfolding multi_submission_bytes
regroup s xs =
    let last : Bytes = s.recovery_id ∷ [] in
    sym (
      append_assoc (to_le_bytes 4 (length s.values)) (all_values s.values ++ (s.signature ++ last))
        xs
      ∙ ap (λ b. to_le_bytes 4 (length s.values) ++ b)
          (append_assoc (all_values s.values) (s.signature ++ last) xs
            ∙ ap (λ b. all_values s.values ++ b) (append_assoc s.signature last xs)))

multi_submission_part :
    (s t : MultiSubmission) {xs ys : Bytes}
    → IsMultiSubmission s
    → IsMultiSubmission t
    → multi_submission_bytes s ++ xs ≡ multi_submission_bytes t ++ ys
    → (s ≡ t) × (xs ≡ ys)
unfolding multi_submission_bytes
multi_submission_part s t {xs} {ys} v w e =
    let (count, e₁) = u32_part v.count w.count (regroup s xs ∙ e ∙ sym (regroup t ys)) in
    let (values, e₂) = all_values-part s.values t.values v.values w.values count e₁ in
    let (signature, e₃) =
      append_injective s.signature t.signature _ _ (v.signature ∙ sym w.signature) e₂ in
    let recovery : s.recovery_id ≡ t.recovery_id = ground (arith, e₃) in
    let rest : xs ≡ ys = ground (arith, e₃) in
    (λ i. record { values = values i; signature = signature i; recovery_id = recovery i }, rest)

pub all_multi_submissions-injective :
    (ss ts : List MultiSubmission)
    → All IsMultiSubmission ss
    → All IsMultiSubmission ts
    → length ss ≡ length ts
    → all_multi_submissions ss ≡ all_multi_submissions ts
    → ss ≡ ts
unfolding all_multi_submissions
all_multi_submissions-injective [] [] v w n e = refl
all_multi_submissions-injective [] (t ∷ ts) v w n e = absurd (omega arith)
all_multi_submissions-injective (s ∷ ss) [] v w n e = absurd (omega arith)
all_multi_submissions-injective (s ∷ ss) (t ∷ ts) v w n e =
    let (same, rest) = multi_submission_part s t v.0 w.0 e in
    ap₂ (◌∷◌) same (all_multi_submissions-injective ss ts v.1 w.1 (omega arith) rest)
