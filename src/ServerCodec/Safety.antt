-- ===== src/ServerCodec/Safety.antt =====
-- The request decoders of the server stay inside the payload, whatever bytes it holds.
use qq_copy.Base.{ℕ, ◌+◌, ◌^◌, ◌≤◌, ◌≡◌, List, length, arith}
use qq_copy.Base.Int.{IsSigned}
use qq_copy.Outcome.{Outcome, Ensures, Ensures-bind, Ensures-guard, Returns-Ensures, ◌>>=◌}
use qq_copy.Wire.{IsBytes, read_int32, read_counted}
use qq_copy.Wire.Bounds.{read_int32_bound, read_counted_bound}
use qq_copy.ServerCodec.{
  decode_login_request, decode_register_request, decode_security_question_request,
  decode_reset_password_request, decode_version_check_request,
}

module _ (bytes : List ℕ) (byte_range : IsBytes bytes) where
  -- A field after its guard: the string fits behind the offset, and the rest goes on behind it.
  counted {ℓ} :
      {B : Type ℓ} (Q : B → Type 0) (offset : ℕ) (f : List ℕ × ℕ → Outcome B)
      → offset + 2 ≤ length bytes
      → ((s : List ℕ) (o : ℕ) → o ≡ offset + 2 + length s → o ≤ length bytes → Ensures (f (s, o)) Q)
      → Ensures (read_counted bytes offset >>= f) Q
  counted Q offset f h k =
      Ensures-bind _ Q (read_counted bytes offset) f (read_counted_bound bytes byte_range offset h)
        λ r p. k r.0 r.1 p.0 p.1

  pub decode_login_request_bound :
      Ensures
        (decode_login_request bytes)
        (λ req. 4 + length req.username + length req.password ≤ length bytes)
  unfolding decode_login_request
  decode_login_request_bound = Ensures-guard _ 4 (length bytes) _ λ size.
      counted _ 0 _ (omega arith) λ u o1 e1 h1.
        Ensures-guard _ (o1 + 2) (length bytes) _ λ g1. counted _ o1 _ g1 λ p o2 e2 h2. omega arith

  pub decode_register_request_bound : Ensures (decode_register_request bytes) (λ req.
      8
        + length req.username
        + length req.password
        + length req.security_question
        + length req.security_answer
      ≤ length bytes)
  unfolding decode_register_request
  decode_register_request_bound = Ensures-guard _ 6 (length bytes) _ λ size.
      counted _ 0 _ (omega arith) λ u o1 e1 h1. Ensures-guard _ (o1 + 2) (length bytes) _ λ g1.
        counted _ o1 _ g1 λ p o2 e2 h2. Ensures-guard _ (o2 + 2) (length bytes) _ λ g2.
          counted _ o2 _ g2 λ q o3 e3 h3.
            Ensures-guard _ (o3 + 2) (length bytes) _
              λ g3. counted _ o3 _ g3 λ a o4 e4 h4. omega arith

  pub decode_security_question_request_bound :
      Ensures
        (decode_security_question_request bytes)
        (λ req. 2 + length req.username ≤ length bytes)
  unfolding decode_security_question_request
  decode_security_question_request_bound =
      Ensures-guard _ 2 (length bytes) _
        λ size. counted _ 0 _ (omega arith) λ u o1 e1 h1. omega arith

  pub decode_reset_password_request_bound : Ensures (decode_reset_password_request bytes) (λ req.
      6 + length req.username + length req.new_password + length req.security_answer ≤ length bytes)
  unfolding decode_reset_password_request
  decode_reset_password_request_bound = Ensures-guard _ 6 (length bytes) _ λ size.
      counted _ 0 _ (omega arith) λ u o1 e1 h1. Ensures-guard _ (o1 + 2) (length bytes) _ λ g1.
        counted _ o1 _ g1 λ p o2 e2 h2.
          Ensures-guard _ (o2 + 2) (length bytes) _
            λ g2. counted _ o2 _ g2 λ a o3 e3 h3. omega arith

  pub decode_version_check_request_bound :
      Ensures (decode_version_check_request bytes) (λ req. IsSigned (2 ^ 31) req.client_version)
  unfolding decode_version_check_request
  decode_version_check_request_bound = Ensures-guard _ 4 (length bytes) _ λ size.
      Ensures-bind _ _ (read_int32 bytes 0) _
        (Returns-Ensures _ (read_int32 bytes 0) (read_int32_bound bytes byte_range 0 (omega arith)))
        λ v p. p

-- Whatever bytes a client sends, these five decoders read nothing outside the payload, the strings
-- of an accepted request, with their length fields, fit into the payload together, and an accepted
-- version is an int.
pub request_decoders_safe :
    (bytes : List ℕ)
    → IsBytes bytes
    → Ensures
        (decode_login_request bytes)
        (λ req. 4 + length req.username + length req.password ≤ length bytes)
      × Ensures (decode_register_request bytes) (λ req.
        8
          + length req.username
          + length req.password
          + length req.security_question
          + length req.security_answer
        ≤ length bytes)
      × Ensures
          (decode_security_question_request bytes)
          (λ req. 2 + length req.username ≤ length bytes)
      × Ensures (decode_reset_password_request bytes) (λ req.
        6 + length req.username + length req.new_password + length req.security_answer
        ≤ length bytes)
      × Ensures (decode_version_check_request bytes) (λ req. IsSigned (2 ^ 31) req.client_version)
request_decoders_safe bytes h = (
  decode_login_request_bound bytes h,
  decode_register_request_bound bytes h,
  decode_security_question_request_bound bytes h,
  decode_reset_password_request_bound bytes h,
  decode_version_check_request_bound bytes h,
)
