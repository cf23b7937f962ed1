-- ===== src/RoundTrip/Requests.antt =====
-- The server reads the requests that the client writes.
use qq_copy.Base.{
  ℕ, ◌+◌, ◌<◌, ◌≤◌, ◌≡◌, ◌^◌, sym, ap, ◌∙◌, List, [], ◌++◌, length, arith, append_assoc, append-nil,
  length-append, leb,
}
use qq_copy.Outcome.{ok, guard, guard-le}
use qq_copy.Wire.{write_string, read_counted}
use qq_copy.Wire.RoundTrip.{At, read_counted-write_string}
use qq_copy.Protocol.{login_req, register_req, reset_password_req}
use qq_copy.ServerCodec.{
  decode_login_request, decode_register_request, decode_reset_password_request,
}
use qq_copy.ClientCodec.{
  encode_login_request, encode_register_request, encode_reset_password_request,
}
use qq_copy.RoundTrip.{
  Delivers, delivers, write_string-append, length-write_string, At-start, At-string,
}

-- The fields of a request of counted strings, from an offset on.
module _ (bytes : List ℕ) where
  pub field :
      (offset : ℕ) (str rest : List ℕ)
      → length str < 2 ^ 16
      → At bytes offset (write_string [] str ++ rest)
      → (read_counted bytes offset ≡ ok (str, offset + 2 + length str))
        × (guard (leb (offset + 2) (length bytes)) ≡ ok tt)
        × At bytes (offset + 2 + length str) rest
  field offset str rest hs h =
      let (e, next) = read_counted-write_string bytes offset str rest hs h in
      (
        e,
        guard-le (offset + 2) (length bytes) (omega (arith, At-string bytes offset str rest h)),
        next,
      )

  pub last_field :
      (offset : ℕ) (str : List ℕ)
      → length str < 2 ^ 16
      → At bytes offset (write_string [] str)
      → (read_counted bytes offset ≡ ok (str, offset + 2 + length str))
        × (guard (leb (offset + 2) (length bytes)) ≡ ok tt)
        × (offset + 2 + length str ≤ length bytes)
  last_field offset str hs h =
      let same : write_string [] str ≡ write_string [] str ++ [] =
        sym (append-nil (write_string [] str)) in
      let h' = rw same at h in
      let (e, g, _) = field offset str [] hs h' in (e, g, At-string bytes offset str [] h')

module _ (u p : List ℕ) (u_fits : length u < 2 ^ 16) (p_fits : length p < 2 ^ 16) where
  pub login_fields :
      (bytes : List ℕ)
      → bytes ≡ write_string [] u ++ write_string [] p
      → decode_login_request bytes ≡ ok (record { username = u; password = p })
  unfolding decode_login_request
  login_fields bytes e =
      let (e1, _, a1) = field bytes 0 u _ u_fits (At-start bytes _ e) in
      let (e2, g2, size) = last_field bytes (0 + 2 + length u) p p_fits a1 in
      rw (guard-le 4 (length bytes) (omega arith)) (rw e1 (rw g2 (rw e2)))

  -- A login request whose strings have fewer than 2 ^ 16 bytes is delivered under its
  -- command.
  pub login_request_delivered :
      Delivers
        (encode_login_request u p)
        login_req
        decode_login_request
        (record { username = u; password = p })
  unfolding encode_login_request
  login_request_delivered =
      let e = write_string-append (write_string [] u) p in
      delivers login_req _ decode_login_request _ tt
        (omega (
          arith,
          ap length e,
          length-append (write_string [] u) (write_string [] p),
          length-write_string u,
          length-write_string p,
        ))
        (login_fields _ e)

  module _ (a : List ℕ) (a_fits : length a < 2 ^ 16) where
    three_strings :
        write_string (write_string (write_string [] u) p) a
        ≡ write_string [] u ++ (write_string [] p ++ write_string [] a)
    three_strings =
        write_string-append _ a
        ∙ ap (λ b. b ++ write_string [] a) (write_string-append _ p)
        ∙ append_assoc (write_string [] u) (write_string [] p) (write_string [] a)

    length-three :
        length (write_string (write_string (write_string [] u) p) a)
        ≡ 6 + length u + length p + length a
    length-three = omega (
      arith,
      ap length three_strings,
      length-append (write_string [] u) (write_string [] p ++ write_string [] a),
      length-append (write_string [] p) (write_string [] a),
      length-write_string u,
      length-write_string p,
      length-write_string a,
    )

    reset_fields :
        (bytes : List ℕ)
        → bytes ≡ write_string [] u ++ (write_string [] p ++ write_string [] a)
        → decode_reset_password_request bytes
          ≡ ok (record { username = u; new_password = p; security_answer = a })
    unfolding decode_reset_password_request
    reset_fields bytes e =
        let (e1, _, a1) = field bytes 0 u _ u_fits (At-start bytes _ e) in
        let (e2, g2, a2) = field bytes (0 + 2 + length u) p _ p_fits a1 in
        let (e3, g3, size) = last_field bytes (0 + 2 + length u + 2 + length p) a a_fits a2 in
        rw (guard-le 6 (length bytes) (omega arith)) (rw e1 (rw g2 (rw e2 (rw g3 (rw e3)))))

    -- A password reset whose three strings have fewer than 2 ^ 16 bytes each is delivered under
    -- its command.
    pub reset_password_request_delivered :
        Delivers
          (encode_reset_password_request u p a)
          reset_password_req
          decode_reset_password_request
          (record { username = u; new_password = p; security_answer = a })
    unfolding encode_reset_password_request
    reset_password_request_delivered =
        delivers reset_password_req _ decode_reset_password_request _ tt
          (omega (arith, length-three)) (reset_fields _ three_strings)

    module _ (q : List ℕ) (q_fits : length q < 2 ^ 16) where
      four_strings :
          write_string (write_string (write_string (write_string [] u) p) q) a
          ≡ write_string [] u ++ (write_string [] p ++ (write_string [] q ++ write_string [] a))
      four_strings =
          write_string-append _ a
          ∙ ap (λ b. b ++ write_string [] a)
              (write_string-append _ q ∙ ap (λ b. b ++ write_string [] q) (write_string-append _ p))
          ∙ append_assoc (write_string [] u ++ write_string [] p) (write_string [] q)
              (write_string [] a)
          ∙ append_assoc (write_string [] u) (write_string [] p)
              (write_string [] q ++ write_string [] a)

      length-four :
          length (write_string (write_string (write_string (write_string [] u) p) q) a)
          ≡ 8 + length u + length p + length q + length a
      length-four = omega (
        arith,
        ap length four_strings,
        length-append (write_string [] u)
            (write_string [] p ++ (write_string [] q ++ write_string [] a)),
        length-append (write_string [] p) (write_string [] q ++ write_string [] a),
        length-append (write_string [] q) (write_string [] a),
        length-write_string u,
        length-write_string p,
        length-write_string q,
        length-write_string a,
      )

      register_fields :
          (bytes : List ℕ)
          → bytes
            ≡ write_string [] u ++ (write_string [] p ++ (write_string [] q ++ write_string [] a))
          → decode_register_request bytes
            ≡ ok (record { username = u; password = p; security_question = q; security_answer = a })
      unfolding decode_register_request
      register_fields bytes e =
          let (e1, _, a1) = field bytes 0 u _ u_fits (At-start bytes _ e) in
          let (e2, g2, a2) = field bytes (0 + 2 + length u) p _ p_fits a1 in
          let (e3, g3, a3) = field bytes (0 + 2 + length u + 2 + length p) q _ q_fits a2 in
          let (e4, g4, size) =
            last_field bytes (0 + 2 + length u + 2 + length p + 2 + length q) a a_fits a3 in
          rw (guard-le 6 (length bytes) (omega arith))
            (rw e1 (rw g2 (rw e2 (rw g3 (rw e3 (rw g4 (rw e4)))))))

      -- A registration whose four strings have fewer than 2 ^ 16 bytes each is delivered under its
      -- command.
      pub register_request_delivered :
          Delivers
            (encode_register_request u p q a)
            register_req
            decode_register_request
            (record { username = u; password = p; security_question = q; security_answer = a })
      unfolding encode_register_request
      register_request_delivered =
          delivers register_req _ decode_register_request _ tt (omega (arith, length-four))
            (register_fields _ four_strings)
