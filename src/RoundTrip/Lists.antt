-- ===== src/RoundTrip/Lists.antt =====
-- Friend lists and message notifications, from the server to the client.
use qq_copy.Base.{
  ℕ, ◌+◌, ◌<◌, ◌≤◌, ◌≡◌, ◌^◌, ◌%◌, refl, sym, ap, ◌∙◌, List, [], ◌∷◌, ◌++◌, length, arith, map, All,
  append_assoc, append-nil, ◌==◌,
}
use qq_copy.Base.Int.{ℤ, IsSigned}
use qq_copy.Outcome.{ok, guard, guard-le, ◌>>◌}
use qq_copy.Wire.{write_uint16, write_uint32, write_int32, write_int64, write_string}
use qq_copy.Wire.RoundTrip.{
  At, At-skip, At-uint16, At-int32, At-uint32, read_counted-write_string, read_int32-write_int32,
  read_uint32-write_uint32, read_string-append, read_uint16-write_uint16, read_int64-write_int64,
}
use qq_copy.Protocol.{ErrorCode, error_value}
use qq_copy.ServerCodec.{encode_message_notify, encode_friend_list_response, write_friends}
use qq_copy.ClientCodec.{
  read_friend, read_friends, FriendInfo, decode_message_notify, decode_friend_list_response,
}
use qq_copy.RoundTrip.{
  write_int32-append, write_string-append, write_uint32-append, write_int64-append, At-start,
  At-string,
}
use qq_copy.RoundTrip.Responses.{error_value-lt}

-- What the loop over the friends appends.
friends_bytes : List (ℤ × List ℕ) → List ℕ
friends_bytes [] = []
friends_bytes ((id, name) ∷ friends) =
    write_int32 [] id ++ (write_string [] name ++ friends_bytes friends)

write_friends-append :
    (friends : List (ℤ × List ℕ)) (buffer : List ℕ)
    → write_friends buffer friends ≡ buffer ++ friends_bytes friends
unfolding write_friends friends_bytes
write_friends-append [] buffer = sym (append-nil buffer)
write_friends-append ((id, name) ∷ friends) buffer =
    write_friends-append friends _
    ∙ ap (λ b. b ++ friends_bytes friends)
        (write_string-append _ name
          ∙ ap (λ b. b ++ write_string [] name) (write_int32-append buffer id))
    ∙ append_assoc (buffer ++ write_int32 [] id) (write_string [] name) (friends_bytes friends)
    ∙ append_assoc buffer (write_int32 [] id) (write_string [] name ++ friends_bytes friends)

-- The ids are ints and the names have fewer than 2 ^ 16 bytes.
abbrev pub IsFriends : List (ℤ × List ℕ) → Type 0
IsFriends = All (λ f. IsSigned (2 ^ 31) f.0 × (length f.1 < 2 ^ 16))

abbrev pub friend_infos : List (ℤ × List ℕ) → List FriendInfo
friend_infos = map (λ f. record { friend_id = f.0; friend_name = f.1 })

read_friend-write :
    (bytes : List ℕ) (offset : ℕ) (id : ℤ) (name rest : List ℕ)
    → IsSigned (2 ^ 31) id
    → length name < 2 ^ 16
    → At bytes offset (write_int32 [] id ++ (write_string [] name ++ rest))
    → (read_friend bytes offset
        ≡ ok (record { friend_id = id; friend_name = name }, offset + 4 + 2 + length name))
      × At bytes (offset + 4 + 2 + length name) rest
unfolding read_friend
read_friend-write bytes offset id name rest id_fits name_fits h =
    let a = At-int32 bytes offset _ id h in
    let room = At-string bytes (offset + 4) name rest a in
    let (e, next) = read_counted-write_string bytes (offset + 4) name rest name_fits a in
    (
      rw (guard-le (offset + 4) (length bytes) (omega arith)) (
          rw (read_int32-write_int32 bytes offset id _ id_fits h)
            (rw (guard-le (offset + 4 + 2) (length bytes) (omega arith)) (rw e))),
      next,
    )

read_friends-write :
    (friends : List (ℤ × List ℕ)) (bytes : List ℕ) (offset : ℕ)
    → IsFriends friends
    → At bytes offset (friends_bytes friends)
    → read_friends (length friends) bytes offset ≡ ok (friend_infos friends)
unfolding read_friends friends_bytes
read_friends-write [] bytes offset fits h = refl
read_friends-write ((id, name) ∷ friends) bytes offset fits h =
    let (e, next) = read_friend-write bytes offset id name _ fits.0.0 fits.0.1 h in
    rw (e, read_friends) (rw (read_friends-write friends bytes _ fits.1 next))

module _ (code : ErrorCode) (friends : List (ℤ × List ℕ)) where
  response_append :
      encode_friend_list_response (record { error_code = code; friends = friends })
      ≡ write_uint16 [] (error_value code)
        ++ (write_uint32 [] (length friends % 2 ^ 32) ++ friends_bytes friends)
  unfolding encode_friend_list_response
  response_append =
      write_friends-append friends _
      ∙ ap (λ b. b ++ friends_bytes friends)
          (write_uint32-append (write_uint16 [] (error_value code)) (length friends % 2 ^ 32))
      ∙ append_assoc (write_uint16 [] (error_value code))
          (write_uint32 [] (length friends % 2 ^ 32)) (friends_bytes friends)

  friends_fields :
      (bytes : List ℕ)
      → IsFriends friends
      → length friends < 2 ^ 32
      → bytes
        ≡ write_uint16 [] (error_value code)
          ++ (write_uint32 [] (length friends % 2 ^ 32) ++ friends_bytes friends)
      → decode_friend_list_response bytes
        ≡ (guard (error_value code == 0x0000) >> ok (friend_infos friends))
  unfolding decode_friend_list_response
  friends_fields bytes fits count e =
      let start = At-start bytes _ e in
      let a = At-uint16 bytes 0 _ (error_value code) start in
      let b = At-uint32 bytes 2 _ (length friends % 2 ^ 32) a in
      let modulo : length friends % 2 ^ 32 ≡ length friends = omega arith in
      rw (guard-le 6 (length bytes) (omega (arith, b))) (
        rw (read_uint16-write_uint16 bytes 0 (error_value code) _ (error_value-lt code) start) (
          rw (read_uint32-write_uint32 bytes 2 (length friends % 2 ^ 32) _ (omega arith) a)
            (rw modulo (rw (read_friends-write friends bytes 6 fits b)))))

  -- A list of fewer than 2 ^ 32 friends, whose ids are ints and whose names have fewer than 2 ^ 16
  -- bytes, is read back by the client, in order; under any error code the client refuses the
  -- response.
  pub decode_friend_list_response-encode :
      IsFriends friends
      → length friends < 2 ^ 32
      → decode_friend_list_response
          (encode_friend_list_response (record { error_code = code; friends = friends }))
        ≡ (guard (error_value code == 0x0000) >> ok (friend_infos friends))
  decode_friend_list_response-encode fits count = friends_fields _ fits count response_append

module _ (from_id : ℤ) (content : List ℕ) (timestamp : ℤ) where
  notify_append :
      write_int64
        (write_uint32 (write_int32 [] from_id) (length content % 2 ^ 32) ++ content)
        timestamp
      ≡ write_int32 [] from_id
        ++ (write_uint32 [] (length content % 2 ^ 32) ++ (content ++ write_int64 [] timestamp))
  notify_append =
      write_int64-append _ timestamp
      ∙ ap (λ b. (b ++ content) ++ write_int64 [] timestamp)
          (write_uint32-append (write_int32 [] from_id) (length content % 2 ^ 32))
      ∙ append_assoc (write_int32 [] from_id ++ write_uint32 [] (length content % 2 ^ 32)) content
          (write_int64 [] timestamp)
      ∙ append_assoc (write_int32 [] from_id) (write_uint32 [] (length content % 2 ^ 32))
          (content ++ write_int64 [] timestamp)

  length-write_int64 : length (write_int64 [] timestamp) ≡ 8
  unfolding write_int64
  length-write_int64 = refl

  notify_fields :
      (bytes : List ℕ)
      → IsSigned (2 ^ 31) from_id
      → IsSigned (2 ^ 63) timestamp
      → length content + 16 < 2 ^ 32
      → bytes
        ≡ write_int32 [] from_id
          ++ (write_uint32 [] (length content % 2 ^ 32) ++ (content ++ write_int64 [] timestamp))
      → decode_message_notify bytes
        ≡ ok (record { from_id = from_id; content = content; timestamp = timestamp })
  unfolding decode_message_notify
  notify_fields bytes id_fits time_fits small e =
      let start = At-start bytes _ e in
      let a = At-int32 bytes 0 _ from_id start in
      let b = At-uint32 bytes 4 _ (length content % 2 ^ 32) a in
      let c = At-skip bytes 8 content (write_int64 [] timestamp) b in
      let tail : At bytes (8 + length content) (write_int64 [] timestamp ++ []) = rw append-nil c in
      let size : 16 + length content ≤ length bytes = omega (arith, c, length-write_int64) in
      let modulo : length content % 2 ^ 32 ≡ length content = omega arith in
      let index : (8 + length content) % 2 ^ 32 ≡ 8 + length content = omega arith in
      rw (guard-le 16 (length bytes) (omega arith)) (
        rw (read_int32-write_int32 bytes 0 from_id _ id_fits start) (
          rw (read_uint32-write_uint32 bytes 4 (length content % 2 ^ 32) _ (omega arith) a) (
            rw modulo (
              rw (guard-le ((8 + length content + 8) % 2 ^ 32) (length bytes) (omega arith)) (
                rw (read_string-append bytes 8 content _ b) (
                  rw index (
                    rw (
                      read_int64-write_int64 bytes (8 + length content) timestamp [] time_fits
                        tail))))))))

  -- The client decodes a notification to its sender, an int, its content and its time, 64 bits
  -- signed, if the content has fewer than 2 ^ 32 - 16 bytes.
  pub decode_message_notify-encode :
      IsSigned (2 ^ 31) from_id
      → IsSigned (2 ^ 63) timestamp
      → length content + 16 < 2 ^ 32
      → decode_message_notify (
          encode_message_notify
            (record { from_id = from_id; content = content; timestamp = timestamp }))
        ≡ ok (record { from_id = from_id; content = content; timestamp = timestamp })
  unfolding encode_message_notify
  decode_message_notify-encode id_fits time_fits small =
      notify_fields _ id_fits time_fits small notify_append
