-- ===== src/Handlers/Account.antt =====
-- Registration, security questions, password resets and version checks (server/src/message_handler.cpp).
use qq_copy.Base.{ℕ, List, [], none, some, ◌||◌, if◌then◌else◌, text_beq, not}
use qq_copy.Base.Text.{utf8}
use qq_copy.Base.Int.{ℤ, pos}
use qq_copy.Protocol.{
  ErrorCode, RegisterRequest, SecurityQuestionRequest, ResetPasswordRequest, VersionCheckRequest,
  VersionCheckResponse,
}
use qq_copy.Protocol.{
  register_resp, security_question_resp, reset_password_resp, version_check_resp,
}
use qq_copy.Protocol.{
  success, user_not_found, database_error, username_exists, invalid_answer, invalid_request,
}
use qq_copy.ServerCodec.{
  encode_register_response, encode_security_question_response, encode_reset_password_response,
  encode_version_check_response,
}
use qq_copy.Services.{Services}
use qq_copy.Server.{Server}
use qq_copy.Handlers.{is_empty, sha256, send_response}

abbrev pub server_app_version : ℤ
server_app_version = pos 2

unfoldable pub version_response : VersionCheckResponse
version_response = record {
  error_code = success;
  server_version = server_app_version;
  update_url = utf8 "https://github.com/lobster-xiaozhua/qq-copy/releases";
  update_desc = utf8 "新版本可用，请下载最新安装包更新";
}

module _ {S : Services} where
  open S use {digest}

  unfoldable pub register_response : ℕ → ErrorCode → ℤ → Server S → Server S
  unfolding send_response
  register_response h code user_id s =
      send_response h register_resp
        (encode_register_response (record { error_code = code; user_id = user_id })) s

  unfoldable pub handle_register : ℕ → RegisterRequest → Server S → Server S
  handle_register h req s =
      if is_empty req.username
        || is_empty req.password
        || is_empty req.security_question
        || is_empty req.security_answer
      then register_response h invalid_request (pos 0) s
      else let (exists, db1) = S.username_exists req.username s.db in
        if exists
        then register_response h username_exists (pos 0) (record s { db = db1 })
        else let password_hash = sha256 digest req.password in
          let answer_hash = sha256 digest req.security_answer in
          let (made, db2) =
            S.register_user req.username password_hash req.security_question answer_hash db1 in
          let s2 = record s { db = db2 } in
          elim made [
            | none ↦ register_response h database_error (pos 0) s2
            | some user_id ↦ register_response h success user_id s2
          ]

  unfoldable pub security_question_response : ℕ → ErrorCode → List ℕ → Server S → Server S
  unfolding send_response
  security_question_response h code question s =
      send_response h security_question_resp
        (encode_security_question_response (record { error_code = code; question = question })) s

  unfoldable pub handle_security_question : ℕ → SecurityQuestionRequest → Server S → Server S
  handle_security_question h req s =
      if is_empty req.username
      then security_question_response h invalid_request [] s
      else let (found, db1) = S.get_security_question req.username s.db in
        let s1 = record s { db = db1 } in
        elim found [
          | none ↦ security_question_response h user_not_found [] s1
          | some (question, _) ↦ security_question_response h success question s1
        ]

  unfoldable pub reset_password_response : ℕ → ErrorCode → Server S → Server S
  unfolding send_response
  reset_password_response h code s =
      send_response h reset_password_resp
        (encode_reset_password_response (record { error_code = code })) s

  -- The part of handle_reset_password behind the stored answer.
  unfoldable pub reset_answered : ℕ → ResetPasswordRequest → List ℕ → Server S → Server S
  reset_answered h req answer_hash s =
      if not (text_beq (sha256 digest req.security_answer) answer_hash)
      then reset_password_response h invalid_answer s
      else let (done, db1) = S.reset_password req.username (sha256 digest req.new_password) s.db in
        let s1 = record s { db = db1 } in
        if not done
        then reset_password_response h database_error s1
        else reset_password_response h success s1

  unfoldable pub handle_reset_password : ℕ → ResetPasswordRequest → Server S → Server S
  handle_reset_password h req s =
      if is_empty req.username || is_empty req.new_password || is_empty req.security_answer
      then reset_password_response h invalid_request s
      else let (found, db1) = S.get_security_question req.username s.db in
        let s1 = record s { db = db1 } in
        elim found [
          | none ↦ reset_password_response h user_not_found s1
          | some (_, answer_hash) ↦ reset_answered h req answer_hash s1
        ]

  unfoldable pub handle_version_check : ℕ → VersionCheckRequest → Server S → Server S
  unfolding send_response
  handle_version_check h req s =
      send_response h version_check_resp (encode_version_check_response version_response) s
