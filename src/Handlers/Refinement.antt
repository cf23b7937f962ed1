-- ===== src/Handlers/Refinement.antt =====
-- The switch over the commands keeps to the specification of the handlers.
use qq_copy.Base.{ℕ, ◌≡◌, sym, ◌⊎◌, inl, inr, List, some, some-eq}
use qq_copy.Base.Int.{ℤ}
use qq_copy.Protocol.{CommandCode}
use qq_copy.Protocol.{
  login_req, login_resp, message_req, message_resp, friend_list_req, friend_list_resp,
  add_friend_req, add_friend_resp, register_req, register_resp, security_question_req,
  security_question_resp, reset_password_req, reset_password_resp, version_check_req,
  version_check_resp,
}
use qq_copy.ServerCodec.{
  decode_login_request, decode_message_request, decode_register_request,
  decode_security_question_request, decode_reset_password_request, decode_version_check_request,
}
use qq_copy.Services.{Services}
use qq_copy.Server.{Server}
use qq_copy.Handlers.Dispatch.{dispatch}
use qq_copy.Handlers.Results.{
  Result, handle_login-Result, handle_chat_message-Result, handle_friend_list-Result,
  handle_register-Result, handle_security_question-Result, handle_reset_password-Result,
  handle_version_check-Result, decoded-Result, add_friend_payload-Result,
}

-- The command of the response to a request. There is none for what is no request.
abbrev pub response_to : CommandCode → CommandCode
response_to login_req = login_resp
response_to message_req = message_resp
response_to friend_list_req = friend_list_resp
response_to add_friend_req = add_friend_resp
response_to register_req = register_resp
response_to security_question_req = security_question_resp
response_to reset_password_req = reset_password_resp
response_to version_check_req = version_check_resp
response_to c = c

-- Whatever packet comes in, the server stays as it was or reaches a state of the specification
-- under the command that answers it.
pub dispatch-Result :
    {S : Services} (c : CommandCode) (h : ℕ) (payload : List ℕ) (now : ℤ) (s : Server S)
    {t : Server S}
    → dispatch c h payload now s ≡ some t
    → (t ≡ s) ⊎ Result h now s (response_to c) t
unfolding dispatch
dispatch-Result login_req h payload now s e =
    decoded-Result h now s login_resp (decode_login_request payload) _ (handle_login-Result h now s)
      e
dispatch-Result message_req h payload now s e =
    decoded-Result h now s message_resp (decode_message_request payload) _
      (handle_chat_message-Result h now s) e
dispatch-Result friend_list_req h payload now s e =
    inr (rw (some-eq e) at (handle_friend_list-Result h now s))
dispatch-Result add_friend_req h payload now s e = add_friend_payload-Result h now s payload e
dispatch-Result register_req h payload now s e =
    decoded-Result h now s register_resp (decode_register_request payload) _
      (handle_register-Result h now s) e
dispatch-Result security_question_req h payload now s e =
    decoded-Result h now s security_question_resp (decode_security_question_request payload) _
      (handle_security_question-Result h now s) e
dispatch-Result reset_password_req h payload now s e =
    decoded-Result h now s reset_password_resp (decode_reset_password_request payload) _
      (handle_reset_password-Result h now s) e
dispatch-Result version_check_req h payload now s e =
    decoded-Result h now s version_check_resp (decode_version_check_request payload) _
      (handle_version_check-Result h now s) e
dispatch-Result _ h payload now s e = inl (sym (some-eq e))
