-- ===== src/Handlers/Access.antt =====
-- Who may change what: the registry of users, the responses, and requests without a login.
use qq_copy.Base.{
  ℕ, ◌≡◌, ◌≢◌, refl, sym, ap, ◌∙◌, ◌⊎◌, inl, inr, List, [], ◌∷◌, ◌++◌, false, none, some,
  if◌then◌else◌, arith, Bool-cases, Option-cases, append_assoc, append-nil, text_eq, nat_eq,
}
use qq_copy.Base.Int.{ℤ, int_beq, int_beq_iff, int_eq, pos}
use qq_copy.Base.Assoc.{lookup, lookup-insert}
use qq_copy.Protocol.{
  login_resp, message_resp, CommandCode, MessageRequest, encode, protocol_version,
}
use qq_copy.Services.{Services}
use qq_copy.Server.{
  Server, Connection, update, get_id, get_user_id, set_user_id, set_user_connection, is_user_online,
  send, send_to_user,
}
use qq_copy.Server.Objects.{update-frame, get_id-update}
use qq_copy.Handlers.{send_response, login_state, deliver, notify_packet}
use qq_copy.Handlers.Dispatch.{dispatch}
use qq_copy.Handlers.Results.{Result, answered, logged_in, passed_on}
use qq_copy.Handlers.Refinement.{response_to, dispatch-Result}

-- Nothing, or the one notification of a message from this user at this time.
abbrev pub NotifiesOnce : ℤ → ℤ → List (ℕ × List ℕ) → Type 0
NotifiesOnce from_id now front =
    (front ≡ [])
    ⊎ ((r : ℕ) × (content : List ℕ) × (front ≡ (r, notify_packet from_id content now) ∷ []))

module _ {S : Services} where
  -- What is passed on is one packet at most, and nothing else changes but the unread counts.
  pub deliver-frame :
      (from_id : ℤ) (req : MessageRequest) (now : ℤ) (s : Server S)
      → ((deliver from_id req now s).user_to_conn ≡ s.user_to_conn)
        × ((deliver from_id req now s).objects ≡ s.objects)
        × ((deliver from_id req now s).connections ≡ s.connections)
        × ((deliver from_id req now s).db ≡ s.db)
  unfolding deliver send_to_user is_user_online
  deliver-frame from_id req now s = ground arith

  pub deliver-posted :
      (from_id : ℤ) (req : MessageRequest) (now : ℤ) (s : Server S)
      → (front : List (ℕ × List ℕ)) × NotifiesOnce from_id now front
        × ((deliver from_id req now s).posted ≡ s.posted ++ front)
  unfolding deliver send_to_user
  deliver-posted from_id req now s = elim (Bool-cases (is_user_online req.to_id s)) [
    | inr offline ↦ rw offline ([], inl refl, sym (append-nil s.posted))
    | inl online ↦ rw online (elim (Option-cases (lookup req.to_id s.user_to_conn)) [
      | inl e ↦ rw (e, send_to_user) ([], inl refl, sym (append-nil s.posted))
      | inr (id, e) ↦
          rw (e, send_to_user)
            (elim (Option-cases (lookup id s.connections)) [
              | inl f ↦ rw (f, send_to_user) ([], inl refl, sym (append-nil s.posted))
              | inr (r, f) ↦
                  rw (f, send_to_user)
                    (
                      (r, notify_packet from_id req.content now) ∷ [],
                      inr (r, req.content, refl),
                      refl,
                    )
            ])
    ])
  ]

  pub login_state-posted : (h : ℕ) (u : ℤ) (s : Server S) → (login_state h u s).posted ≡ s.posted
  unfolding login_state set_user_id update set_user_connection
  login_state-posted h u s = ground arith

  -- A login enters the connection's id for the user, and touches no other entry.
  pub login_state-lookup :
      (h : ℕ) (u v : ℤ) (s : Server S)
      → lookup v (login_state h u s).user_to_conn
        ≡ (if int_beq u v then some (get_id h s) else lookup v s.user_to_conn)
  unfolding login_state set_user_id set_user_connection
  login_state-lookup h u v s =
      let f : Connection → Connection = λ c. record c { user_id = u } in
      lookup-insert u v (get_id h (update h f s)) (update h f s).user_to_conn
      ∙ ap (λ m. if int_beq u v then some (get_id h (update h f s)) else lookup v m)
          (update-frame h f s).1
      ∙ ap (λ id. if int_beq u v then some id else lookup v s.user_to_conn)
          (get_id-update h h f s (λ c. refl))

-- What a packet does to the entry of a user: nothing, or a login of this connection, where there
-- was no entry.
abbrev pub KeepsEntry : {S : Services} → ℕ → ℤ → Server S → Server S → Type 0
KeepsEntry h u s t =
    (lookup u t.user_to_conn ≡ lookup u s.user_to_conn)
    ⊎ ((lookup u s.user_to_conn ≡ none) × (lookup u t.user_to_conn ≡ some (get_id h s)))

offline-none :
    {S : Services} (u : ℤ) (s : Server S)
    → is_user_online u s ≡ false
    → lookup u s.user_to_conn ≡ none
unfolding is_user_online
offline-none u s e = ground arith

Result-KeepsEntry :
    {S : Services} (h : ℕ) (now : ℤ) (u : ℤ) {s : Server S} {c : CommandCode} {t : Server S}
    → Result h now s c t
    → KeepsEntry h u s t
unfolding send_response send get_id
Result-KeepsEntry h now u (answered c payload db) = inl refl
Result-KeepsEntry {S} h now u {s = s} (logged_in user req payload found offline) =
    let id = user.user_id in
    let entry =
      login_state-lookup h id u
        (record s { db = (S.verify_user req.username req.password s.db).1 }) in
    elim (Bool-cases (int_beq id u)) [
      | inl same ↦
          let e = (int_beq_iff id u).0 same in
          inr (rw e at (offline-none id s offline), rw same at entry)
      | inr other ↦ inl (rw other at entry)
    ]
Result-KeepsEntry h now u {s = s} (passed_on req payload msg_id guest sent) =
    inl (ap (lookup u) (deliver-frame _ req now _).0)

-- No packet that is dispatched takes the entry of a user who is online away or gives it to another
-- connection: after a packet each user's entry is what it was, or there was none and the packet's
-- own connection has logged in as that user.
pub dispatch-KeepsEntry :
    {S : Services} (c : CommandCode) (h : ℕ) (payload : List ℕ) (now : ℤ) (s : Server S)
    {t : Server S} (u : ℤ)
    → dispatch c h payload now s ≡ some t
    → KeepsEntry h u s t
dispatch-KeepsEntry {S} c h payload now s u e = elim (dispatch-Result c h payload now s e) [
  | inl same ↦ inl (ap (λ (r : Server S). lookup u r.user_to_conn) same)
  | inr result ↦ Result-KeepsEntry h now u result
]

-- The posted send of a response.
abbrev pub response_entry : ℕ → CommandCode → List ℕ → ℕ × List ℕ
response_entry h command payload =
    (h, encode (record { version = protocol_version; command = command; payload = payload }))

-- What a packet adds to the posted sends: one response to its connection under the command that
-- answers it; or, where that is the response to a message of a user who is logged in, the same behind
-- one notification from this user.
abbrev pub Responds : {S : Services} → ℕ → ℤ → CommandCode → Server S → Server S → Type 0
Responds h now command s t =
    (payload : List ℕ) × ((t.posted ≡ s.posted ++ response_entry h command payload ∷ [])
      ⊎ ((r : ℕ) × (content : List ℕ) × (command ≡ message_resp)
          × (get_user_id h s ≢ pos 0)
          × (t.posted
              ≡ s.posted
                ++ ((r, notify_packet (get_user_id h s) content now)
                    ∷ response_entry h command payload
                    ∷ []))))

member-ne : (u : ℤ) → int_beq u (pos 0) ≡ false → u ≢ pos 0
member-ne u member same = absurd (cc ((int_beq_iff u (pos 0)).1 same, member))

Result-Responds :
    {S : Services} (h : ℕ) (now : ℤ) {s : Server S} {c : CommandCode} {t : Server S}
    → Result h now s c t
    → Responds h now c s t
unfolding send_response send
Result-Responds h now (answered c payload db) = (payload, inl refl)
Result-Responds h now {s = s} (logged_in user req payload found offline) = (
  payload,
  inl (
      ap (λ p. p ++ response_entry h login_resp payload ∷ [])
        (login_state-posted h user.user_id _)),
)
Result-Responds {S} h now {s = s} (passed_on req payload msg_id member sent) =
    let from_id = get_user_id h s in
    let db = (S.send_message from_id req.to_id req.content s.db).1 in
    let (front, once, e) = deliver-posted from_id req now (record s { db = db }) in
    let entry = response_entry h message_resp payload in
    elim once [
      | inl none_sent ↦ (
        payload,
        inl (
            ap (λ p. p ++ entry ∷ [])
              (e ∙ ap (λ f. s.posted ++ f) none_sent ∙ append-nil s.posted)),
      )
      | inr (r, content, one) ↦ (
        payload,
        inr (
          r,
          content,
          refl,
          member-ne from_id member,
          ap (λ p. p ++ entry ∷ []) (e ∙ ap (λ f. s.posted ++ f) one)
              ∙ append_assoc s.posted ((r, notify_packet from_id content now) ∷ []) (entry ∷ []),
        ),
      )
    ]

-- Every packet that is dispatched gets at most one response: the server's state stays as it was; or
-- one response to the packet's connection is posted, under the command that answers the request, and
-- nothing else; or the request is a message of a user who is logged in, and what is posted is one
-- notification from this user, to some connection, and then one response to the packet's connection.
pub dispatch-Responds :
    {S : Services} (c : CommandCode) (h : ℕ) (payload : List ℕ) (now : ℤ) (s : Server S)
    {t : Server S}
    → dispatch c h payload now s ≡ some t
    → (t ≡ s) ⊎ Responds h now (response_to c) s t
dispatch-Responds {S} c h payload now s e = elim (dispatch-Result c h payload now s e) [
  | inl same ↦ inl same
  | inr result ↦ inr (Result-Responds h now result)
]
