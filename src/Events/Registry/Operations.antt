-- ===== src/Events/Registry/Operations.antt =====
-- Every operation of the server keeps the write queues and the registry sound.
use qq_copy.Base.{
  ℕ, ◌*◌, ltb, ◌&&◌, ◌≡◌, refl, sym, ap, ◌∙◌, inl, inr, List, none, some, nat_eq, text_eq,
  Option-cases, some-eq, none-ne-some, Bool-cases,
}
use qq_copy.Base.Int.{ℤ, pos, int_beq}
use qq_copy.Base.Assoc.{Assoc, lookup, insert, erase, lookup-erase_cases}
use qq_copy.Outcome.{Outcome-cases}
use qq_copy.Wire.{read_uint32}
use qq_copy.Protocol.{CommandCode}
use qq_copy.Services.{Services}
use qq_copy.Server.{
  Server, Connection, do_accept, manager_start, manager_stop, new_connection, get_id, get_user_id,
  update, append_write, finish_write, connection_start, read_header_done, accept_header,
  do_read_header, read_failed, write_failed, stop_all, set_user_id, set_user_connection, send,
}
use qq_copy.Handlers.{send_response, login_state}
use qq_copy.Handlers.Dispatch.{dispatch, handle_message, read_body_done, header_packet}
use qq_copy.Handlers.Results.{Result, answered, logged_in, passed_on}
use qq_copy.Handlers.Refinement.{dispatch-Result}
use qq_copy.Handlers.Access.{deliver-frame}
use qq_copy.Events.{run_posted}
use qq_copy.Events.Writes.{WritesFront, write_queue_keeps_order}
use qq_copy.Events.Registry.{
  insert_self, Sound-insert, append_write-conn_id, finish_write-conn_id, map-some, new-front,
  Sound-eq, Sound-new, Sound,
}

module _ {S : Services} where
  pub Sound-update :
      (h : ℕ) (f : Connection → Connection) (s : Server S)
      → Sound s.objects s.connections
      → ((conn : Connection)
          → lookup h s.objects ≡ some conn
          → WritesFront (f conn) × ((f conn).conn_id ≡ conn.conn_id))
      → Sound (update h f s).objects (update h f s).connections
  unfolding update
  Sound-update h f s sound keeps = elim (Option-cases (lookup h s.objects)) [
    | inl e ↦ rw (e, update) sound
    | inr (conn, e) ↦
        rw (e, update) (Sound-insert h conn (f conn) sound e (keeps conn e).0 (keeps conn e).1)
  ]

  -- A change of an object's id, buffers and writes: none of them.
  pub Sound-update_same :
      (h : ℕ) (f : Connection → Connection) (s : Server S)
      → Sound s.objects s.connections
      → ((conn : Connection) → (f conn).write_buffer ≡ conn.write_buffer)
      → ((conn : Connection) → (f conn).in_flight ≡ conn.in_flight)
      → ((conn : Connection) → (f conn).conn_id ≡ conn.conn_id)
      → Sound (update h f s).objects (update h f s).connections
  Sound-update_same h f s sound same_buffer same_flight same_id = Sound-update h f s sound λ conn e.
      (
        (λ bytes w.
            let (rest, b) = sound.fronts h conn e bytes (sym (same_flight conn) ∙ w) in
            (rest, same_buffer conn ∙ b)),
        same_id conn,
      )

  pub Sound-manager_stop :
      (h : ℕ) (s : Server S)
      → Sound s.objects s.connections
      → Sound (manager_stop h s).objects (manager_stop h s).connections
  unfolding manager_stop
  Sound-manager_stop h s sound = elim (Bool-cases (int_beq (get_user_id h s) (pos 0))) [
    | inl guest ↦ rw (guest, manager_stop) (erased sound)
    | inr user ↦ rw (user, manager_stop) (erased sound)
  ]
    where
      erased :
          {objects : Assoc ℕ Connection} {connections : Assoc (List ℕ) ℕ}
          → Sound objects connections
          → Sound objects (erase (get_id h s) connections)
      erased {connections} k = record {
        fronts = k.fronts;
        registered =
            λ id j e. k.registered id j (lookup-erase_cases (get_id h s) id j connections e);
      }

  pub do_accept-objects :
      (h : ℕ) (id : List ℕ) (s : Server S)
      → (do_accept h id s).objects ≡ insert h (new_connection id) s.objects
  unfolding do_accept manager_start
  do_accept-objects h id s = refl

  pub do_accept-connections :
      (h : ℕ) (id : List ℕ) (s : Server S)
      → (do_accept h id s).connections ≡ insert (new_connection id).conn_id h s.connections
  unfolding do_accept manager_start get_id new_connection
  do_accept-connections h id s = rw (insert_self h (new_connection id) s.objects, get_id)

  pub Sound-do_accept :
      (h : ℕ) (id : List ℕ) (s : Server S)
      → lookup h s.objects ≡ none
      → Sound s.objects s.connections
      → Sound (do_accept h id s).objects (do_accept h id s).connections
  Sound-do_accept h id s free sound =
      let made : Connection = new_connection id in
      Sound-eq (do_accept-objects h id s) (do_accept-connections h id s)
        (Sound-new h made sound free (new-front id))

  pub Result-Sound :
      (h : ℕ) (now : ℤ) {s : Server S} {c : CommandCode} {t : Server S}
      → Result h now s c t
      → Sound s.objects s.connections
      → Sound t.objects t.connections
  unfolding send_response send login_state set_user_id set_user_connection
  Result-Sound h now (answered c payload db) sound = sound
  Result-Sound h now {s = s} (logged_in user req payload found offline) sound =
      Sound-update_same h _ (record s { db = (S.verify_user req.username req.password s.db).1 })
        sound (λ c. refl) (λ c. refl) (λ c. refl)
  Result-Sound h now {s = s} (passed_on req payload msg_id guest sent) sound =
      let frame =
        deliver-frame (get_user_id h s) req now
          (record s { db = (S.send_message (get_user_id h s) req.to_id req.content s.db).1 }) in
      Sound-eq frame.1 frame.2 sound

  pub dispatch-Sound :
      (h : ℕ) (c : CommandCode) (payload : List ℕ) (now : ℤ) (s : Server S) {t : Server S}
      → dispatch c h payload now s ≡ some t
      → Sound s.objects s.connections
      → Sound t.objects t.connections
  dispatch-Sound h c payload now s e sound = elim (dispatch-Result c h payload now s e) [
    | inl same ↦ rw same sound
    | inr result ↦ Result-Sound h now result sound
  ]

  pub Sound-accept_header :
      (h : ℕ) (header : List ℕ) (len : ℕ) (s : Server S)
      → Sound s.objects s.connections
      → Sound (accept_header h header len s).objects (accept_header h header len s).connections
  unfolding accept_header
  Sound-accept_header h header len s sound =
      elim (Bool-cases (ltb 0 len && ltb len (1024 * 1024))) [
        | inl good ↦
            rw (good, accept_header)
              (Sound-update_same h _ s sound (λ c. refl) (λ c. refl) (λ c. refl))
        | inr bad ↦
            rw (bad, accept_header)
              (Sound-manager_stop h _
                (Sound-update_same h _ s sound (λ c. refl) (λ c. refl) (λ c. refl)))
      ]

  pub Sound-read_header_done :
      (h : ℕ) (header : List ℕ) (s : Server S)
      → Sound s.objects s.connections
      → Sound (read_header_done h header s).objects (read_header_done h header s).connections
  unfolding read_header_done
  Sound-read_header_done h header s sound = elim (Outcome-cases (read_uint32 header 3)) [
    | inl (len, e) ↦ rw (e, read_header_done) (Sound-accept_header h header len s sound)
    | inr (inl e) ↦ rw (e, read_header_done) sound
    | inr (inr e) ↦ rw (e, read_header_done) sound
  ]

  pub Sound-do_read_header :
      (h : ℕ) (s : Server S)
      → Sound s.objects s.connections
      → Sound (do_read_header h s).objects (do_read_header h s).connections
  unfolding do_read_header
  Sound-do_read_header h s sound = Sound-update_same h _ s sound (λ c. refl) (λ c. refl) (λ c. refl)

  pub Sound-read_failed :
      (h : ℕ) (s : Server S)
      → Sound s.objects s.connections
      → Sound (read_failed h s).objects (read_failed h s).connections
  unfolding read_failed
  Sound-read_failed h s sound =
      Sound-manager_stop h _ (Sound-update_same h _ s sound (λ c. refl) (λ c. refl) (λ c. refl))

  pub Sound-write_failed :
      (h : ℕ) (s : Server S)
      → Sound s.objects s.connections
      → Sound (write_failed h s).objects (write_failed h s).connections
  unfolding write_failed
  Sound-write_failed h s sound =
      Sound-manager_stop h _
        (Sound-update h _ s sound (λ conn e. ((λ bytes w. absurd (none-ne-some w)), refl)))

  pub Sound-connection_start :
      (h : ℕ) (s : Server S)
      → Sound s.objects s.connections
      → Sound (connection_start h s).objects (connection_start h s).connections
  unfolding connection_start
  Sound-connection_start h s sound = Sound-do_read_header h s sound

  pub Sound-stop_all :
      (s : Server S)
      → Sound s.objects s.connections
      → Sound (stop_all s).objects (stop_all s).connections
  unfolding stop_all lookup
  Sound-stop_all s sound = record {
    fronts = sound.fronts;
    registered = λ id h e. absurd (none-ne-some e);
  }

  pub Sound-run_posted :
      (h : ℕ) (bytes : List ℕ) (rest : List (ℕ × List ℕ)) (s : Server S)
      → Sound s.objects s.connections
      → Sound (run_posted h bytes rest s).objects (run_posted h bytes rest s).connections
  unfolding run_posted
  Sound-run_posted h bytes rest s sound =
      Sound-update h (append_write bytes) (record s { posted = rest }) sound
        λ conn e. (
          ((write_queue_keeps_order conn (sound.fronts h conn e)).0 bytes).0,
          append_write-conn_id bytes conn,
        )

  pub Sound-writes :
      (h : ℕ) (conn : Connection) (bytes : List ℕ) (s : Server S)
      → lookup h s.objects ≡ some conn
      → conn.in_flight ≡ some bytes
      → Sound s.objects s.connections
      → Sound
          (update h (finish_write bytes) s).objects
          (update h (finish_write bytes) s).connections
  Sound-writes h conn bytes s e w sound = Sound-update h (finish_write bytes) s sound λ c f.
      let same : conn ≡ c = some-eq (sym e ∙ f) in
      (
        ((write_queue_keeps_order c (sound.fronts h c f)).1 bytes
            (ap (λ d. d.in_flight) (sym same) ∙ w)).0,
        finish_write-conn_id bytes c,
      )

  pub Sound-read_body_done :
      (h : ℕ) (header body : List ℕ) (now : ℤ) (s : Server S) {t : Server S}
      → read_body_done h header body now s ≡ some t
      → Sound s.objects s.connections
      → Sound t.objects t.connections
  unfolding read_body_done handle_message
  Sound-read_body_done h header body now s {t} e sound =
      elim (Outcome-cases (header_packet header body)) [
        | inl (p, parts) ↦
            let (u, handled, same) =
              map-some (do_read_header h) (dispatch p.command h p.payload now s)
                (rw (parts, read_body_done) at e) in
            rw (sym same)
              (Sound-do_read_header h u (dispatch-Sound h p.command p.payload now s handled sound))
        | inr (inl parts) ↦ absurd (none-ne-some (rw (parts, read_body_done) at e))
        | inr (inr parts) ↦ absurd (none-ne-some (rw (parts, read_body_done) at e))
      ]
