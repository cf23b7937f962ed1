-- ===== src/Events/Registry/Steps.antt =====
-- Every step of the event loop does, and so does every run.
use qq_copy.Base.{ℕ, ◌≡◌, List, some, nat_eq, text_eq}
use qq_copy.Base.Assoc.{lookup}
use qq_copy.Services.{Services}
use qq_copy.Server.{Server, Connection}
use qq_copy.Events.{
  Step, accepts, reads_header, reads_body, fails_reading, runs_posted, writes, fails_writing, stops,
  step, starts, StartedReach, here, next, initial,
}
use qq_copy.Events.Writes.{WritesFront}
use qq_copy.Events.Registry.{empty-Sound, Sound}
use qq_copy.Events.Registry.Operations.{
  Sound-do_accept, Sound-read_header_done, Sound-read_failed, Sound-write_failed,
  Sound-connection_start, Sound-stop_all, Sound-run_posted, Sound-writes, Sound-read_body_done,
}

module _ {S : Services} where
  Step-Sound :
      {s t : Server S} → Step s t → Sound s.objects s.connections → Sound t.objects t.connections
  Step-Sound {s} (accepts h id free) sound = Sound-do_accept h id s free sound
  Step-Sound {s} (reads_header h conn header e r size bytes) sound =
      Sound-read_header_done h header s sound
  Step-Sound {s} (reads_body h conn len body now e r size bytes done) sound =
      Sound-read_body_done h conn.header_buffer body now s done sound
  Step-Sound {s} (fails_reading h conn e r) sound = Sound-read_failed h s sound
  Step-Sound {s} (runs_posted h bytes rest e) sound = Sound-run_posted h bytes rest s sound
  Step-Sound {s} (writes h conn bytes e w) sound = Sound-writes h conn bytes s e w sound
  Step-Sound {s} (fails_writing h conn bytes e w) sound = Sound-write_failed h s sound
  Step-Sound {s} stops sound = Sound-stop_all s sound

  StartedReach-Sound :
      {s t : Server S}
      → StartedReach s t
      → Sound s.objects s.connections
      → Sound t.objects t.connections
  StartedReach-Sound here sound = sound
  StartedReach-Sound (next r (step last)) sound = Step-Sound last (StartedReach-Sound r sound)
  StartedReach-Sound (next r (starts h conn e idle)) sound =
      Sound-connection_start h _ (StartedReach-Sound r sound)

-- In every state that a server reaches from its start, its connections being started, in whatever
-- order its operations complete and fail: a buffer in flight is the first of its connection's write
-- queue, so that a completed write never pops an empty queue; and the registry holds under each id a
-- connection that has this id.
pub reachable_server_is_sound :
    {S : Services} (db : S.Db) (cache : S.Cache) {s : Server S}
    → StartedReach (initial {S = S} db cache) s
    → ((h : ℕ) (conn : Connection) → lookup h s.objects ≡ some conn → WritesFront conn)
      × ((id : List ℕ) (h : ℕ)
          → lookup id s.connections ≡ some h
          → (conn : Connection) × (lookup h s.objects ≡ some conn) × (conn.conn_id ≡ id))
unfolding initial
reachable_server_is_sound db cache r =
    let sound = StartedReach-Sound r empty-Sound in (sound.fronts, sound.registered)
