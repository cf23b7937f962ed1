-- ===== src/Server/Objects.antt =====
-- Changes of one object: what they do to it, and that they leave everything else; and what the end
-- of a registration leaves.
use mathlib.Core.Option
use qq_copy.Base.{
  ℕ, ◌≡◌, ◌≢◌, sym, ap, ◌∙◌, inl, inr, none, some, arith, Option, Option-cases, Bool-cases, [],
  nat_eq, nat_beq, nat_beq_iff, List, refl, text_eq, text_beq_iff,
}
use qq_copy.Base.Assoc.{Assoc, lookup, lookup-insert, erase, lookup-erase}
use qq_copy.Base.Int.{pos, int_beq}
use qq_copy.Services.{Services}
use qq_copy.Server.{Server, Connection, update, get_id, get_user_id, manager_stop}

id_of : Option (List ℕ) → List ℕ
id_of none = []
id_of (some id) = id

module _ {S : Services} where
  pub update-frame :
      (h : ℕ) (f : Connection → Connection) (s : Server S)
      → ((update h f s).connections ≡ s.connections)
        × ((update h f s).user_to_conn ≡ s.user_to_conn)
        × ((update h f s).posted ≡ s.posted)
        × ((update h f s).db ≡ s.db)
        × ((update h f s).cache ≡ s.cache)
  unfolding update
  update-frame h f s = ground arith

  pub update_absent :
      (h : ℕ) (f : Connection → Connection) (s : Server S)
      → lookup h s.objects ≡ none
      → update h f s ≡ s
  unfolding update
  update_absent h f s e = rw (e, update)

  pub lookup-update_self :
      (h : ℕ) (f : Connection → Connection) (s : Server S) {conn : Connection}
      → lookup h s.objects ≡ some conn
      → lookup h (update h f s).objects ≡ some (f conn)
  unfolding update
  lookup-update_self h f s {conn} e =
      rw (e, update) (ground (arith, lookup-insert h h (f conn) s.objects, nat_beq_iff h h))

  pub lookup-update_other :
      (h j : ℕ) (f : Connection → Connection) (s : Server S)
      → h ≢ j
      → lookup j (update h f s).objects ≡ lookup j s.objects
  unfolding update
  lookup-update_other h j f s ne = elim (Option-cases (lookup h s.objects)) [
    | inl e ↦ rw (e, update)
    | inr (conn, e) ↦
        rw (e, update) (ground (arith, lookup-insert h j (f conn) s.objects, nat_beq_iff h j))
  ]

  -- A change that keeps a field of the object keeps it at every address.
  pub update-lookup {κ} :
      {B : Type κ} (view : Connection → B) (h j : ℕ) (f : Connection → Connection) (s : Server S)
      → ((conn : Connection) → view (f conn) ≡ view conn)
      → Option.map view (lookup j (update h f s).objects) ≡ Option.map view (lookup j s.objects)
  update-lookup view h j f s keep = elim (Bool-cases (nat_beq h j)) [
    | inr other ↦
        ap (Option.map view) (lookup-update_other h j f s (λ e. cc (other, (nat_beq_iff h j).1 e)))
    | inl same ↦ rw (sym ((nat_beq_iff h j).0 same)) (elim (Option-cases (lookup h s.objects)) [
      | inl e ↦ rw (update_absent h f s e)
      | inr (conn, e) ↦ rw (lookup-update_self h f s e) (rw e (ap some (keep conn)))
    ])
  ]

  get_id-lookup :
      (j : ℕ) (t : Server S) → get_id j t ≡ id_of (Option.map (λ c. c.conn_id) (lookup j t.objects))
  unfolding get_id id_of
  get_id-lookup j t = elim (Option-cases (lookup j t.objects)) [
    | inl e ↦ rw (e, get_id)
    | inr (c, e) ↦ rw (e, get_id)
  ]

  pub get_id-update :
      (h j : ℕ) (f : Connection → Connection) (s : Server S)
      → ((conn : Connection) → (f conn).conn_id ≡ conn.conn_id)
      → get_id j (update h f s) ≡ get_id j s
  get_id-update h j f s keep =
      get_id-lookup j (update h f s)
      ∙ ap id_of (update-lookup (λ c. c.conn_id) h j f s keep)
      ∙ sym (get_id-lookup j s)

lookup-erase_self : (id : List ℕ) (m : Assoc (List ℕ) ℕ) → lookup id (erase id m) ≡ none
lookup-erase_self id m = lookup-erase id id m ∙ rw ((text_beq_iff id id).1 refl)

pub lookup-manager_stop :
    {S : Services} (h : ℕ) (s : Server S)
    → lookup (get_id h s) (manager_stop h s).connections ≡ none
unfolding manager_stop
lookup-manager_stop h s = elim (Bool-cases (int_beq (get_user_id h s) (pos 0))) [
  | inl guest ↦ rw (guest, manager_stop) (lookup-erase_self (get_id h s) s.connections)
  | inr user ↦ rw (user, manager_stop) (lookup-erase_self (get_id h s) s.connections)
]
