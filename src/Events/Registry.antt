-- ===== src/Events/Registry.antt =====
-- What holds in every state of a server whose connections are started: the write queues and the
-- registry of connections (server/src/connection_manager.cpp).
pub mod Operations
pub mod Steps
use mathlib.Core.Option
use qq_copy.Base.{
  ℕ, ◌≡◌, refl, sym, ap, ◌∙◌, inl, inr, List, [], Option, none, some, arith, nat_eq, text_eq,
  some-eq, none-ne-some, Bool-cases, nat_beq_iff, nat_beq,
}
use qq_copy.Base.Assoc.{Assoc, lookup, insert, lookup-insert, lookup-insert_cases}
use qq_copy.Server.{Connection, new_connection, append_write, finish_write, do_write, next_write}
use qq_copy.Events.Writes.{WritesFront}

-- Every object's buffer in flight is the first that waits, and a registered id is that of the
-- object at the registered address.
pub record Sound (objects : Assoc ℕ Connection) (connections : Assoc (List ℕ) ℕ) : Type 0 where
  pub fronts : (h : ℕ) (conn : Connection) → lookup h objects ≡ some conn → WritesFront conn
  pub registered :
      (id : List ℕ) (h : ℕ)
      → lookup id connections ≡ some h
      → (conn : Connection) × (lookup h objects ≡ some conn) × (conn.conn_id ≡ id)

pub insert_self :
    (h : ℕ) (c : Connection) (m : Assoc ℕ Connection) → lookup h (insert h c m) ≡ some c
insert_self h c m = lookup-insert h h c m ∙ rw ((nat_beq_iff h h).1 refl)

-- An object replaced by one with its id.
pub Sound-insert :
    (h : ℕ) (old new : Connection) {objects : Assoc ℕ Connection} {connections : Assoc (List ℕ) ℕ}
    → Sound objects connections
    → lookup h objects ≡ some old
    → WritesFront new
    → new.conn_id ≡ old.conn_id
    → Sound (insert h new objects) connections
Sound-insert h old new {objects} {connections} s at front same = record {
  fronts = λ j conn e. elim (lookup-insert_cases h j new conn objects e) [
    | inl (_, made) ↦ rw made at front
    | inr (_, before) ↦ s.fronts j conn before
  ];
  registered = λ id j e.
      let (conn, found, named) = s.registered id j e in
      elim (Bool-cases (nat_beq h j)) [
        | inl b ↦
            let k : h ≡ j = (nat_beq_iff h j).0 b in
            (
              new,
              ap (λ i. lookup i (insert h new objects)) (sym k) ∙ insert_self h new objects,
              same
                  ∙ ap (λ c. c.conn_id) (some-eq (sym at ∙ ap (λ i. lookup i objects) k ∙ found))
                  ∙ named,
            )
        | inr b ↦ (conn, lookup-insert h j new objects ∙ rw b found, named)
      ];
}

pub append_write-conn_id :
    (bytes : List ℕ) (conn : Connection) → (append_write bytes conn).conn_id ≡ conn.conn_id
unfolding append_write do_write
append_write-conn_id bytes conn = ground arith

pub finish_write-conn_id :
    (bytes : List ℕ) (conn : Connection) → (finish_write bytes conn).conn_id ≡ conn.conn_id
unfolding finish_write next_write do_write
finish_write-conn_id bytes conn = ground arith

pub map-some {ℓ κ} :
    {A : Type ℓ} {B : Type κ} (f : A → B) (o : Option A) {b : B}
    → Option.map f o ≡ some b
    → (a : A) × (o ≡ some a) × (f a ≡ b)
map-some f none e = absurd (none-ne-some e)
map-some f (some a) e = (a, refl, some-eq e)

pub empty-Sound : Sound [] []
unfolding lookup
empty-Sound = record {
  fronts = λ h conn e. absurd (none-ne-some e);
  registered = λ id h e. absurd (none-ne-some e);
}

pub new-front : (id : List ℕ) → WritesFront (new_connection id)
unfolding new_connection
new-front id bytes e = absurd (none-ne-some e)

pub WritesFront-eq : {c d : Connection} → c ≡ d → WritesFront c → WritesFront d
WritesFront-eq e front = rw e at front

pub Sound-eq :
    {objects new_objects : Assoc ℕ Connection} {connections new_connections : Assoc (List ℕ) ℕ}
    → new_objects ≡ objects
    → new_connections ≡ connections
    → Sound objects connections
    → Sound new_objects new_connections
Sound-eq e f sound = rw e (rw f sound)

-- A new object at a free address, registered under its id.
pub Sound-new :
    (h : ℕ) (made : Connection) {objects : Assoc ℕ Connection} {connections : Assoc (List ℕ) ℕ}
    → Sound objects connections
    → lookup h objects ≡ none
    → WritesFront made
    → Sound (insert h made objects) (insert made.conn_id h connections)
Sound-new h made {objects} {connections} s free front = record {
  fronts = λ j conn e. elim (lookup-insert_cases h j made conn objects e) [
    | inl (_, m) ↦ WritesFront-eq m front
    | inr (_, before) ↦ s.fronts j conn before
  ];
  registered = λ id j e. elim (lookup-insert_cases made.conn_id id h j connections e) [
    | inl (named, same) ↦ (
      made,
      ap (λ i. lookup i (insert h made objects)) (sym same) ∙ insert_self h made objects,
      named,
    )
    | inr (_, before) ↦
        let (conn, found, named) = s.registered id j before in
        elim (Bool-cases (nat_beq h j)) [
          | inl b ↦
              absurd (
                none-ne-some
                  (sym free ∙ ap (λ i. lookup i objects) ((nat_beq_iff h j).0 b) ∙ found))
          | inr b ↦ (conn, lookup-insert h j made objects ∙ rw b found, named)
        ]
  ];
}
