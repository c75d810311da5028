-- ===== src/Db/Logged.antt =====
-- The rows of the synchronized tables and the changes of the log, related by their numbers.
pub mod Ops
use cell_bridge.Dict.{find, text_key, Map, assign, find-assign, delete, find-delete}
use cell_bridge.Db.Sync.{Numbered, append_sync_log-Numbered}
use cell_bridge.Db.{Db, Change, Message, Call}
use cell_bridge.Base.{
  List, Text, ℕ, get_elem?, ◌≡◌, ◌++◌, some, ◌∷◌, ◌-◌, suc, [], codes, zero, length, refl, ◌+◌,
  arith, Bool-cases, text_eq, inl, inr, sym, ◌∙◌, ap, text_eq_iff,
}

pub get_elem_append {ℓ} :
    {A : Type ℓ} (xs ys : List A) (i : ℕ) (a : A)
    → get_elem? xs i ≡ some a
    → get_elem? (xs ++ ys) i ≡ some a
get_elem_append [] ys i a h = absurd (cc h)
get_elem_append (x ∷ xs) ys zero a h = h
get_elem_append (x ∷ xs) ys (suc i) a h = get_elem_append xs ys i a h

pub get_elem_last {ℓ} :
    {A : Type ℓ} (xs : List A) (a : A) → get_elem? (xs ++ a ∷ []) (length xs) ≡ some a
get_elem_last [] a = refl
get_elem_last (x ∷ xs) a = get_elem_last xs a

-- The change of an entity under a number.
abbrev pub Entry : Text → Text → ℕ → List Change → Type 0
Entry entity_type id seq log =
    (operation : Text) × (get_elem? log (seq - 1)
      ≡ some
          (record { seq = seq; entity_type = entity_type; entity_id = id; operation = operation }))

Entry-append :
    (entity_type id : Text) (seq : ℕ) (log : List Change) (change : Change)
    → Entry entity_type id seq log
    → Entry entity_type id seq (log ++ change ∷ [])
Entry-append entity_type id seq log change (operation, h) =
    (operation, get_elem_append log (change ∷ []) (seq - 1) _ h)

-- The numbers of the log are its places, and every row's number is that of a change of the row.
pub record IsLogged (db : Db) : Type 0 where
  pub numbered : Numbered 0 db.log
  pub messages :
      (id : Text) (message : Message)
      → find id db.messages ≡ some message
      → Entry (codes "message") id message.sync_seq db.log
  pub calls :
      (id : Text) (call : Call)
      → find id db.calls ≡ some call
      → Entry (codes "call") id call.sync_seq db.log

module _ (entity_type id operation : Text) (log : List Change) where
  abbrev pub new_change : Change
  new_change = record {
    seq = length log + 1;
    entity_type = entity_type;
    entity_id = id;
    operation = operation;
  }

  Entry-new : Entry entity_type id (length log + 1) (log ++ new_change ∷ [])
  Entry-new =
      let last : length log + 1 - 1 ≡ length log = omega arith in
      (operation, rw last (get_elem_last log new_change))

  -- A row that is assigned with the number of its change.
  Entry-assign :
      {V : Type 0}
      → (seq_of : V → ℕ) (row : V) (rows : Map Text V)
      → ((j : Text) (v : V) → find j rows ≡ some v → Entry entity_type j (seq_of v) log)
      → seq_of row ≡ length log + 1
      → (j : Text) (v : V) → find j (assign id row rows) ≡ some v
      → Entry entity_type j (seq_of v) (log ++ new_change ∷ [])
  Entry-assign seq_of row rows all e j v h = elim (Bool-cases (text_eq id j)) [
    | inl p ↦
        let found : some row ≡ some v = sym (find-assign id j row rows ∙ rw p refl) ∙ h in
        let number : seq_of v ≡ length log + 1 = ap seq_of (sym (cc found)) ∙ e in
        rw number (rw (sym ((text_eq_iff id j).0 p)) Entry-new)
    | inr p ↦
        Entry-append entity_type j (seq_of v) log new_change
          (all j v (sym (find-assign id j row rows ∙ rw p refl) ∙ h))
  ]

-- What an operation that changes the rows of a synchronized table does to the invariant.
pub messages-IsLogged :
    (id operation : Text) (row : Message) (db : Db)
    → IsLogged db
    → row.sync_seq ≡ length db.log + 1
    → IsLogged (record db {
      messages = assign id row db.messages;
      log = db.log ++ new_change (codes "message") id operation db.log ∷ [];
    })
messages-IsLogged id operation row db v e = record {
  numbered = append_sync_log-Numbered 0 db.log _ v.numbered (omega arith);
  messages =
      Entry-assign (codes "message") id operation db.log (λ m. m.sync_seq) row db.messages
        v.messages e;
  calls = λ j c h. Entry-append (codes "call") j c.sync_seq db.log _ (v.calls j c h);
}

pub calls-IsLogged :
    (id operation : Text) (row : Call) (db : Db)
    → IsLogged db
    → row.sync_seq ≡ length db.log + 1
    → IsLogged (record db {
      calls = assign id row db.calls;
      log = db.log ++ new_change (codes "call") id operation db.log ∷ [];
    })
calls-IsLogged id operation row db v e = record {
  numbered = append_sync_log-Numbered 0 db.log _ v.numbered (omega arith);
  messages = λ j m h. Entry-append (codes "message") j m.sync_seq db.log _ (v.messages j m h);
  calls = Entry-assign (codes "call") id operation db.log (λ c. c.sync_seq) row db.calls v.calls e;
}

pub deleted-IsLogged :
    (id operation : Text) (db : Db)
    → IsLogged db
    → IsLogged (record db {
      messages = delete id db.messages;
      log = db.log ++ new_change (codes "message") id operation db.log ∷ [];
    })
deleted-IsLogged id operation db v = record {
  numbered = append_sync_log-Numbered 0 db.log _ v.numbered (omega arith);
  messages = λ j m h.
      Entry-append (codes "message") j m.sync_seq db.log _ (v.messages j m (find_deleted j m h));
  calls = λ j c h. Entry-append (codes "call") j c.sync_seq db.log _ (v.calls j c h);
}
  where
    find_deleted :
        (j : Text) (m : Message)
        → find j (delete id db.messages) ≡ some m
        → find j db.messages ≡ some m
    find_deleted j m h = ground (arith, find-delete id j db.messages)
