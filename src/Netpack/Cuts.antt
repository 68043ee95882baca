-- ===== src/Netpack/Cuts.antt =====
-- Bytes cut into packets, which are queued, and a rest, which is kept: `push_more`.
-- Its steps serve `filter_data_` too.
use skynet_gameserver.Prelude.{
  ℕ, zero, suc, ◌^◌, ◌<◌, ◌≤◌, ◌≡◌, ◌≢◌, refl, ap, ap₂, sym, subst, ◌∙◌, inl, inr, Bool-cases,
  Option, none, some, List, [], ◌∷◌, ◌++◌, map, ltb, ◌==◌, length, take, drop, arith, length-take,
  length-drop, take-append-drop,
}
use skynet_gameserver.Prelude.Split.{append_assoc, append_nil}
use skynet_gameserver.Netpack.{
  Netpack, Uncomplete, Queue, find_uncomplete, get_queue, push_data, save_uncomplete, push_more,
  read_size,
}
use skynet_gameserver.Netpack.Table.{
  waiting, IsTable, find_uncomplete-Found, waiting-save_uncomplete, save_uncomplete-IsTable,
}
use skynet_gameserver.Netpack.Queues.{
  IsRing, queued, push_data-Pushed, queued-save_uncomplete, find_uncomplete-IsRing,
}
use skynet_gameserver.Netpack.Packing.{
  wire, Short, IsBytes, IsBytes-drop, partial, IsPartial, read_size-lt, read_size-bytes, wire_one,
  wire-append,
}

pub record IsValid (q : Queue) : Type 0 where
  pub ring : IsRing q
  pub table : IsTable q
  pub parts : (x : ℕ) → IsPartial (waiting q x)

-- A connection for which nothing waits, as `find_uncomplete` leaves it.
pub record IsClear (q : Queue) (fd : ℕ) : Type 0 where
  pub valid : IsValid q
  pub nothing_waits : waiting q fd ≡ none

abbrev pub queued_for : ℕ → List (List ℕ) → List (Option Netpack)
queued_for fd ps = map (λ p. some (record { id = fd; bytes = p })) ps

-- From the state `q`, with nothing waiting, the bytes are cut into the packets `ps`, which are
-- queued, and a rest, which waits. The other connections are left alone.
pub record Cut (q : Queue) (fd : ℕ) (bytes : List ℕ) (ps : List (List ℕ)) (q' : Queue)
    : Type 0 where
  pub valid : IsValid q'
  pub whole : bytes ≡ wire ps ++ partial (waiting q' fd)
  pub short : Short ps
  pub appended : queued q' ≡ queued q ++ queued_for fd ps
  pub others : (x : ℕ) → fd ≢ x → waiting q' x ≡ waiting q x

pub save-Cut :
    (slot : Option Queue) (uc : Uncomplete)
    → IsClear (get_queue slot) uc.id
    → IsPartial (some uc)
    → Cut (get_queue slot) uc.id (partial (some uc)) [] (save_uncomplete slot uc)
unfolding wire
save-Cut slot uc c p =
    let w = waiting-save_uncomplete slot uc in
    let own : waiting (save_uncomplete slot uc) uc.id ≡ some uc = ground (arith, w uc.id) in
    record {
      valid = record {
        ring = (queued-save_uncomplete slot uc).1 c.valid.ring;
        table = save_uncomplete-IsTable slot uc c.valid.table c.nothing_waits;
        parts = λ x. elim (Bool-cases (uc.id == x)) [
          | inl b ↦ rw (w x, b) p
          | inr b ↦ rw (w x, b) (c.valid.parts x)
        ];
      };
      whole = rw own refl;
      short = tt;
      appended = (queued-save_uncomplete slot uc).0 ∙ sym (append_nil (queued (get_queue slot)));
      others = λ x ne. ground (arith, w x);
    }

waiting-push_data :
    (slot : Option Queue) (fd x : ℕ) (p : List ℕ)
    → IsRing (get_queue slot)
    → waiting (push_data slot fd p) x ≡ waiting (get_queue slot) x
unfolding waiting
waiting-push_data slot fd x p v = rw ((push_data-Pushed slot fd p v).same_hash) refl

pub push_data-IsClear :
    (slot : Option Queue) (fd : ℕ) (p : List ℕ)
    → IsClear (get_queue slot) fd
    → IsClear (push_data slot fd p) fd
push_data-IsClear slot fd p c =
    let v = c.valid.ring in
    let pushed = push_data-Pushed slot fd p v in
    record {
      valid = record {
        ring = pushed.ring;
        table = rw pushed.same_hash c.valid.table;
        parts = λ x. rw (waiting-push_data slot fd x p v) (c.valid.parts x);
      };
      nothing_waits = waiting-push_data slot fd fd p v ∙ c.nothing_waits;
    }

-- A packet is queued, and the rest of the bytes is cut.
pub push-Cut :
    (slot : Option Queue) (fd a b : ℕ) (p rest : List ℕ) (ps : List (List ℕ)) (q' : Queue)
    → IsRing (get_queue slot)
    → b < 2 ^ 8
    → length p ≡ read_size a b
    → read_size a b < 2 ^ 16
    → Cut (push_data slot fd p) fd rest ps q'
    → Cut (get_queue slot) fd (a ∷ b ∷ (p ++ rest)) (p ∷ ps) q'
push-Cut slot fd a b p rest ps q' v h e lt c = record {
  valid = c.valid;
  whole =
      sym (wire_one a b p rest h e)
      ∙ ap (λ xs. wire (p ∷ []) ++ xs) c.whole
      ∙ sym (append_assoc (wire (p ∷ [])) (wire ps) (partial (waiting q' fd)))
      ∙ ap (λ xs. xs ++ partial (waiting q' fd)) (sym (wire-append (p ∷ []) ps));
  short = (omega (arith, e), c.short);
  appended =
      c.appended
      ∙ ap (λ xs. xs ++ queued_for fd ps) (push_data-Pushed slot fd p v).appended
      ∙ append_assoc (queued (get_queue slot)) (some (record { id = fd; bytes = p }) ∷ [])
          (queued_for fd ps);
  others = λ x ne. c.others x ne ∙ waiting-push_data slot fd x p v;
}

-- What `push_more` does with the bytes behind the first packet.
pub data Cuts (q : Queue) (fd : ℕ) (bytes : List ℕ) : Option Queue → Type 0 where
  cuts : (ps : List (List ℕ)) (q' : Queue) → Cut q fd bytes ps q' → Cuts q fd bytes (some q')

stop-Cut : (q : Queue) (fd : ℕ) → IsClear q fd → Cut q fd [] [] q
unfolding wire
stop-Cut q fd c = record {
  valid = c.valid;
  whole = rw c.nothing_waits refl;
  short = tt;
  appended = sym (append_nil (queued q));
  others = λ x ne. refl;
}

pub save_header :
    (slot : Option Queue) (fd a : ℕ)
    → IsClear (get_queue slot) fd
    → a < 2 ^ 8
    → Cut
        (get_queue slot)
        fd
        (a ∷ [])
        []
        (save_uncomplete slot (record { id = fd; size = 0; read = none; header = a }))
save_header slot fd a c h =
    save-Cut slot (record { id = fd; size = 0; read = none; header = a }) c h

pub save_sized :
    (slot : Option Queue) (fd a b : ℕ) (bytes : List ℕ)
    → IsClear (get_queue slot) fd
    → a < 2 ^ 8
    → b < 2 ^ 8
    → length bytes < read_size a b
    → Cut (get_queue slot) fd (a ∷ b ∷ bytes) [] (
        save_uncomplete slot
          (record { id = fd; size = read_size a b; read = some bytes; header = 0 }))
save_sized slot fd a b bytes c h h' lt =
    let uc : Uncomplete = record { id = fd; size = read_size a b; read = some bytes; header = 0 } in
    let (ea, eb) = read_size-bytes a b h' in
    let e : partial (some uc) ≡ a ∷ b ∷ bytes = ap₂ (λ x y. x ∷ y ∷ bytes) ea eb in
    subst (λ xs. Cut (get_queue slot) fd xs [] (save_uncomplete slot uc)) e
      (save-Cut slot uc c (lt, read_size-lt a b h h'))

-- The first packet of the bytes is there and goes to the queue.
pub next-Cuts :
    (slot : Option Queue) (fd a b : ℕ) (bytes : List ℕ) (r : Option Queue)
    → IsRing (get_queue slot)
    → a < 2 ^ 8
    → b < 2 ^ 8
    → read_size a b ≤ length bytes
    → Cuts (push_data slot fd (take (read_size a b) bytes)) fd (drop (read_size a b) bytes) r
    → Cuts (get_queue slot) fd (a ∷ b ∷ bytes) r
next-Cuts slot fd a b bytes _ v h h' le (cuts ps q' c) =
    let n = read_size a b in
    subst (λ xs. Cuts (get_queue slot) fd (a ∷ b ∷ xs) (some q')) (take-append-drop n bytes)
      (cuts (take n bytes ∷ ps) q' (
        push-Cut slot fd a b (take n bytes) (drop n bytes) ps q' v h'
          (omega (arith, length-take n bytes)) (read_size-lt a b h h') c))

pub empty_of_length : (xs : List ℕ) → length xs ≡ 0 → xs ≡ []
empty_of_length [] e = refl
empty_of_length (x ∷ xs) e = absurd (omega arith)

pub push_more-Cuts :
    (fuel : ℕ) (slot : Option Queue) (fd : ℕ) (bytes : List ℕ)
    → IsClear (get_queue slot) fd
    → IsBytes bytes
    → 0 < length bytes
    → length bytes ≤ fuel
    → Cuts (get_queue slot) fd bytes (push_more fuel slot fd bytes)
unfolding push_more get_queue
push_more-Cuts zero slot fd bytes c i h h' = absurd (omega arith)
push_more-Cuts (suc fuel) slot fd [] c i h h' = absurd (omega arith)
push_more-Cuts (suc fuel) slot fd (a ∷ []) c i h h' = cuts [] _ (save_header slot fd a c i.0)
push_more-Cuts (suc fuel) slot fd (a ∷ b ∷ bytes) c i h h' =
    let n = read_size a b in
    let c' = push_data-IsClear slot fd (take n bytes) c in
    elim (Bool-cases (ltb (length bytes) n)) [
      | inl e ↦ rw e (cuts [] _ (save_sized slot fd a b bytes c i.0 i.1.0 (ground arith)))
      | inr e ↦ elim (Bool-cases (length (drop n bytes) == 0)) [
        | inl e' ↦
            rw (e, e')
              (next-Cuts slot fd a b bytes _ c.valid.ring i.0 i.1.0 (ground arith)
                (rw (empty_of_length (drop n bytes) (ground arith)) (cuts [] _ (stop-Cut _ fd c'))))
        | inr e' ↦
            rw (e, e')
              (next-Cuts slot fd a b bytes _ c.valid.ring i.0 i.1.0 (ground arith) (
                push_more-Cuts fuel (some (push_data slot fd (take n bytes))) fd (drop n bytes) c'
                  (IsBytes-drop n bytes i.1.1) (ground arith) (omega (arith, length-drop n bytes))))
      ]
    ]

-- The same from a state that differs only in what waits for the connection.
pub move-Cut :
    (q q₁ : Queue) (fd : ℕ) (bytes : List ℕ) (ps : List (List ℕ)) (q' : Queue)
    → queued q₁ ≡ queued q
    → ((x : ℕ) → fd ≢ x → waiting q₁ x ≡ waiting q x)
    → Cut q₁ fd bytes ps q'
    → Cut q fd bytes ps q'
move-Cut q q₁ fd bytes ps q' e o c = record {
  valid = c.valid;
  whole = c.whole;
  short = c.short;
  appended = c.appended ∙ ap (λ xs. xs ++ queued_for fd ps) e;
  others = λ x ne. c.others x ne ∙ o x ne;
}

-- What `find_uncomplete` leaves.
pub find_uncomplete-IsClear :
    (slot : Option Queue) (fd : ℕ)
    → IsValid (get_queue slot)
    → IsClear (get_queue (find_uncomplete slot fd).1) fd
find_uncomplete-IsClear slot fd v =
    let f = find_uncomplete-Found slot fd v.table in
    record {
      valid = record {
        ring = find_uncomplete-IsRing slot fd v.table v.ring;
        table = f.table;
        parts = λ x. elim (Bool-cases (fd == x)) [
          | inl b ↦ rw (f.others x, b) tt
          | inr b ↦ rw (f.others x, b) (v.parts x)
        ];
      };
      nothing_waits = ground (arith, f.others fd);
    }
